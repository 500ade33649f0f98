-- ===== src/Program/Loops.antt =====
-- `for x in xs { body(x)?; }` as a program, and the ranges that the loops run over.
use foc_devnet.Base.{ℕ, zero, suc, ◌+◌, ◌≡◌, sym, ap, ◌∙◌, List, [], ◌∷◌, Outcome, ok}
use foc_devnet.Base.Results.{ok-injective}
use foc_devnet.Program.{
  Program, run, ret, locked, pure, ◌>>=◌, ◌>>◌, run-bind, then_run, then_run-ok,
}

-- `first..first + n`
abbrev pub range : ℕ → ℕ → List ℕ
range first zero = []
range first (suc n) = first ∷ range (first + 1) n

module _ {W E A : Type 0} where
  unfoldable pub for_each : List A → (A → Program W E (Unit {0})) → Program W E (Unit {0})
  for_each [] body = pure tt
  for_each (x ∷ xs) body = body x >> for_each xs body

module _ {W E A B : Type 0} where
  -- Inversion of `>>=` in a run that succeeds: the first part did, and left a world for the second.
  pub run_bind-ok :
      (m : Program W E A) (f : A → Program W E B) {b : B} (w w' : W)
      → run (m >>= f) w ≡ (ok b, w')
      → (a : A) × (w₁ : W) × (run m w ≡ (ok a, w₁)) × (run (f a) w₁ ≡ (ok b, w'))
  run_bind-ok m f w w' h =
      let (a, ran, rest) = then_run-ok (run m w) f (sym (run-bind m f w) ∙ h) in
      (a, (run m w).1, ran, rest)

module _ {W E A : Type 0} where
  pub run-pure-ok : {a b : A} (w w' : W) → run (pure {E = E} a) w ≡ (ok b, w') → (a ≡ b) × (w ≡ w')
  unfolding run
  run-pure-ok w w' h = (ok-injective (ap (λ s. s.0) h), ap (λ s. s.1) h)

module _ {W E A : Type 0} where
  pub run-ret : (r : Outcome E A) {a : A} (w w' : W) → run (ret r) w ≡ (ok a, w') → r ≡ ok a
  unfolding run
  run-ret r w w' h = ap (λ s. s.0) h

  pub run-locked :
      (u : W → Outcome E A × W) {a : A} (w w' : W)
      → run (locked u) w ≡ (ok a, w')
      → u w ≡ (ok a, w')
  unfolding run
  run-locked u w w' h = h

module _ {W E A B : Type 0} where
  -- What follows a part that succeeds is run from the world that it left.
  pub bind-run :
      (m : Program W E A) (f : A → Program W E B) (a : A) (w v : W)
      → run m w ≡ (ok a, v)
      → run (m >>= f) w ≡ run (f a) v
  bind-run m f a w v h = run-bind m f w ∙ ap (λ r. then_run r f) h

module _ {W E A B G : Type 0} where
  -- The same inversion, for what is left to show behind it.
  pub run_bind-elim :
      (m : Program W E A) (f : A → Program W E B) (b : B) (w w' : W)
      → run (m >>= f) w ≡ (ok b, w')
      → ((a : A) (w₁ : W) → run m w ≡ (ok a, w₁) → run (f a) w₁ ≡ (ok b, w') → G)
      → G
  run_bind-elim m f b w w' h k = let (a, w₁, ran, rest) = run_bind-ok m f w w' h in k a w₁ ran rest
