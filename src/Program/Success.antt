-- ===== src/Program/Success.antt =====
-- Programs that succeed alike: what the one returns when it succeeds, the other returns too.
use foc_devnet.Base.{◌≡◌, sym, ap, ◌∙◌, Outcome, ok, err, panic}
use foc_devnet.Base.Results
use foc_devnet.Base.Results.{ok-injective}
use foc_devnet.Program.{
  Program, run, map_error, ◌>>=◌, then_run, run-bind, run-map_error, then_run-ok, Keeps, ret, act,
}

module _ {W D E A : Type 0} where
  abbrev pub Agrees : Program W D A → Program W E A → Type 0
  Agrees m n = (w v : W) (a : A) → run m w ≡ (ok a, v) → run n w ≡ (ok a, v)

module _ {W E A : Type 0} where
  pub Agrees-refl : (m : Program W E A) → Agrees m m
  Agrees-refl m w v a h = h

module _ {W D E A : Type 0} where
  errors_apart :
      (f : D → E) (r : Outcome D A × W) (v : W) (a : A)
      → ◌≡◌ {A = Outcome E A × W} (Results.map_err f r.0, r.1) (ok a, v)
      → r ≡ (ok a, v)
  errors_apart f (ok b, u) v a h = λ i. (ok (ok-injective (ap (λ s. s.0) h) i), ap (λ s. s.1) h i)
  errors_apart f (err e, u) v a h = cc (ap (λ s. s.0) h)
  errors_apart f (panic, u) v a h = cc (ap (λ s. s.0) h)

  pub map_error-Agrees : (f : D → E) (m : Program W D A) → Agrees (map_error f m) m
  map_error-Agrees f m w v a h = errors_apart f (run m w) v a (sym (run-map_error f m w) ∙ h)

  pub Agrees-map_error : (f : D → E) (m : Program W D A) → Agrees m (map_error f m)
  Agrees-map_error f m w v a h = run-map_error f m w ∙ ap (λ r. (Results.map_err f r.0, r.1)) h

module _ {W D E A B : Type 0} where
  pub Agrees-bind :
      (m : Program W D A) (n : Program W E A) (f : A → Program W D B) (g : A → Program W E B)
      → Agrees m n
      → ((a : A) → Agrees (f a) (g a))
      → Agrees (m >>= f) (n >>= g)
  Agrees-bind m n f g h k w v b e =
      let (a, ran, rest) = then_run-ok (run m w) f (sym (run-bind m f w) ∙ e) in
      run-bind n g w ∙ ap (λ r. then_run r g) (h w (run m w).1 a ran) ∙ k a (run m w).1 v b rest

module _ {W E A : Type 0} (P : W → Type 0) where
  -- A program run alone keeps what each of its actions keeps.
  pub run-Keeps : (m : Program W E A) (w : W) → Keeps P m → P w → P (run m w).1
  unfolding run
  run-Keeps (ret r) w k h = h
  run-Keeps (act u f) w k h = run-Keeps (f w) (u w) (k w h).1 (k w h).0
