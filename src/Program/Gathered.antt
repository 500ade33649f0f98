-- ===== src/Program/Gathered.antt =====
-- Threads whose results are gathered: what holds when all of them came back with a value.
use mathlib.Core.Path.{subst}
use foc_devnet.Base.{
  suc, ◌≡◌, ◌⊎◌, inl, inr, refl, ap, ◌∙◌, arith, Outcome, ok, err, panic, List, [], ◌∷◌, ◌++◌, map,
  All, All-append, length, length-append,
}
use foc_devnet.Program.{Program, run, ret, act}
use foc_devnet.Program.Interleaving.{Interleaves, all_done, turn}
use foc_devnet.Program.Threads.{Stable, split_Stable}
use foc_devnet.Program.Secures.{Secures, run-Stable}

module _ {W E A : Type 0} (G : W → Type 0) where
  -- A program that succeeds has passed the action that makes `G` hold.
  pub run-Secures :
      (m : Program W E A) (w w' : W) {a : A}
      → Secures G m
      → Stable G m
      → run m w ≡ (ok a, w')
      → G w'
  unfolding run
  run-Secures (ret (ok b)) w w' s k h = elim s [ ]
  run-Secures (ret (err e)) w w' s k h = let f = ap (λ r. r.0) h in cc f
  run-Secures (ret panic) w w' s k h = let f = ap (λ r. r.0) h in cc f
  run-Secures (act u f) w w' s k h = elim (s w) [
    | inl now ↦ subst (λ r. G r.1) h (run-Stable G (f w) (u w) (k w).1 now)
    | inr later ↦ run-Secures (f w) (u w) w' later (k w).1 h
  ]

  abbrev pub AnySecures : List (Program W E A) → Type 0
  AnySecures [] = ⊥
  AnySecures (p ∷ ps) = Secures G p ⊎ AnySecures ps

  step_AnySecures :
      (before after : List (Program W E A)) (u : W → W) (k : W → Program W E A) (w : W)
      → AnySecures (before ++ act u k ∷ after)
      → G (u w) ⊎ AnySecures (before ++ k w ∷ after)
  step_AnySecures [] after u k w (inl s) = elim (s w) [
    | inl h ↦ inl h
    | inr later ↦ inr (inl later)
  ]
  step_AnySecures [] after u k w (inr other) = inr (inr other)
  step_AnySecures (q ∷ before) after u k w (inl s) = inr (inl s)
  step_AnySecures (q ∷ before) after u k w (inr other) =
      elim (step_AnySecures before after u k w other) [
        | inl h ↦ inl h
        | inr later ↦ inr (inr later)
      ]

module _ {E A : Type 0} where
  abbrev pub IsOk : Outcome E A → Type 0
  IsOk (ok a) = Unit
  IsOk (err e) = ⊥
  IsOk panic = ⊥

module _ {W E A : Type 0} (G : W → Type 0) where
  none_left : (rs : List (Outcome E A)) → All IsOk rs → AnySecures {W = W} G (map ret rs) → ⊥
  none_left [] k s = elim s [ ]
  none_left (ok a ∷ rs) k (inl s) = elim s [ ]
  none_left (ok a ∷ rs) k (inr s) = none_left rs k.1 s
  none_left (err e ∷ rs) k s = elim k.0 [ ]
  none_left (panic ∷ rs) k s = elim k.0 [ ]

  -- What one thread makes hold on every way to its success, and none ends, holds when all have succeeded,
  -- whatever the order of their actions.
  pub Interleaves-Secures :
      {rs : List (Outcome E A)} {w' : W} {ps : List (Program W E A)} {w : W}
      → Interleaves rs w' ps w
      → All (Stable G) ps
      → All IsOk rs
      → G w ⊎ AnySecures G ps
      → G w'
  Interleaves-Secures (all_done e f) ss k (inl h) = subst G f h
  Interleaves-Secures {rs} (all_done e f) ss k (inr a) =
      absurd (none_left rs k (subst (AnySecures G) e a))
  Interleaves-Secures {w} (turn before after u f e rest) ss k h =
      let (front, middle, back) =
        split_Stable G before after (act u f) (subst (All (Stable G)) e ss) in
      Interleaves-Secures rest
        (All-append (Stable G) before (f w ∷ after) front ((middle w).1, back)) k
        (elim h [
          | inl now ↦ inl ((middle w).0 now)
          | inr later ↦ step_AnySecures G before after u f w (subst (AnySecures G) e later)
        ])

module _ {E A : Type 0} (W : Type 0) where
  -- The programs of threads that have ended.
  abbrev ended : List (Outcome E A) → List (Program W E A)
  ended = map ret

  length-ret : (rs : List (Outcome E A)) → length (ended rs) ≡ length rs
  length-ret [] = refl
  length-ret (r ∷ rs) = ap (λ n. suc n) (length-ret rs)

module _ {W E A : Type 0} where
  same_length :
      (before after : List (Program W E A)) (p q : Program W E A)
      → length (before ++ p ∷ after) ≡ length (before ++ q ∷ after)
  same_length before after p q =
      omega (arith, length-append before (p ∷ after), length-append before (q ∷ after))

  -- Every thread has its result.
  pub Interleaves-length :
      {rs : List (Outcome E A)} {w' : W} {ps : List (Program W E A)} {w : W}
      → Interleaves rs w' ps w
      → length ps ≡ length rs
  Interleaves-length {rs} (all_done e f) = ap length e ∙ length-ret W rs
  Interleaves-length {w} (turn before after u k e rest) =
      ap length e ∙ same_length before after (act u k) (k w) ∙ Interleaves-length rest
