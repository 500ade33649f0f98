-- ===== src/Program/Interleaving.antt =====
-- Threads side by side: every order in which their actions can come.
use mathlib.Core.Path.{subst}
use foc_devnet.Base.{◌≡◌, refl, ap, Outcome, List, [], ◌∷◌, ◌++◌, map, All, All-append}
use foc_devnet.Program.{Program, ret, act, run, Keeps}

-- From the threads `ps` and the object `w`, some order of the actions ends with the results `rs`, in
-- the order of the threads, and the object `w'`. Every thread runs to its end.
pub data Interleaves {W E A : Type 0} (rs : List (Outcome E A)) (w' : W)
    : List (Program W E A) → W → Type 0 where
  all_done : {ps : List (Program W E A)} {w : W} → ps ≡ map ret rs → w ≡ w' → Interleaves rs w' ps w
  turn :
      {ps : List (Program W E A)} {w : W} (before after : List (Program W E A)) (u : W → W)
      (k : W → Program W E A)
      → ps ≡ before ++ act u k ∷ after
      → Interleaves rs w' (before ++ k w ∷ after) (u w)
      → Interleaves rs w' ps w

module _ {W E A : Type 0} (P : W → Type 0) where
  split_Keeps :
      (before after : List (Program W E A)) (p : Program W E A)
      → All (Keeps P) (before ++ p ∷ after)
      → All (Keeps P) before × Keeps P p × All (Keeps P) after
  split_Keeps [] after p h = (tt, h.0, h.1)
  split_Keeps (q ∷ before) after p h =
      let (front, middle, back) = split_Keeps before after p h.1 in ((h.0, front), middle, back)

  -- What every thread keeps holds at the end of every interleaving.
  pub Interleaves-Keeps :
      {rs : List (Outcome E A)} {w' : W} {ps : List (Program W E A)} {w : W}
      → Interleaves rs w' ps w
      → All (Keeps P) ps
      → P w
      → P w'
  Interleaves-Keeps (all_done e f) ks h = subst P f h
  Interleaves-Keeps {w} (turn before after u k e rest) ks h =
      let (front, middle, back) = split_Keeps before after (act u k) (subst (All (Keeps P)) e ks) in
      let (kept, later) = middle w h in
      Interleaves-Keeps rest (All-append _ before (k w ∷ after) front (later, back)) kept

-- Running the threads one after the other is one of the orders: no set of threads can block.
module _ {W E A : Type 0} where
  abbrev pub run_all : List (Program W E A) → W → List (Outcome E A) × W
  run_all [] w = ([], w)
  run_all (p ∷ ps) w = let (r, v) = run p w in let (rs, u) = run_all ps v in (r ∷ rs, u)

  push_done :
      (r : Outcome E A) {rs : List (Outcome E A)} {w' : W} {ps : List (Program W E A)} {w : W}
      → Interleaves rs w' ps w
      → Interleaves (r ∷ rs) w' (ret r ∷ ps) w
  push_done r (all_done e f) = all_done (ap (λ qs. ret r ∷ qs) e) f
  push_done r (turn before after u k e rest) =
      turn (ret r ∷ before) after u k (ap (λ qs. ret r ∷ qs) e) (push_done r rest)

  run_first :
      (p : Program W E A) (ps : List (Program W E A)) (w : W) (rs : List (Outcome E A)) (w' : W)
      → Interleaves rs w' (ret (run p w).0 ∷ ps) (run p w).1
      → Interleaves rs w' (p ∷ ps) w
  unfolding run
  run_first (ret r) ps w rs w' i = i
  run_first (act u k) ps w rs w' i = turn [] ps u k refl (run_first (k w) ps (u w) rs w' i)

  pub run_all-Interleaves :
      (ps : List (Program W E A)) (w : W) → Interleaves (run_all ps w).0 (run_all ps w).1 ps w
  run_all-Interleaves [] w = all_done refl refl
  run_all-Interleaves (p ∷ ps) w =
      run_first p ps w _ _ (push_done (run p w).0 (run_all-Interleaves ps (run p w).1))
