-- ===== src/Program/Threads.antt =====
-- Threads that a step spawns and joins, each of which pushes its error to a vector that they share.
use mathlib.Core.Path.{subst}
use foc_devnet.Base.{
  ◌≡◌, ◌⊎◌, inl, inr, Outcome, ok, err, panic, List, [], ◌∷◌, ◌++◌, map, All, All-append,
}
use foc_devnet.Program.{Program, ret, act, modify, pure, ◌>>=◌}
use foc_devnet.Program.Catch.{catch}
use foc_devnet.Program.Interleaving.{Interleaves, all_done, turn}

module _ {W E A : Type 0} where
  -- What concerns the world, where the threads share the vector of errors too.
  unfoldable pub on_world : Program W E A → Program (W × List E) E A
  on_world (ret r) = ret r
  on_world (act u k) = act (λ s. (u s.0, s.1)) (λ s. on_world (k s.0))

module _ {E : Type 0} where
  -- The loop that joins the threads in their order.
  unfoldable pub join_all : E → List (Outcome E (Unit {0})) → Outcome E (Unit {0})
  join_all panicked [] = ok tt
  join_all panicked (panic ∷ rs) = err panicked
  join_all panicked (ok u ∷ rs) = join_all panicked rs
  join_all panicked (err e ∷ rs) = join_all panicked rs

module _ {W E : Type 0} where
  -- `errors.lock().unwrap().push(error)`
  abbrev pub push_error : E → Program (W × List E) E (Unit {0})
  push_error e = modify (λ s. (s.0, s.1 ++ e ∷ []))

  abbrev pub report : (E → E) → Outcome E (Unit {0}) → Program (W × List E) E (Unit {0})
  report about (ok u) = pure tt
  report about (err e) = push_error (about e)
  report about panic = ret panic

  -- The body of a thread: its work, then the error of it, if there is one.
  unfoldable pub reporting : (E → E) → Program W E (Unit {0}) → Program (W × List E) E (Unit {0})
  unfolding on_world
  reporting about m = catch (on_world m) >>= report about

  -- The threads `ps`, spawned in the world `w` with the errors `es` and joined in the world `w'` with
  -- the errors `es'`, in some order of their actions; `r` is what the loop that joins them comes to.
  pub record JoinsThreads (panicked : E) (ps : List (Program (W × List E) E (Unit {0}))) (w : W)
      (es : List E) (w' : W) (es' : List E) (r : Outcome E (Unit {0})) : Type 0 where
    pub results : List (Outcome E (Unit {0}))
    pub interleaved : Interleaves results (w', es') ps (w, es)
    pub joined : r ≡ join_all panicked results

module _ {W E A : Type 0} (H : W → Type 0) where
  -- No action of the program ends what `H` says.
  abbrev pub Stable : Program W E A → Type 0
  Stable (ret r) = Unit
  Stable (act u k) = (w : W) → (H w → H (u w)) × Stable (k w)

  abbrev pub Panics : Outcome E A → Type 0
  Panics (ok a) = ⊥
  Panics (err e) = ⊥
  Panics panic = Unit

  -- An action of the program makes `H` hold, unless the program panics.
  abbrev pub Will : Program W E A → Type 0
  Will (ret r) = Panics r
  Will (act u k) = (w : W) → H (u w) ⊎ Will (k w)

  abbrev pub Any : List (Program W E A) → Type 0
  Any [] = ⊥
  Any (p ∷ ps) = Will p ⊎ Any ps

  pub split_Stable :
      (before after : List (Program W E A)) (p : Program W E A)
      → All Stable (before ++ p ∷ after)
      → All Stable before × Stable p × All Stable after
  split_Stable [] after p h = (tt, h.0, h.1)
  split_Stable (q ∷ before) after p h =
      let (front, middle, back) = split_Stable before after p h.1 in ((h.0, front), middle, back)

  -- The thread that will make `H` hold has its turn, or another one has.
  step_Any :
      (before after : List (Program W E A)) (u : W → W) (k : W → Program W E A) (w : W)
      → Any (before ++ act u k ∷ after)
      → H (u w) ⊎ Any (before ++ k w ∷ after)
  step_Any [] after u k w (inl will) = elim (will w) [ inl h ↦ inl h | inr later ↦ inr (inl later) ]
  step_Any [] after u k w (inr other) = inr (inr other)
  step_Any (q ∷ before) after u k w (inl will) = inr (inl will)
  step_Any (q ∷ before) after u k w (inr other) = elim (step_Any before after u k w other) [
    | inl h ↦ inl h
    | inr later ↦ inr (inr later)
  ]

  abbrev pub AnyPanics : List (Outcome E A) → Type 0
  AnyPanics [] = ⊥
  AnyPanics (r ∷ rs) = Panics r ⊎ AnyPanics rs

  Any-ret : (rs : List (Outcome E A)) → Any (map ret rs) → AnyPanics rs
  Any-ret [] a = elim a [ ]
  Any-ret (r ∷ rs) (inl p) = inl p
  Any-ret (r ∷ rs) (inr ps) = inr (Any-ret rs ps)

  -- What one of the threads will make hold, and none of them ends, holds when all have run, whatever
  -- the order of their actions, unless a thread panicked.
  pub Interleaves-Will :
      {rs : List (Outcome E A)} {w' : W} {ps : List (Program W E A)} {w : W}
      → Interleaves rs w' ps w
      → All Stable ps
      → H w ⊎ Any ps
      → H w' ⊎ AnyPanics rs
  Interleaves-Will (all_done e f) ss (inl h) = inl (subst H f h)
  Interleaves-Will {rs} (all_done e f) ss (inr a) = inr (Any-ret rs (subst Any e a))
  Interleaves-Will {w} (turn before after u k e rest) ss h =
      let (front, middle, back) = split_Stable before after (act u k) (subst (All Stable) e ss) in
      Interleaves-Will rest (All-append Stable before (k w ∷ after) front ((middle w).1, back))
        (elim h [
          | inl now ↦ inl ((middle w).0 now)
          | inr later ↦ step_Any before after u k w (subst Any e later)
        ])
