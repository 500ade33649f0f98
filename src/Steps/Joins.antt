-- ===== src/Steps/Joins.antt =====
-- src/commands/start/step/mod.rs, `execute_steps_in_parallel`: what comes of the results of the threads.
use foc_devnet.Base.{ℕ, ◌≡◌, refl, ap, Outcome, ok, err, panic, List, [], ◌∷◌, ◌++◌, map}
use foc_devnet.Text.{Text}
use foc_devnet.Steps.{StartError, Timings, thread_panicked, joined, collect_one, collect}

module _ {E : Type 0} where
  abbrev pub durations : Timings → List (Outcome (StartError E) ℕ)
  durations = map (λ t. ok t.1)

abbrev pub names : Timings → List Text
names = map (λ t. t.0)

module _ {E : Type 0} where
  collect-durations : (ts : Timings) → collect {E = E} (names ts) (durations ts) ≡ ok ts
  unfolding collect
  collect-durations [] = refl
  collect-durations ((n, d) ∷ ts) = ap (collect_one n (ok d)) (collect-durations ts)

  first_failed :
      (ts : Timings) (n : Text) (ns : List Text) (r : Outcome (StartError E) ℕ)
      (rs : List (Outcome (StartError E) ℕ)) (e : StartError E)
      → joined r ≡ err e
      → collect (names ts ++ n ∷ ns) (durations ts ++ r ∷ rs) ≡ err e
  unfolding collect
  first_failed [] n ns r rs e h = ap (λ o. collect_one n o (collect ns rs)) h
  first_failed ((m, d) ∷ ts) n ns r rs e h =
      ap (collect_one m (ok d)) (first_failed ts n ns r rs e h)

  -- If the threads of the first steps of an epoch succeed and the next one fails with an error or a
  -- panic, the epoch fails with that error, or with the error for a panicked thread, whatever comes of
  -- the threads behind and in whatever order they end. If all threads succeed, the result has the
  -- timing of each step, in the order of the steps.
  pub collect_lem :
      (ts : Timings) (n : Text) (ns : List Text) (rs : List (Outcome (StartError E) ℕ))
      (e : StartError E)
      → (collect {E = E} (names ts) (durations ts) ≡ ok ts)
        × (collect (names ts ++ n ∷ ns) (durations ts ++ err e ∷ rs) ≡ err e)
        × (collect {E = E} (names ts ++ n ∷ ns) (durations ts ++ panic ∷ rs) ≡ err thread_panicked)
  collect_lem ts n ns rs e = (
    collect-durations ts,
    first_failed ts n ns (err e) rs e refl,
    first_failed ts n ns panic rs thread_panicked refl,
  )
