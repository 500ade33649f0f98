-- ===== src/Steps/Secured.antt =====
-- src/commands/start/step/mod.rs, `execute_steps_parallel`: what the phases of the steps make true,
-- behind epochs that succeeded.
use mathlib.Core.Path.{subst}
use foc_devnet.Base.{
  ℕ, suc, ◌≡◌, ◌⊎◌, inl, inr, refl, sym, ◌∙◌, arith, Outcome, ok, err, panic, List, [], ◌∷◌, map,
  All, length,
}
use foc_devnet.Base.Results.{bind-ok}
use foc_devnet.Program.{Program, run, map_error, ◌>>=◌}
use foc_devnet.Program.Threads.{Stable}
use foc_devnet.Program.Secures.{
  Secures, Secures-first, Secures-later, Stable-bind, Stable-map_error, Secures-map_error,
  run-Stable,
}
use foc_devnet.Program.Gathered.{
  run-Secures, AnySecures, IsOk, Interleaves-Secures, Interleaves-length,
}
use foc_devnet.Context.{World}
use foc_devnet.Steps.{
  Step, StartError, step_failed, pre_execution_failed, execution_failed, post_execution_failed,
  Timings, run_step, execute_single_step, execute_step_with_timing, collect, ExecutesEpoch, alone,
  in_parallel, ExecutesEpochs, no_more, next_epoch, epoch_fails, epoch_panics,
}

module _ {X E : Type 0} (G : World X → Type 0) where
  -- No phase of the step ends `G`.
  abbrev pub StepStable : Step X E → Type 0
  StepStable s = Stable G s.pre_execute × Stable G s.execute × Stable G s.post_execute

  -- A phase of the step makes `G` hold on every way to its success.
  abbrev pub StepSecures : Step X E → Type 0
  StepSecures s = Secures G s.pre_execute ⊎ Secures G s.execute ⊎ Secures G s.post_execute

  abbrev pub OneSecures : List (Step X E) → Type 0
  OneSecures [] = ⊥
  OneSecures (s ∷ steps) = StepSecures s ⊎ OneSecures steps

  abbrev pub OneEpochSecures : List (List (Step X E)) → Type 0
  OneEpochSecures [] = ⊥
  OneEpochSecures (steps ∷ epochs) = OneSecures steps ⊎ OneEpochSecures epochs

module _ {W E A : Type 0} (G : W → Type 0) (p q r : Program W E (Unit {0}))
    (f : Program W E A) where
  phases-Stable :
      Stable G p
      → Stable G q
      → Stable G r
      → Stable G f
      → Stable G (p >>= λ _. q >>= λ _. r >>= λ _. f)
  phases-Stable k l m n =
      Stable-bind G p _ k λ _. Stable-bind G q _ l λ _. Stable-bind G r _ m λ _. n

  phases-Secures :
      Secures G p ⊎ Secures G q ⊎ Secures G r → Secures G (p >>= λ _. q >>= λ _. r >>= λ _. f)
  phases-Secures (inl s) = Secures-first G p _ s
  phases-Secures (inr (inl s)) = Secures-later G p _ λ _. Secures-first G q _ s
  phases-Secures (inr (inr s)) =
      Secures-later G p _ λ _. Secures-later G q _ λ _. Secures-first G r _ s

module _ {X E : Type 0} (G : World X → Type 0) (s : Step X E) where
  thread-Stable : StepStable G s → Stable G (execute_step_with_timing s)
  unfolding execute_step_with_timing
  thread-Stable (k, l, m) = λ w. (
    (λ h. h),
    phases-Stable G (map_error (pre_execution_failed s.name) s.pre_execute)
        (map_error (execution_failed s.name) s.execute)
        (map_error (post_execution_failed s.name) s.post_execute) _
        (Stable-map_error G _ s.pre_execute k) (Stable-map_error G _ s.execute l)
        (Stable-map_error G _ s.post_execute m) (λ v. ((λ h. h), tt)),
  )

  mapped :
      StepSecures G s
      → Secures G (map_error (pre_execution_failed s.name) s.pre_execute)
        ⊎ Secures G (map_error (execution_failed s.name) s.execute)
        ⊎ Secures G (map_error (post_execution_failed s.name) s.post_execute)
  mapped (inl h) = inl (Secures-map_error G _ s.pre_execute h)
  mapped (inr (inl h)) = inr (inl (Secures-map_error G _ s.execute h))
  mapped (inr (inr h)) = inr (inr (Secures-map_error G _ s.post_execute h))

  thread-Secures : StepSecures G s → Secures G (execute_step_with_timing s)
  unfolding execute_step_with_timing
  thread-Secures h = λ w. inr (phases-Secures G _ _ _ _ (mapped h))

  step-Stable : StepStable G s → Stable G (run_step s)
  unfolding run_step
  step-Stable (k, l, m) = λ w. (
    (λ h. h),
    phases-Stable G s.pre_execute s.execute s.post_execute _ k l m (λ v. ((λ h. h), tt)),
  )

  step-Secures : StepSecures G s → Secures G (run_step s)
  unfolding run_step
  step-Secures h = λ w. inr (phases-Secures G s.pre_execute s.execute s.post_execute _ h)

  single-Stable : StepStable G s → Stable G (execute_single_step s)
  unfolding execute_single_step
  single-Stable k =
      Stable-bind G (map_error step_failed (run_step s)) _
        (Stable-map_error G step_failed (run_step s) (step-Stable k)) (λ d. tt)

  single-Secures : StepSecures G s → Secures G (execute_single_step s)
  unfolding execute_single_step
  single-Secures h =
      Secures-first G (map_error step_failed (run_step s)) _
        (Secures-map_error G step_failed (run_step s) (step-Secures h))

zero_length : {n : ℕ} → 0 ≡ suc n → ⊥
zero_length e = omega (arith, e)

module _ {X E : Type 0} (G : World X → Type 0) where
  threads-Stable :
      (steps : List (Step X E))
      → All (StepStable G) steps
      → All (Stable G) (map execute_step_with_timing steps)
  threads-Stable [] k = tt
  threads-Stable (s ∷ steps) k = (thread-Stable G s k.0, threads-Stable steps k.1)

  threads-Secures :
      (steps : List (Step X E))
      → OneSecures G steps
      → AnySecures G (map execute_step_with_timing steps)
  threads-Secures [] h = h
  threads-Secures (s ∷ steps) (inl h) = inl (thread-Secures G s h)
  threads-Secures (s ∷ steps) (inr h) = inr (threads-Secures steps h)

  -- An epoch succeeds if all its threads do.
  collect-IsOk :
      (steps : List (Step X E)) (rs : List (Outcome (StartError E) ℕ)) (ts : Timings)
      → length (map execute_step_with_timing steps) ≡ length rs
      → collect (map (λ s. s.name) steps) rs ≡ ok ts
      → All IsOk rs
  unfolding collect
  collect-IsOk steps [] ts l h = tt
  collect-IsOk [] (r ∷ rs) ts l h = absurd (zero_length l)
  collect-IsOk (s ∷ steps) (ok d ∷ rs) ts l h =
      let (us, e, f) = bind-ok (collect (map (λ s. s.name) steps) rs) _ h in
      (tt, collect-IsOk steps rs us (omega (arith, l)) e)
  collect-IsOk (s ∷ steps) (err e ∷ rs) ts l h = cc
  collect-IsOk (s ∷ steps) (panic ∷ rs) ts l h = cc

  epoch-Secures :
      {steps : List (Step X E)} {w w' : World X} {r : Outcome (StartError E) Timings} (ts : Timings)
      → ExecutesEpoch w' steps w r
      → r ≡ ok ts
      → All (StepStable G) steps
      → G w ⊎ OneSecures G steps
      → G w'
  epoch-Secures {w} {w'} {r} ts (alone s h) e k (inl g) =
      subst (λ v. G v.1) h (run-Stable G (execute_single_step s) w (single-Stable G s k.0) g)
  epoch-Secures {w} {w'} {r} ts (alone s h) e k (inr (inl g)) =
      run-Secures G (execute_single_step s) w w' (single-Secures G s g) (single-Stable G s k.0)
        (subst (λ r. run (execute_single_step s) w ≡ (r, w')) e h)
  epoch-Secures ts (alone s h) e k (inr (inr g)) = absurd g
  epoch-Secures ts (in_parallel steps rs many i f) e k g =
      Interleaves-Secures G i (threads-Stable steps k)
        (collect-IsOk steps rs ts (Interleaves-length i) (sym f ∙ e))
        (elim g [ inl h ↦ inl h | inr h ↦ inr (threads-Secures steps h) ])

  epochs-Secures :
      {w' : World X} {epochs : List (List (Step X E))} {w : World X}
      {r : Outcome (StartError E) Timings} (ts : Timings)
      → ExecutesEpochs w' epochs w r
      → r ≡ ok ts
      → All (All (StepStable G)) epochs
      → G w ⊎ OneEpochSecures G epochs
      → G w'
  epochs-Secures ts (no_more h) e k (inl g) = subst G h g
  epochs-Secures ts (no_more h) e k (inr g) = absurd g
  epochs-Secures ts (next_epoch {ts = us} {r} first rest) e k (inl g) =
      let (vs, f, h) = bind-ok r _ e in
      epochs-Secures vs rest f k.1 (inl (epoch-Secures us first refl k.0 (inl g)))
  epochs-Secures ts (next_epoch {ts = us} {r} first rest) e k (inr (inl g)) =
      let (vs, f, h) = bind-ok r _ e in
      epochs-Secures vs rest f k.1 (inl (epoch-Secures us first refl k.0 (inr g)))
  epochs-Secures ts (next_epoch {r} first rest) e k (inr (inr g)) =
      let (vs, f, h) = bind-ok r _ e in epochs-Secures vs rest f k.1 (inr g)
  epochs-Secures ts (epoch_fails d first) e k g = cc
  epochs-Secures ts (epoch_panics first) e k g = cc

  -- If a run in epochs succeeds, then what one phase of some step makes true on every way to its own
  -- success (of the preparation, of the action or of what follows it), and no phase of any step ends,
  -- holds behind the run: in whatever epoch the step stands, alone or in a thread, and in whatever
  -- order the actions of the threads came.
  pub ExecutesEpochs-Secures :
      {epochs : List (List (Step X E))} {w w' : World X} {ts : Timings}
      → ExecutesEpochs w' epochs w (ok ts)
      → All (All (StepStable G)) epochs
      → OneEpochSecures G epochs
      → G w'
  ExecutesEpochs-Secures {ts} x k g = epochs-Secures ts x refl k (inr g)
