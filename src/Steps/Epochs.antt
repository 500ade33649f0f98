-- ===== src/Steps/Epochs.antt =====
-- src/commands/start/step/mod.rs, `execute_steps_parallel`: the actions of the threads of an epoch,
-- and the threads run one after the other.
use foc_devnet.Base.{ℕ, ◌≡◌, sym, ap, ◌∙◌, ◌-◌, Outcome, ok, List, [], ◌∷◌, map}
use foc_devnet.Base.Results.{ok-injective}
use foc_devnet.Program.Success.{Agrees, Agrees-bind, Agrees-map_error, map_error-Agrees}
use foc_devnet.Program.{run, pure, gets}
use foc_devnet.Program.Interleaving.{run_all}
use foc_devnet.Context.{World}
use foc_devnet.Steps.{
  Step, StartError, step_failed, Timings, run_step, run_steps, execute_step_with_timing,
  collect_one, collect,
}
use foc_devnet.Steps.Sequence.{first_step, run_steps-ok}

module _ {X D E A : Type 0} where
  pure-Agrees : (a : A) → Agrees {W = World X} {D = D} {E = E} (pure a) (pure a)
  unfolding run
  pure-Agrees a w v b h = λ i. (ok (ok-injective (ap (λ s. s.0) h) i), ap (λ s. s.1) h i)

module _ {X D E A : Type 0} where
  gets-Agrees : (f : World X → A) → Agrees {D = D} {E = E} (gets f) (gets f)
  unfolding run
  gets-Agrees f w v b h = λ i. (ok (ok-injective (ap (λ s. s.0) h) i), ap (λ s. s.1) h i)

module _ {X E : Type 0} where
  -- A step that succeeds alone succeeds in a thread with nobody beside it.
  step-Agrees : (s : Step X E) → Agrees (first_step s) (execute_step_with_timing s)
  unfolding run_step execute_step_with_timing
  step-Agrees s w v d h =
      Agrees-bind (gets (λ w. w.clock)) (gets (λ w. w.clock)) _ _ (gets-Agrees (λ w. w.clock))
        (λ t. Agrees-bind s.pre_execute _ _ _ (Agrees-map_error _ s.pre_execute) λ _.
          Agrees-bind s.execute _ _ _ (Agrees-map_error _ s.execute) λ _.
            Agrees-bind s.post_execute _ _ _ (Agrees-map_error _ s.post_execute) λ _.
              Agrees-bind (gets (λ w. w.clock)) (gets (λ w. w.clock)) _ _
                (gets-Agrees (λ w. w.clock)) (λ e. pure-Agrees (e - t)))
        w v d (map_error-Agrees step_failed (run_step s) w v d h)

  -- The threads of steps that succeed one after the other, run one after the other.
  pub threads_succeed :
      (steps : List (Step X E)) (w w' : World X) (ts : Timings)
      → run (run_steps steps) w ≡ (ok ts, w')
      → (rs : List (Outcome (StartError E) ℕ)) × (run_all (map execute_step_with_timing steps) w
          ≡ (rs, w'))
        × (collect (map (λ s. s.name) steps) rs ≡ ok ts)
  unfolding run run_steps collect
  threads_succeed [] w w' ts h = ([], ap (λ r. ([], r.1)) h, ap (λ r. r.0) h)
  threads_succeed (s ∷ steps) w w' ts h =
      let (d, us, v, first, rest, f) = run_steps-ok s steps w w' ts h in
      let (rs, all, collected) = threads_succeed steps v w' us rest in
      (
        ok d ∷ rs,
        ap
              (λ r. (
                r.0 ∷ (run_all (map execute_step_with_timing steps) r.1).0,
                (run_all (map execute_step_with_timing steps) r.1).1,
              ))
              (step-Agrees s w v d first)
            ∙ ap (λ r. (ok d ∷ r.0, r.1)) all,
        ap (collect_one s.name (ok d)) collected ∙ ap ok (sym f),
      )
