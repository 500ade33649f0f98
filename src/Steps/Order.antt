-- ===== src/Steps/Order.antt =====
-- src/commands/start/step/mod.rs: `execute_steps` beside `execute_steps_parallel`.
use foc_devnet.Base.{◌≡◌, ◌≢◌, refl, sym, ap, ◌∙◌, arith, ok, List, [], ◌∷◌, ◌++◌, map, length}
use mathlib.Core.Path.{subst}
use foc_devnet.Program.{run, pure, then_run, run-bind}
use foc_devnet.Program.Interleaving.{Interleaves, run_all-Interleaves}
use foc_devnet.Context.{World}
use foc_devnet.Steps.{
  Step, Timings, run_steps, execute_single_step, execute_step_with_timing, ExecutesEpoch, alone,
  in_parallel, ExecutesEpochs, no_more, next_epoch,
}
use foc_devnet.Steps.Sequence.{run_steps-ok, run_steps-cons, other_steps}
use foc_devnet.Steps.Epochs.{threads_succeed}

abbrev pub concat : {A : Type 0} → List (List A) → List A
concat [] = []
concat (xs ∷ xss) = xs ++ concat xss

module _ {X E : Type 0} where
  -- The two parts of a run of steps that succeeds.
  split_run :
      (front back : List (Step X E)) (w w' : World X) (ts : Timings)
      → run (run_steps (front ++ back)) w ≡ (ok ts, w')
      → (us vs : Timings) × (v : World X) × (run (run_steps front) w ≡ (ok us, v))
        × (run (run_steps back) v ≡ (ok vs, w'))
        × (us ++ vs ≡ ts)
  unfolding run run_steps
  split_run [] back w w' ts h = ([], ts, w, refl, h, refl)
  split_run (s ∷ front) back w w' ts h =
      let (d, rest, u, first, later, f) = run_steps-ok s (front ++ back) w w' ts h in
      let (us, vs, v, e, g, k) = split_run front back u w' rest later in
      (
        (s.name, d) ∷ us,
        vs,
        v,
        run_steps-cons s front w
            ∙ ap (λ r. then_run r (other_steps s front)) first
            ∙ run-bind (run_steps front) (λ ts. pure ((s.name, d) ∷ ts)) u
            ∙ ap (λ r. then_run r (λ ts. pure ((s.name, d) ∷ ts))) e,
        g,
        ap (λ ts. (s.name, d) ∷ ts) k ∙ sym f,
      )

  threads_run :
      (steps : List (Step X E)) (w w' : World X) (ts : Timings)
      → length steps ≢ 1
      → run (run_steps steps) w ≡ (ok ts, w')
      → ExecutesEpoch w' steps w (ok ts)
  threads_run steps w w' ts many h =
      let (rs, all, collected) = threads_succeed steps w w' ts h in
      in_parallel steps rs many
        (subst (λ r. Interleaves r.0 r.1 (map execute_step_with_timing steps) w) all
          (run_all-Interleaves (map execute_step_with_timing steps) w))
        (sym collected)

  epoch_runs :
      (steps : List (Step X E)) (w w' : World X) (ts : Timings)
      → run (run_steps steps) w ≡ (ok ts, w')
      → ExecutesEpoch w' steps w (ok ts)
  unfolding run run_steps execute_single_step
  epoch_runs [] w w' ts h = threads_run [] w w' ts (λ e. omega arith) h
  epoch_runs (s ∷ []) w w' ts h = alone s h
  epoch_runs (s ∷ t ∷ steps) w w' ts h = threads_run (s ∷ t ∷ steps) w w' ts (λ e. omega arith) h

  -- If the steps of the epochs succeed one after the other, as `execute_steps` runs them, then one of
  -- the runs of the epochs succeeds with the same timings and leaves the same world.
  pub run_steps-ExecutesEpochs :
      (epochs : List (List (Step X E))) (w w' : World X) (ts : Timings)
      → run (run_steps (concat epochs)) w ≡ (ok ts, w')
      → ExecutesEpochs w' epochs w (ok ts)
  unfolding run run_steps
  run_steps-ExecutesEpochs [] w w' ts h =
      subst (λ r. ExecutesEpochs w' [] w r) (ap (λ r. r.0) h) (no_more (ap (λ r. r.1) h))
  run_steps-ExecutesEpochs (steps ∷ epochs) w w' ts h =
      let (us, vs, v, e, g, k) = split_run steps (concat epochs) w w' ts h in
      subst (λ ts. ExecutesEpochs w' (steps ∷ epochs) w (ok ts)) k
        (next_epoch (epoch_runs steps w v us e) (run_steps-ExecutesEpochs epochs v w' vs g))
