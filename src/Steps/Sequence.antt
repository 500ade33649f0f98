-- ===== src/Steps/Sequence.antt =====
-- src/commands/start/step/mod.rs, `execute_steps`: the loop over the steps.
use foc_devnet.Base.{ℕ, ◌≡◌, sym, ap, ◌∙◌, ok, err, List, [], ◌∷◌, ◌++◌, map}
use foc_devnet.Base.Results
use foc_devnet.Base.Results.{ok-injective}
use foc_devnet.Program.{
  Program, run, pure, map_error, ◌>>=◌, then_run, run-bind, run-map_error, then_run-ok,
  then_pure-ok,
}
use foc_devnet.Context.{World}
use foc_devnet.Steps.{Step, StartError, step_failed, Timings, run_step, run_steps}

module _ {X E : Type 0} where
  abbrev pub first_step : Step X E → Program (World X) (StartError E) ℕ
  first_step s = map_error step_failed (run_step s)

  abbrev pub other_steps : Step X E → List (Step X E) → ℕ → Program (World X) (StartError E) Timings
  other_steps s steps d = run_steps steps >>= λ ts. pure ((s.name, d) ∷ ts)

  pub run_steps-cons :
      (s : Step X E) (steps : List (Step X E)) (w : World X)
      → run (run_steps (s ∷ steps)) w ≡ then_run (run (first_step s) w) (other_steps s steps)
  unfolding run_steps
  run_steps-cons s steps w = run-bind (first_step s) (other_steps s steps) w

  -- The parts of a run of several steps that succeeds.
  pub run_steps-ok :
      (s : Step X E) (steps : List (Step X E)) (w w' : World X) (ts : Timings)
      → run (run_steps (s ∷ steps)) w ≡ (ok ts, w')
      → (d : ℕ) × (us : Timings) × (v : World X) × (run (first_step s) w ≡ (ok d, v))
        × (run (run_steps steps) v ≡ (ok us, w'))
        × (ts ≡ (s.name, d) ∷ us)
  run_steps-ok s steps w w' ts h =
      let v = (run (first_step s) w).1 in
      let (d, e, k) =
        then_run-ok (run (first_step s) w) (other_steps s steps)
          (sym (run_steps-cons s steps w) ∙ h) in
      let (us, e', f) =
        then_pure-ok (run (run_steps steps) v) (λ us. (s.name, d) ∷ us)
          (sym (run-bind (run_steps steps) (λ us. pure ((s.name, d) ∷ us)) v) ∙ k) in
      (d, us, v, e, e', f)

  names_lem :
      (steps : List (Step X E)) (w w' : World X) (ts : Timings)
      → run (run_steps steps) w ≡ (ok ts, w')
      → map (λ t. t.0) ts ≡ map (λ s. s.name) steps
  unfolding run run_steps
  names_lem [] w w' ts h = ap (map (λ t. t.0)) (sym (ok-injective (ap (λ r. r.0) h)))
  names_lem (s ∷ steps) w w' ts h =
      let (d, us, v, e, e', f) = run_steps-ok s steps w w' ts h in
      ap (map (λ t. t.0)) f ∙ ap (λ ns. s.name ∷ ns) (names_lem steps v w' us e')

  -- The steps in front succeed, and one fails: the run ends with its error in the world that it left,
  -- whatever steps stand behind it.
  stops_at :
      (before after : List (Step X E)) (s : Step X E) (w v w' : World X) (ts : Timings) (e : E)
      → run (run_steps before) w ≡ (ok ts, v)
      → run (run_step s) v ≡ (err e, w')
      → run (run_steps (before ++ s ∷ after)) w ≡ (err (step_failed e), w')
  unfolding run_steps run
  stops_at [] after s w v w' ts e h k =
      run_steps-cons s after w
      ∙ ap (λ r. then_run r (other_steps s after))
          (run-map_error step_failed (run_step s) w
            ∙ ap (λ u. (Results.map_err step_failed (run (run_step s) u).0, (run (run_step s) u).1))
                (ap (λ r. r.1) h)
            ∙ ap (λ r. (Results.map_err step_failed r.0, r.1)) k)
  stops_at (b ∷ before) after s w v w' ts e h k =
      let (d, us, u, first, rest, f) = run_steps-ok b before w v ts h in
      run_steps-cons b (before ++ s ∷ after) w
      ∙ ap (λ r. then_run r (other_steps b (before ++ s ∷ after))) first
      ∙ run-bind (run_steps (before ++ s ∷ after)) (λ ts'. pure ((b.name, d) ∷ ts')) u
      ∙ ap (λ r. then_run r (λ ts'. pure ((b.name, d) ∷ ts')))
          (stops_at before after s u v w' us e rest k)

  -- If the steps in front succeed and the next one fails, they have a timing each, in their order, and
  -- the run of all ends with the error of the failed step in the world that it left: none of the
  -- steps behind it is run.
  pub run_steps_lem :
      (before after : List (Step X E)) (s : Step X E) (w v w' : World X) (ts : Timings) (e : E)
      → run (run_steps before) w ≡ (ok ts, v)
      → run (run_step s) v ≡ (err e, w')
      → (map (λ t. t.0) ts ≡ map (λ b. b.name) before)
        × (run (run_steps (before ++ s ∷ after)) w ≡ (err (step_failed e), w'))
  run_steps_lem before after s w v w' ts e h k =
      (names_lem before w v ts h, stops_at before after s w v w' ts e h k)
