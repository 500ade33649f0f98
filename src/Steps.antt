-- ===== src/Steps.antt =====
-- src/commands/start/step/mod.rs: the steps of a start, run one after the other or in epochs of
-- parallel threads. Durations come from the world's clock, and `format_secs` prints them.
mod Examples
pub mod Sequence
pub mod Epochs
pub mod Order
pub mod Joins
pub mod Secured
pub mod Setup
use foc_devnet.Base.{
  ℕ, zero, suc, ◌+◌, ◌-◌, ◌≡◌, refl, arith, ltb, leb, ◌==◌, ◌&&◌, not, if◌then◌else◌, Bool, true,
  false, Option, none, some, List, [], ◌∷◌, ◌++◌, map, length, Outcome, ok, err, panic, map_err,
  ◌≢◌,
}
use foc_devnet.Base.Results
use foc_devnet.Words.{Profile, add_u16}
use foc_devnet.Text.{Text, codes, to_string}
use foc_devnet.Ports.{PortAllocator, PortError, new, mark_allocated}
use foc_devnet.Program.{Program, ret, act, run, pure, raise, gets, modify, map_error, ◌>>=◌, ◌>>◌}
use foc_devnet.Program.Interleaving.{Interleaves}
use foc_devnet.Context.{SetupContext, World, set, set_multi, save_to_file}

-- What ends a start: the port range, or a step of it with its own error.
pub data StartError (E : Type 0) : Type 0 where
  port_error : PortError → StartError E
  port_in_use : ℕ → StartError E
  step_failed : E → StartError E
  pre_execution_failed : Text → E → StartError E
  execution_failed : Text → E → StartError E
  post_execution_failed : Text → E → StartError E
  thread_panicked : StartError E

-- The trait `Step`
pub record Step (X E : Type 0) : Type 0 where
  pub name : Text
  pub pre_execute : Program (World X) E (Unit {0})
  pub execute : Program (World X) E (Unit {0})
  pub post_execute : Program (World X) E (Unit {0})

abbrev pub Timings : Type 0
Timings = List (Text × ℕ)

module _ {X E : Type 0} where
  -- `Step::run`
  unfoldable pub run_step : Step X E → Program (World X) E ℕ
  run_step s = do
    start_time ← gets (λ w. w.clock)
    s.pre_execute
    s.execute
    s.post_execute
    end_time ← gets (λ w. w.clock)
    pure (end_time - start_time)

  -- The loop of `execute_steps`
  unfoldable pub run_steps : List (Step X E) → Program (World X) (StartError E) Timings
  unfolding run_step
  run_steps [] = pure []
  run_steps (s ∷ steps) = do
    duration ← map_error step_failed (run_step s)
    timings ← run_steps steps
    pure ((s.name, duration) ∷ timings)

  unfoldable pub execute_step_with_timing : Step X E → Program (World X) (StartError E) ℕ
  execute_step_with_timing s = do
    start_time ← gets (λ w. w.clock)
    map_error (pre_execution_failed s.name) s.pre_execute
    map_error (execution_failed s.name) s.execute
    map_error (post_execution_failed s.name) s.post_execute
    end_time ← gets (λ w. w.clock)
    pure (end_time - start_time)

  unfoldable pub execute_single_step : Step X E → Program (World X) (StartError E) Timings
  unfolding run_step
  execute_single_step s = do
    duration ← map_error step_failed (run_step s)
    pure ((s.name, duration) ∷ [])

module _ {E A : Type 0} where
  -- What `join` hands over for one thread.
  abbrev pub joined : Outcome (StartError E) A → Outcome (StartError E) A
  joined (ok a) = ok a
  joined (err e) = err e
  joined panic = err thread_panicked

module _ {E : Type 0} where
  abbrev pub collect_one :
      Text
      → Outcome (StartError E) ℕ
      → Outcome (StartError E) Timings
      → Outcome (StartError E) Timings
  collect_one n (ok d) rest = Results.◌>>=◌ rest (λ ts. ok ((n, d) ∷ ts))
  collect_one n (err e) rest = err e
  collect_one n panic rest = panic

  -- The results of the joined threads, in the order of the steps: the first error is returned.
  unfoldable pub collect :
      List Text → List (Outcome (StartError E) ℕ) → Outcome (StartError E) Timings
  collect (n ∷ names) (r ∷ rs) = collect_one n (joined r) (collect names rs)
  collect names rs = ok []

module _ {X E : Type 0} where
  -- `execute_epoch`, from the world `w` to the world `w'` with the result `r`: one step runs alone,
  -- any other number in parallel threads.
  pub data ExecutesEpoch (w' : World X)
      : List (Step X E) → World X → Outcome (StartError E) Timings → Type 0 where
    alone :
        {w : World X} {r : Outcome (StartError E) Timings} (s : Step X E)
        → run (execute_single_step s) w ≡ (r, w')
        → ExecutesEpoch w' (s ∷ []) w r
    in_parallel :
        {w : World X} {r : Outcome (StartError E) Timings} (steps : List (Step X E))
        (rs : List (Outcome (StartError E) ℕ))
        → length steps ≢ 1
        → Interleaves rs w' (map execute_step_with_timing steps) w
        → r ≡ collect (map (λ s. s.name) steps) rs
        → ExecutesEpoch w' steps w r

  -- The loop over the epochs: the first that does not succeed ends it.
  pub data ExecutesEpochs (w' : World X)
      : List (List (Step X E)) → World X → Outcome (StartError E) Timings → Type 0 where
    no_more : {w : World X} → w ≡ w' → ExecutesEpochs w' [] w (ok [])
    next_epoch :
        {w w₁ : World X} {steps : List (Step X E)} {epochs : List (List (Step X E))} {ts : Timings}
        {r : Outcome (StartError E) Timings}
        → ExecutesEpoch w₁ steps w (ok ts)
        → ExecutesEpochs w' epochs w₁ r
        → ExecutesEpochs w' (steps ∷ epochs) w (Results.◌>>=◌ r (λ us. ok (ts ++ us)))
    epoch_fails :
        {w : World X} {steps : List (Step X E)} {epochs : List (List (Step X E))} (e : StartError E)
        → ExecutesEpoch w' steps w (err e)
        → ExecutesEpochs w' (steps ∷ epochs) w (err e)
    epoch_panics :
        {w : World X} {steps : List (Step X E)} {epochs : List (List (Step X E))}
        → ExecutesEpoch w' steps w panic
        → ExecutesEpochs w' (steps ∷ epochs) w panic

-- `StepExecutionConfig`
pub record StepExecutionConfig : Type 0 where
  pub run_id : Text
  pub run_dir : Text
  pub port_start : ℕ
  pub port_count : ℕ
  pub portainer_port : Option ℕ
  pub active_pdp_sp_count : ℕ
  pub approved_pdp_sp_count : ℕ
  pub endorsed_pdp_sp_count : ℕ

abbrev pub is_portainer : Option ℕ → ℕ → Bool
is_portainer none port = false
is_portainer (some q) port = port == q

module _ {E : Type 0} (p : Profile) (is_port_available : ℕ → Bool) where
  -- The loop over the ports of the range, `n` of them from `port` on.
  unfoldable pub check_ports : Option ℕ → ℕ → ℕ → Outcome (StartError E) (Unit {0})
  check_ports skipped port zero = ok tt
  check_ports skipped port (suc n) =
      let rest = check_ports skipped (port + 1) n in
      if is_portainer skipped port
      then rest
      else if is_port_available port
      then rest
      else err (port_in_use port)

  -- `mark_allocated` of the port of Portainer: `execute_steps` asks first whether it is of the range
  -- (`guarded`), `execute_steps_parallel` does not.
  unfoldable pub mark_portainer :
      Bool → ℕ → Option ℕ → PortAllocator → Outcome (StartError E) PortAllocator
  mark_portainer guarded end none a = ok a
  mark_portainer guarded end (some port) a =
      let (r, b) = mark_allocated p port a in
      if guarded && not (leb a.start port && ltb port end)
      then ok a
      else map_err port_error (Results.◌>>=◌ r (λ _. ok b))

  -- The port allocator of a start, once all ports of the range have been found available.
  unfoldable pub prepare : Bool → StepExecutionConfig → Outcome (StartError E) PortAllocator
  unfolding check_ports mark_portainer
  prepare guarded c = Results.◌>>=◌ (map_err port_error (new c.port_start c.port_count)) λ a.
      Results.◌>>=◌ (add_u16 p c.port_start c.port_count) λ end.
        Results.◌>>=◌ (check_ports c.portainer_port c.port_start (end - c.port_start))
          λ _. mark_portainer guarded end c.portainer_port a

module _ {X : Type 0} where
  -- `SetupContext::with_run_id_and_ports`, put into the world
  abbrev pub install : StepExecutionConfig → PortAllocator → World X → World X
  install c a w = record w {
    context = record {
      state = [];
      run_id = c.run_id;
      run_dir = c.run_dir;
      port_allocator = a;
      allocator_poisoned = false;
    };
  }

module _ {X E : Type 0} where
  unfoldable pub set_counts : StepExecutionConfig → Program (World X) E (Unit {0})
  set_counts c = do
    set (codes "active_pdp_sp_count") (to_string c.active_pdp_sp_count)
    set (codes "approved_pdp_sp_count") (to_string c.approved_pdp_sp_count)
    set (codes "endorsed_pdp_sp_count") (to_string c.endorsed_pdp_sp_count)

-- `to_lowercase` on ASCII, and `replace(' ', "_")`
abbrev key_char : ℕ → ℕ
key_char c = if c == b' ' then b'_' else if leb b'A' c && leb c b'Z' then c + 32 else c

module _ (format_secs : ℕ → Text) where
  timing_item : Text × ℕ → Text × Text
  timing_item (name, duration) = (codes "step_timing_" ++ map key_char name, format_secs duration)

module _ (format_secs : ℕ → Text) {X E : Type 0} where
  -- The timings of the steps and of the whole, put into the context.
  unfoldable pub set_timings : ℕ → Timings → Program (World X) E (Unit {0})
  unfolding timing_item
  set_timings overall_start timings = do
    now ← gets (λ w. w.clock)
    set_multi (
        map (timing_item format_secs)
          (timings ++ (codes "Total Execution Time", now - overall_start) ∷ []))

module _ {X E : Type 0} (p : Profile) (is_port_available : ℕ → Bool) where
  -- The part of both executors before the first step; it returns the time at that point.
  unfoldable pub set_up : Bool → StepExecutionConfig → Program (World X) (StartError E) ℕ
  set_up guarded c = do
    a ← ret (prepare p is_port_available guarded c)
    modify (install c a)
    set_counts c
    gets (λ w. w.clock)

module _ (format_secs : ℕ → Text) {X E : Type 0} (p : Profile) (is_port_available : ℕ → Bool) where
  -- The context of the world behind it is the result.
  unfoldable pub execute_steps :
      List (Step X E) → StepExecutionConfig → Program (World X) (StartError E) (Unit {0})
  execute_steps steps c = do
    overall_start ← set_up p is_port_available true c
    timings ← run_steps steps
    set_timings format_secs overall_start timings

  -- The end of `execute_steps_parallel`, which saves the context once more.
  unfoldable pub finish_parallel : ℕ → Timings → Program (World X) (StartError E) (Unit {0})
  finish_parallel overall_start timings = do
    set_timings format_secs overall_start timings
    save_to_file
    pure tt

  -- `execute_steps_parallel`, from the world `w` to the world `w'`.
  pub data ExecutesParallel (epochs : List (List (Step X E))) (c : StepExecutionConfig)
      (w w' : World X) : Outcome (StartError E) (Unit {0}) → Type 0 where
    not_set_up :
        (e : StartError E)
        → run (set_up p is_port_available false c) w ≡ (err e, w')
        → ExecutesParallel epochs c w w' (err e)
    set_up_panics :
        run (set_up {E = E} p is_port_available false c) w ≡ (panic, w')
        → ExecutesParallel epochs c w w' panic
    epochs_fail :
        (t : ℕ) (w₁ : World X) (e : StartError E)
        → run (set_up {E = E} p is_port_available false c) w ≡ (ok t, w₁)
        → ExecutesEpochs w' epochs w₁ (err e)
        → ExecutesParallel epochs c w w' (err e)
    epochs_panic :
        (t : ℕ) (w₁ : World X)
        → run (set_up {E = E} p is_port_available false c) w ≡ (ok t, w₁)
        → ExecutesEpochs w' epochs w₁ panic
        → ExecutesParallel epochs c w w' panic
    all_executed :
        (t : ℕ) (w₁ w₂ : World X) (ts : Timings)
        → run (set_up {E = E} p is_port_available false c) w ≡ (ok t, w₁)
        → ExecutesEpochs w₂ epochs w₁ (ok ts)
        → run (finish_parallel t ts) w₂ ≡ (ok tt, w')
        → ExecutesParallel epochs c w w' (ok tt)
