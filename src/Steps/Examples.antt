-- ===== src/Steps/Examples.antt =====
-- Runs of small steps.
use foc_devnet.Base.{
  ℕ, suc, ◌≡◌, ◌≤◌, inl, inr, refl, arith, true, false, some, List, [], ◌∷◌, map, contains, ok, err,
}
use foc_devnet.Words.{debug, add_u16}
use foc_devnet.Text.{Text, codes}
use foc_devnet.Ports.{PortAllocator, outside_range, new, mark_allocated}
use foc_devnet.Ports.Invariant.{IsValid}
use foc_devnet.Program.{run, pure, raise, modify}
use foc_devnet.Context.{World, missing}
use foc_devnet.Steps.{
  Step, step_failed, port_error, run_step, run_steps, ExecutesEpochs, StepExecutionConfig, prepare,
  mark_portainer, check_ports,
}
use foc_devnet.Steps.{thread_panicked, collect}
use foc_devnet.Base.{panic}
use foc_devnet.Steps.Joins.{collect_lem}
use foc_devnet.Steps.Sequence.{run_steps_lem}
use foc_devnet.Steps.Order.{run_steps-ExecutesEpochs}
use foc_devnet.Steps.Secured.{StepStable, ExecutesEpochs-Secures}
use foc_devnet.Steps.Setup.{Prepared, prepare-Prepared, mark_portainer_lem}

abbrev ports : PortAllocator
ports = record { start = 5700; count = 3; allocated = []; next = 5700 }

ports-IsValid : IsValid ports
ports-IsValid = record {
  nonempty = omega arith;
  fits = omega arith;
  lower = omega arith;
  upper = omega arith;
  distinct = tt;
  within = tt;
}

-- The part of the world outside is a counter.
abbrev world : ℕ → World ℕ
world n = record {
  context = record {
    state = [];
    run_id = codes "r";
    run_dir = codes "/r";
    port_allocator = ports;
    allocator_poisoned = false;
  };
  file = missing;
  writes = [];
  clock = 0;
  outside = n;
}

abbrev counts : Step ℕ ℕ
counts = record {
  name = codes "count";
  pre_execute = pure tt;
  execute = modify (λ w. record w { outside = suc w.outside });
  post_execute = pure tt;
}

abbrev fails : Step ℕ ℕ
fails = record {
  name = codes "fail";
  pre_execute = pure tt;
  execute = raise 7;
  post_execute = pure tt;
}

run_steps_lem_example :
    (map {A = Text × ℕ} (λ t. t.0) ((codes "count", 0) ∷ []) ≡ codes "count" ∷ [])
    × (run (run_steps (counts ∷ fails ∷ counts ∷ [])) (world 0) ≡ (err (step_failed 7), world 1))
unfolding run run_steps run_step
run_steps_lem_example =
    run_steps_lem (counts ∷ []) (counts ∷ []) fails (world 0) (world 1) (world 1)
      ((codes "count", 0) ∷ []) 7 refl refl

abbrev epochs : List (List (Step ℕ ℕ))
epochs = (counts ∷ []) ∷ (counts ∷ counts ∷ []) ∷ []

run_steps-ExecutesEpochs_example :
    ExecutesEpochs
      (world 3)
      epochs
      (world 0)
      (ok ((codes "count", 0) ∷ (codes "count", 0) ∷ (codes "count", 0) ∷ []))
unfolding run run_steps run_step
run_steps-ExecutesEpochs_example =
    run_steps-ExecutesEpochs epochs (world 0) (world 3)
      ((codes "count", 0) ∷ (codes "count", 0) ∷ (codes "count", 0) ∷ []) refl

-- The outside world has counted something.
abbrev Counted : World ℕ → Type 0
Counted w = 1 ≤ w.outside

counts-StepStable : StepStable Counted counts
counts-StepStable = (tt, (λ w. ((λ h. omega (arith, h)), tt)), tt)

ExecutesEpochs-Secures_example : Counted (world 3)
unfolding run run_steps run_step
ExecutesEpochs-Secures_example =
    ExecutesEpochs-Secures Counted
      (run_steps-ExecutesEpochs epochs (world 0) (world 3)
        ((codes "count", 0) ∷ (codes "count", 0) ∷ (codes "count", 0) ∷ []) refl)
      ((counts-StepStable, tt), ((counts-StepStable, (counts-StepStable, tt)), tt))
      (inr (inl (inl (inr (inl (λ w. inl (omega arith)))))))

abbrev config : StepExecutionConfig
config = record {
  run_id = codes "r";
  run_dir = codes "/r";
  port_start = 5700;
  port_count = 3;
  portainer_port = some 5700;
  active_pdp_sp_count = 2;
  approved_pdp_sp_count = 2;
  endorsed_pdp_sp_count = 1;
}

prepare-Prepared_example :
    Prepared
      (λ q. true)
      config
      (record { start = 5700; count = 3; allocated = 5700 ∷ []; next = 5700 })
unfolding prepare check_ports mark_portainer new mark_allocated add_u16 contains
prepare-Prepared_example =
    prepare-Prepared {E = ℕ} debug (λ q. true) false config
      (record { start = 5700; count = 3; allocated = 5700 ∷ []; next = 5700 }) refl (omega arith)

mark_portainer_lem_example :
    mark_portainer {E = ℕ} debug (λ q. true) false 5703 (some 9000) ports
    ≡ err (port_error (outside_range 9000 5700 5702))
mark_portainer_lem_example = mark_portainer_lem debug (λ q. true) false 9000 ports ports-IsValid

collect_lem_example :
    (collect {E = ℕ} (codes "a" ∷ []) (ok 3 ∷ []) ≡ ok ((codes "a", 3) ∷ []))
    × (collect {E = ℕ}
          (codes "a" ∷ codes "b" ∷ codes "c" ∷ [])
          (ok 3 ∷ err thread_panicked ∷ panic ∷ [])
        ≡ err thread_panicked)
    × (collect {E = ℕ} (codes "a" ∷ codes "b" ∷ codes "c" ∷ []) (ok 3 ∷ panic ∷ panic ∷ [])
        ≡ err thread_panicked)
collect_lem_example =
    collect_lem ((codes "a", 3) ∷ []) (codes "b") (codes "c" ∷ []) (panic ∷ []) thread_panicked
