-- ===== src/Context/Examples.antt =====
-- Runs of the shared context.
use foc_devnet.Base.{◌≡◌, refl, arith, false, List, [], ◌∷◌, map, ok}
use foc_devnet.Words.{debug}
use foc_devnet.Text.{Text, codes}
use foc_devnet.Ports.{PortAllocator, PortError}
use foc_devnet.Ports.Invariant.{IsValid}
use foc_devnet.Ports.Sessions.{Extends-refl}
use foc_devnet.Program.{run}
use foc_devnet.Program.Interleaving.{run_all, run_all-Interleaves}
use foc_devnet.Dict.{lookup}
use foc_devnet.Context.{World, Write, missing, get_command_history}
use foc_devnet.Context.Laws.{save_commands, join_lines, get_command_history-save_commands}
use foc_devnet.Context.Sharing.{
  Holds, Call, allocate_call, allocate_multiple_call, set_call, perform_all, perform_all-Holds,
}

abbrev ports : PortAllocator
ports = record { start = 5700; count = 3; allocated = []; next = 5700 }

ports-IsValid : IsValid ports
ports-IsValid = record {
  nonempty = omega arith;
  fits = omega arith;
  lower = omega arith;
  upper = omega arith;
  distinct = tt;
  within = tt;
}

abbrev world : List Write → World (Unit {0})
world writes = record {
  context = record {
    state = [];
    run_id = codes "r";
    run_dir = codes "/r";
    port_allocator = ports;
    allocator_poisoned = false;
  };
  file = missing;
  writes = writes;
  clock = 0;
  outside = tt;
}

-- The save breaks off.

abbrev commands : List (Text × Text)
commands = (codes "a", codes "docker run") ∷ (codes "b", codes "docker stop") ∷ []

get_command_history-save_commands_example :
    (run
      (get_command_history {E = PortError})
      (run (save_commands {E = PortError} commands) (world [])).1).0
    ≡ ok (join_lines commands)
unfolding lookup
get_command_history-save_commands_example =
    get_command_history-save_commands (Unit {0}) PortError commands (world []) refl
      (λ e. cc, (λ e. cc, tt)) (λ e. cc, (λ e. cc, tt))

-- Two threads
abbrev threads : List (List Call)
threads =
    (allocate_call ∷ set_call (codes "a") (codes "1") ∷ []) ∷ (allocate_multiple_call 2 ∷ []) ∷ []

world-Holds : Holds ports (world [])
world-Holds = record { grown = Extends-refl ports ports-IsValid; healthy = refl }

perform_all-Holds_example : Holds ports (run_all (map (perform_all debug) threads) (world [])).1
perform_all-Holds_example =
    perform_all-Holds debug threads ports (world [])
      (run_all (map (perform_all debug) threads) (world [])).1
      (run_all (map (perform_all debug) threads) (world [])).0 world-Holds
      (run_all-Interleaves (map (perform_all debug) threads) (world []))
