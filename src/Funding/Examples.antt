-- ===== src/Funding/Examples.antt =====
-- A chain that keeps a list of the commands that were given to it, and a funding of the accounts there.
use foc_devnet.Base.{ℕ, ◌&&◌, ◌||◌, Bool, true, false, none, some, List, [], ◌∷◌, ◌++◌, map, ok}
use foc_devnet.Text.{Text, codes, text_eq, to_string}
use foc_devnet.Program.{Program, run}
use foc_devnet.Shell.{Failure}
use foc_devnet.Program.Interleaving.{run_all}
use foc_devnet.Containers.{lotus_container_name}
use foc_devnet.Context.{World, missing}
use foc_devnet.Shell.Simulated.{printing}
use foc_devnet.Host.{KeyInfo}
use foc_devnet.Funding.{Node, active_accounts, fevm_accounts_prefunded}
use foc_devnet.Funding.Transfers.{Transfer, transfer_thread, confirm}
use foc_devnet.Funding.Step.{prepare_funding}
use foc_devnet.Funding.Sent.{Chain}

-- The command sends the amount to the address.
abbrev sends_to : Text → ℕ → List Text → Bool
sends_to to amount (exec ∷ container ∷ lotus ∷ send ∷ flag ∷ from ∷ address ∷ fil ∷ []) =
    text_eq address to && text_eq fil (to_string amount)
sends_to to amount args = false

abbrev has_sent : Text → ℕ → List (List Text) → Bool
has_sent to amount [] = false
has_sent to amount (args ∷ log) = sends_to to amount args || has_sent to amount log

abbrev key : Text → KeyInfo
key name = record {
  name = name;
  private_key = codes "1";
  filecoin_address = some (codes "t4" ++ name);
  eth_address = some (codes "0x" ++ name);
}

abbrev node : Node (List (List Text)) ℕ
node = record {
  host = record {
    launch = λ program args x. (ok (printing (codes "imported key t3")), args ∷ x);
    home = codes "h";
    exists = λ path x. true;
    read_to_string = λ path x. (ok [], x);
    create_dir_all = λ path x. (ok tt, x);
    write = λ path s x. (ok tt, x);
    parse_addresses = λ s. ok record {
      contracts = [];
      foc_contracts = [];
      filbeam_controller = none;
      filbeam_beneficiary = none;
    };
    parse_provider_id =
        λ s. ok record { provider_id = 7; provider_address = []; payee_address = [] };
    print_provider_id = λ i. ok [];
    parse_keys = λ s. ok (map (λ a. key a.0) fevm_accounts_prefunded);
    receipt_status = λ s. ok none;
    hex_encode = λ bytes. [];
  };
  read_dir = λ path x. (ok (none ∷ some (codes "bls-t3.keyinfo") ∷ []), x);
  remove_file = λ path x. (ok tt, x);
  hex_encode_text = λ s. s;
  parse_f64 = λ s. ok 0;
  print_f64 = to_string;
  at_least = λ a b. true;
}

abbrev world : World (List (List Text))
world = record {
  context = record {
    state = [];
    run_id = codes "r";
    run_dir = [];
    port_allocator = record { start = 1; count = 1; allocated = []; next = 1 };
    allocator_poisoned = false;
  };
  file = missing;
  writes = [];
  clock = 0;
  outside = [];
}

abbrev prepared : World (List (List Text))
prepared = (run (prepare_funding node 0) world).1

abbrev transfers : List Transfer
transfers =
    map (λ a. record { account_name = a.0; to_addr = codes "t4" ++ a.0; amount = a.1 })
      (active_accounts 0 fevm_accounts_prefunded)

abbrev threads : List (Program (World (List (List Text)) × List Failure) Failure (Unit {0}))
threads = map (transfer_thread node (lotus_container_name (codes "r")) (codes "t3")) transfers

abbrev joined : World (List (List Text)) × List Failure
joined = (run_all threads (prepared, [])).1

abbrev executed : World (List (List Text))
executed = (run confirm joined.0).1
