-- ===== src/Tokens/Examples.antt =====
-- A chain that keeps a list of the commands that were given to it, and a distribution of tokens there.
use foc_devnet.Base.{
  ◌≡◌, ◌⊎◌, ℕ, ◌≤◌, length, if◌then◌else◌, true, false, none, some, List, [], ◌∷◌, ◌++◌, map, All,
  ok,
}
use foc_devnet.Text.{Text, codes, text_eq, to_string}
use foc_devnet.Program.{Program, run}
use foc_devnet.Program.Interleaving.{run_all}
use foc_devnet.Containers.{lotus_container_name}
use foc_devnet.Context.{World, missing}
use foc_devnet.Shell.{Failure}
use foc_devnet.Shell.Simulated.{printing}
use foc_devnet.Host.{KeyInfo}
use foc_devnet.Host.Chain.{sleep}
use foc_devnet.Tokens.{Mint, recipients}
use foc_devnet.Tokens.Operations.{UsdfcTransferParams, transfer_args}
use foc_devnet.Tokens.Batches.{TokenTransfer, Distribution, token_thread, chunks, enumerated}
use foc_devnet.Tokens.Nonces.{concatenated, counted, enumerated-chunks}
use foc_devnet.Tokens.Step.{mockusdfc_key, prepare_distribution}

abbrev Log : Type 0
Log = List (List Text)

abbrev Logged : List Text → Log → Type 0
Logged args [] = ⊥
Logged args (other ∷ log) = (other ≡ args) ⊎ Logged args log

-- A transfer of the amount to the address with the nonce is among the commands.
abbrev WasSent : Text → ℕ → ℕ → Log → Type 0
WasSent to amount nonce log =
    (run_id : Text) × (mount : Text) × (params : UsdfcTransferParams) × (params.to_eth_address ≡ to)
    × (params.amount ≡ to_string amount)
    × (params.nonce ≡ some nonce)
    × Logged (transfer_args run_id mount params) log

abbrev key : Text → KeyInfo
key name = record {
  name = name;
  private_key = codes "1";
  filecoin_address = none;
  eth_address = some (codes "0x" ++ name);
}

abbrev answer : List Text → Text
answer [] = []
answer (arg ∷ args) =
    if text_eq arg (codes "ps") then lotus_container_name (codes "r") else codes "0x"

abbrev mint : Mint Log
mint = record {
  host = record {
    launch = λ program args x. (ok (printing (answer args)), args ∷ x);
    home = codes "h";
    exists = λ path x. true;
    read_to_string = λ path x. (ok [], x);
    create_dir_all = λ path x. (ok tt, x);
    write = λ path s x. (ok tt, x);
    parse_addresses = λ s. ok record {
      contracts = [];
      foc_contracts = [];
      filbeam_controller = none;
      filbeam_beneficiary = none;
    };
    parse_provider_id =
        λ s. ok record { provider_id = 7; provider_address = []; payee_address = [] };
    print_provider_id = λ i. ok [];
    parse_keys = λ s. ok (key (codes "DEPLOYER_MOCKUSDFC") ∷ map (λ a. key a.0) (recipients 0));
    receipt_status = λ s. ok none;
    hex_encode = λ bytes. [];
  };
  tempfile_in = λ path x. (ok tt, x);
  project_root = λ x. (ok (codes "/p"), x);
  hex_decode = λ s. ok [];
}

abbrev world : World Log
world = record {
  context = record {
    state =
        (mockusdfc_key, codes "0xabc")
        ∷ (codes "deployer_mockusdfc_eth_address", codes "0xdef")
        ∷ (codes "lotus_api_port", codes "1234")
        ∷ [];
    run_id = codes "r";
    run_dir = [];
    port_allocator = record { start = 1; count = 1; allocated = []; next = 1 };
    allocator_poisoned = false;
  };
  file = missing;
  writes = [];
  clock = 0;
  outside = [];
}

abbrev prepared : World Log
prepared = (run (prepare_distribution mint 0) world).1

abbrev transfers : List TokenTransfer
transfers =
    map (λ a. record { account_name = a.0; eth_address = codes "0x" ++ a.0; amount_tokens = a.1 })
      (recipients 0)

abbrev distribution : Distribution
distribution = record {
  deployer_private_key = codes "1";
  mockusdfc_address = codes "0xabc";
  lotus_rpc_url = codes "http://localhost:1234/rpc/v1";
}

abbrev threads : List (Program (World Log × List Failure) Failure (Unit {0}))
threads = map (token_thread mint distribution) (counted 1 transfers)

abbrev joined : World Log × List Failure
joined = (run_all threads (prepared, [])).1

abbrev executed : World Log
executed = (run (sleep 5) joined.0).1

enumerated-chunks_example :
    (concatenated (enumerated 0 (chunks (recipients 5))) ≡ counted 1 (recipients 5))
    × All (λ xs. length xs ≤ 6) (chunks (recipients 5))
enumerated-chunks_example = enumerated-chunks (recipients 5)
