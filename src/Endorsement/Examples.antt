-- ===== src/Endorsement/Examples.antt =====
-- One provider that is registered and approved, on a host where every program succeeds.
use foc_devnet.Base.{
  ℕ, ◌≡◌, ◌↔◌, refl, arith, if◌then◌else◌, true, false, none, some, List, [], ◌∷◌, ◌++◌, ok,
}
use foc_devnet.Text.{Text, codes, to_string, show_bool, parse_uint, text_eq}
use foc_devnet.Text.Bytes.{from_byte, as_bytes}
use foc_devnet.Text.Search.{trim, trim_end, contains_text, starts_with}
use foc_devnet.Dict.{lookup, insert}
use foc_devnet.Program.{run}
use foc_devnet.Program.Catch.{catch}
use foc_devnet.Program.Loops.{range, for_each}
use foc_devnet.Context.{World, missing, set, get, save_command, put, record_command, save_to_file}
use foc_devnet.Shell.{container_is_running, docker_command, run_command}
use foc_devnet.Shell.Log.{on_outside, run_and_log_command_strings}
use foc_devnet.Shell.Simulated.{printing}
use foc_devnet.Host.{Host, KeyInfo}
use foc_devnet.Host.Files.{
  load_addresses, load_keys, get_private_key, save_provider_id, find_key, eq_ignore_case,
}
use foc_devnet.Host.Chain.{
  sleep, get_run_id, require, get_lotus_rpc_url, check_lotus_running, load_contract_addresses,
  in_builder,
}
use foc_devnet.Pdp.Capabilities.{build_capability_values_with_url}
use foc_devnet.Pdp.Registration.{query_provider_id, register_single_provider, add_to_approved_list}
use foc_devnet.Pdp.Providers.{
  get_required_addresses, sp_data, collect_sp_data, approve, register, register_one, register_all,
  store_provider_id,
}
use foc_devnet.Pdp.Step.{gather, register_and_store, execute}
use foc_devnet.Endorsement.Step.{check_sp, match_ids}
use foc_devnet.Endorsement.After.{check_sp-execute}
use foc_devnet.Endorsement.Listing.{match_ids_iff}

abbrev name_or_seven : Text → Text
name_or_seven first = if text_eq first (codes "ps") then codes "foc-r-lotus" else codes "7"

abbrev answers : List Text → Text
answers [] = []
answers (first ∷ args) = name_or_seven first

abbrev faucet : KeyInfo
faucet = record {
  name = codes "k";
  private_key = codes "1";
  filecoin_address = some (codes "t4");
  eth_address = none;
}

abbrev host : Host (Unit {0})
host = record {
  launch = λ program args x. (ok (printing (answers args)), x);
  home = codes "h";
  exists = λ path x. true;
  read_to_string = λ path x. (ok [], x);
  create_dir_all = λ path x. (ok tt, x);
  write = λ path s x. (ok tt, x);
  parse_addresses = λ s. ok record {
    contracts = (codes "usdfc", codes "0xc") ∷ [];
    foc_contracts =
        (codes "service_provider_registry_proxy", codes "0xa")
        ∷ (codes "filecoin_warm_storage_service_proxy", codes "0xb")
        ∷ [];
    filbeam_controller = none;
    filbeam_beneficiary = none;
  };
  parse_provider_id = λ s. ok record { provider_id = 7; provider_address = []; payee_address = [] };
  print_provider_id = λ i. ok [];
  parse_keys = λ s. ok (faucet ∷ []);
  receipt_status = λ s. ok none;
  hex_encode = λ bytes. [];
}

abbrev world : World (Unit {0})
world = record {
  context = record {
    state =
        (codes "lotus_api_port", codes "1")
        ∷ (codes "deployer_foc_address", codes "t4")
        ∷ (codes "deployer_foc_eth_address", codes "0x1")
        ∷ (codes "pdp_sp_1_address", codes "t4")
        ∷ (codes "pdp_sp_1_eth_address", codes "0x2")
        ∷ (codes "pdp_sp_1_pdp_port", codes "2")
        ∷ [];
    run_id = codes "r";
    run_dir = [];
    port_allocator = record { start = 1; count = 1; allocated = []; next = 1 };
    allocator_poisoned = false;
  };
  file = missing;
  writes = [];
  clock = 0;
  outside = tt;
}

abbrev registered : World (Unit {0})
registered = (run (execute host 1 1) world).1

check_sp-execute_example : run (for_each (range 1 1) check_sp) registered ≡ (ok tt, registered)
unfolding run execute gather register_and_store register_all register_one register approve catch
    register_single_provider add_to_approved_list query_provider_id store_provider_id
    collect_sp_data sp_data get_required_addresses check_lotus_running get_run_id require
    get_lotus_rpc_url load_contract_addresses in_builder sleep load_addresses load_keys
    get_private_key save_provider_id find_key eq_ignore_case on_outside run_and_log_command_strings
    container_is_running docker_command run_command set get save_command put record_command
    save_to_file lookup insert text_eq parse_uint to_string show_bool trim trim_end contains_text
    starts_with build_capability_values_with_url from_byte as_bytes for_each
check_sp-execute_example =
    check_sp-execute host 1 1 1 world registered (omega arith) (omega arith) refl

match_ids_iff_example :
    ((run (match_ids 1 (7 ∷ []) (7 ∷ 8 ∷ [])) world).0 ≡ ok tt)
    ↔ ((rest : List ℕ) × (7 ∷ 8 ∷ [] ≡ 7 ∷ [] ++ rest))
match_ids_iff_example = match_ids_iff 1 (7 ∷ []) (7 ∷ 8 ∷ []) world
