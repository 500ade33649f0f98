-- ===== src/Endorsement/Step.antt =====
-- src/commands/start/endorsement/endorsement_step.rs: the step that endorses the first providers.
use foc_devnet.Base.{
  ℕ, ◌+◌, ltb, ◌==◌, if◌then◌else◌, Bool, false, Option, none, some, List, [], ◌∷◌, Outcome, length,
}
use foc_devnet.Text.{Text, codes, to_string, parse_bool, max_u64}
use foc_devnet.Program.{Program, ret, pure, raise, ◌>>=◌, ◌>>◌}
use foc_devnet.Program.Loops.{range, for_each}
use foc_devnet.Context.{World, get, set}
use foc_devnet.Shell.{Failure, message}
use foc_devnet.Shell.Log.{on_outside}
use foc_devnet.Host.{Host, ContractAddresses}
use foc_devnet.Host.Files.{get_private_key}
use foc_devnet.Host.Chain.{
  get_run_id, require, number, get_lotus_rpc_url, check_lotus_running, load_contract_addresses,
  contract,
}
use foc_devnet.Pdp.Providers.{sp_key, not_in_context}
use foc_devnet.Endorsement.Operations.{endorse_provider, get_all_provider_ids}
use foc_devnet.Steps

abbrev endorsements_of : ContractAddresses → Outcome Failure Text
endorsements_of addresses =
    contract (codes "endorsements") "Endorsements contract address not found"
      addresses.foc_contracts

-- `and_then(|v| v.parse::<bool>().ok()).unwrap_or(false)`
abbrev pub true_or_not : Option Text → Bool
true_or_not none = false
true_or_not (some v) = elim (parse_bool v) [ none ↦ false | some b ↦ b ]

module _ {X : Type 0} where
  unfoldable pub get_deployer_address : Program (World X) Failure Text
  get_deployer_address =
      require (codes "deployer_foc_eth_address")
        (message "deployer_foc_eth_address not found in context" [])

  unfoldable pub provider_id_of : ℕ → Program (World X) Failure ℕ
  provider_id_of sp_index = do
    let provider_id_key = sp_key sp_index "_provider_id"
    provider_id ← require provider_id_key (not_in_context provider_id_key)
    ret (number max_u64 provider_id)

  -- The body of the loop of `pre_execute`
  unfoldable pub check_sp : ℕ → Program (World X) Failure (Unit {0})
  unfolding provider_id_of
  check_sp sp_index = do
    let pdp_key = sp_key sp_index "_address"
    require pdp_key (not_in_context pdp_key)
    provider_id_of sp_index
    value ← get (sp_key sp_index "_is_approved")
    if true_or_not value
        then pure tt
        else raise (
            message "PDP SP {} must be approved before it can be endorsed"
              (to_string sp_index ∷ []))

  -- `expected_ids` of `post_execute`
  unfoldable pub expected_ids : List ℕ → Program (World X) Failure (List ℕ)
  unfolding provider_id_of
  expected_ids [] = pure []
  expected_ids (i ∷ is) = do id ← provider_id_of i; ids ← expected_ids is; pure (id ∷ ids)

  -- The loop over `expected_ids`, from the number `i` on, beside what the contract returned from there.
  unfoldable pub match_ids : ℕ → List ℕ → List ℕ → Program (World X) Failure (Unit {0})
  match_ids i [] actual = pure tt
  match_ids i (expected_id ∷ ids) [] = raise (
      message "Provider {} (ID {}) not found in endorsed list"
        (to_string i ∷ to_string expected_id ∷ []))
  match_ids i (expected_id ∷ ids) (actual_id ∷ actual) =
      if actual_id == expected_id
      then set (sp_key i "_is_endorsed") (codes "true") >> match_ids (i + 1) ids actual
      else raise (
          message "Provider {} mismatch: expected ID {}, got {}"
            (to_string i ∷ to_string expected_id ∷ to_string actual_id ∷ []))

module _ {X : Type 0} (host : Host X) where
  unfoldable pub pre_execute : ℕ → Program (World X) Failure (Unit {0})
  unfolding check_sp
  pre_execute endorsed_sp_count = do
    check_lotus_running host
    get_deployer_address
    contract_addresses ← load_contract_addresses host
    ret (endorsements_of contract_addresses)
    for_each (range 1 endorsed_sp_count) check_sp

  -- The body of the loop of `execute`
  unfoldable pub endorse_sp : Text → Text → Text → Text → ℕ → Program (World X) Failure (Unit {0})
  endorse_sp run_id endorsements_address private_key lotus_rpc_url sp_index = do
    provider_id ← provider_id_of sp_index
    tx_hash ← endorse_provider host record {
      run_id = run_id;
      provider_id = provider_id;
      endorsements_contract_address = endorsements_address;
      deployer_private_key = private_key;
      lotus_rpc_url = lotus_rpc_url;
    }
    set (sp_key sp_index "_endorsement_tx") tx_hash

  unfoldable pub endorse_sps : ℕ → Program (World X) Failure (Unit {0})
  unfolding endorse_sp on_outside
  endorse_sps endorsed_sp_count = do
    check_lotus_running host
    run_id ← get_run_id
    lotus_rpc_url ← get_lotus_rpc_url
    contract_addresses ← load_contract_addresses host
    endorsements_address ← ret (endorsements_of contract_addresses)
    deployer_address ← get_deployer_address
    private_key ← on_outside (get_private_key host deployer_address)
    for_each (range 1 endorsed_sp_count)
        (endorse_sp run_id endorsements_address private_key lotus_rpc_url)

  unfoldable pub execute : ℕ → Program (World X) Failure (Unit {0})
  unfolding endorse_sps
  execute endorsed_sp_count =
      if endorsed_sp_count == 0 then pure tt else endorse_sps endorsed_sp_count

  unfoldable pub verify_endorsements : ℕ → Program (World X) Failure (Unit {0})
  unfolding expected_ids match_ids
  verify_endorsements endorsed_sp_count = do
    lotus_rpc_url ← get_lotus_rpc_url
    contract_addresses ← load_contract_addresses host
    endorsements_address ← ret (endorsements_of contract_addresses)
    endorsed_ids ← get_all_provider_ids host record {
      endorsements_contract_address = endorsements_address;
      lotus_rpc_url = lotus_rpc_url;
    }
    ids ← expected_ids (range 1 endorsed_sp_count)
    if ltb (length endorsed_ids) (length ids)
        then raise (
            message "Expected {} endorsed providers, but contract returned {}"
              (to_string (length ids) ∷ to_string (length endorsed_ids) ∷ []))
        else match_ids 1 ids endorsed_ids

  unfoldable pub post_execute : ℕ → Program (World X) Failure (Unit {0})
  unfolding verify_endorsements
  post_execute endorsed_sp_count =
      if endorsed_sp_count == 0 then pure tt else verify_endorsements endorsed_sp_count

  -- `EndorsementStep`
  pub step : ℕ → Steps.Step X Failure
  unfolding pre_execute execute post_execute
  step endorsed_sp_count = record {
    name = codes "PDP Provider Endorsement";
    pre_execute = pre_execute endorsed_sp_count;
    execute = execute endorsed_sp_count;
    post_execute = post_execute endorsed_sp_count;
  }
