-- ===== src/Pdp/Step.antt =====
-- src/commands/start/pdp_service_provider/pdp_service_provider_step.rs: the step that registers the
-- providers.
use foc_devnet.Base.{ℕ, ltb, ◌==◌, if◌then◌else◌, List, [], ◌∷◌, Outcome}
use foc_devnet.Text.{Text, codes, to_string}
use foc_devnet.Program.{Program, ret, pure, raise, ◌>>=◌, ◌>>◌}
use foc_devnet.Program.Loops.{range, for_each}
use foc_devnet.Context.{World}
use foc_devnet.Shell.{Failure, message}
use foc_devnet.Shell.Log.{on_outside}
use foc_devnet.Host.{Host, ContractAddresses, ProviderIdInfo}
use foc_devnet.Host.Files.{load_provider_id}
use foc_devnet.Host.Chain.{
  get_run_id, get_lotus_rpc_url, check_lotus_running, load_contract_addresses, contract,
}
use foc_devnet.Pdp.Verify.{
  verify_provider_count, verify_provider_id_by_address, verify_approved_provider,
}
use foc_devnet.Steps
use foc_devnet.Pdp.Providers.{
  Addresses, SpData, sp_data, collect_sp_data, get_required_addresses, register_all,
  store_provider_id, registration_errors,
}

-- The contracts that the step reads from the file of the addresses
abbrev pub registry_of : ContractAddresses → Outcome Failure Text
registry_of addresses =
    contract (codes "service_provider_registry_proxy")
      "service_provider_registry_proxy address not found" addresses.foc_contracts

abbrev pub warm_storage_of : ContractAddresses → Outcome Failure Text
warm_storage_of addresses =
    contract (codes "filecoin_warm_storage_service_proxy")
      "filecoin_warm_storage_service_proxy address not found" addresses.foc_contracts

abbrev pub usdfc_of : ContractAddresses → Outcome Failure Text
usdfc_of addresses =
    contract (codes "usdfc") "usdfc address not found in contract addresses" addresses.contracts

abbrev pub state_view_of : ContractAddresses → Outcome Failure Text
state_view_of addresses =
    contract (codes "filecoin_warm_storage_service_state_view")
      "filecoin_warm_storage_service_state_view address not found" addresses.foc_contracts

module _ {X : Type 0} (host : Host X) where
  unfoldable pub pre_execute : ℕ → Program (World X) Failure (Unit {0})
  unfolding sp_data
  pre_execute active_sp_count = do
    check_lotus_running host
    get_required_addresses
    for_each (range 1 active_sp_count) λ i. sp_data 0 i >> pure tt
    contract_addresses ← load_contract_addresses host
    ret (registry_of contract_addresses)
    ret (warm_storage_of contract_addresses)
    pure tt

  -- `execute` up to the registration
  unfoldable pub gather : ℕ → ℕ → Program (World X) Failure (Addresses × List SpData)
  unfolding collect_sp_data
  gather active_sp_count approved_sp_count = do
    check_lotus_running host
    run_id ← get_run_id
    lotus_rpc_url ← get_lotus_rpc_url
    contract_addresses ← load_contract_addresses host
    registry_address ← ret (registry_of contract_addresses)
    warm_storage_address ← ret (warm_storage_of contract_addresses)
    mock_usdfc_address ← ret (usdfc_of contract_addresses)
    (deployer_foc_address, eth_address) ← get_required_addresses
    sps ← collect_sp_data approved_sp_count (range 1 active_sp_count)
    let a : Addresses = record {
      run_id = run_id;
      lotus_rpc_url = lotus_rpc_url;
      registry_address = registry_address;
      warm_storage_address = warm_storage_address;
      mock_usdfc_address = mock_usdfc_address;
      deployer_foc_address = deployer_foc_address;
    }
    pure (a, sps)

  unfoldable pub register_and_store : Addresses → List SpData → Program (World X) Failure (Unit {0})
  unfolding register_all store_provider_id
  register_and_store a sps = do
    done ← register_all host a sps (record { errors = []; provider_ids = [] })
    ret (registration_errors done.errors)
    for_each done.provider_ids (store_provider_id host a.run_id)

  unfoldable pub execute : ℕ → ℕ → Program (World X) Failure (Unit {0})
  unfolding gather register_and_store
  execute active_sp_count approved_sp_count =
      gather active_sp_count approved_sp_count >>= λ (a, sps). register_and_store a sps

  -- The body of the loop of `post_execute`, up to the approval
  unfoldable pub verify_id : Text → Text → Text → ℕ → Program (World X) Failure ProviderIdInfo
  unfolding on_outside
  verify_id run_id registry_address lotus_rpc_url sp_index = do
    info ← on_outside (load_provider_id host run_id sp_index)
    onchain_provider_id ←
        verify_provider_id_by_address host run_id registry_address info.provider_address
          lotus_rpc_url
    if onchain_provider_id == info.provider_id
        then pure info
        else raise (
            message "Provider ID mismatch: saved {} but on-chain is {}"
              (to_string info.provider_id ∷ to_string onchain_provider_id ∷ []))

  unfoldable pub verify_approval :
      Text → Text → Text → ProviderIdInfo → Program (World X) Failure (Unit {0})
  verify_approval run_id state_view_address lotus_rpc_url info = do
    is_approved ←
        verify_approved_provider host run_id state_view_address info.provider_id lotus_rpc_url
    if is_approved
        then pure tt
        else raise (
            message "Provider {} is not in the approved list but should be"
              (to_string info.provider_id ∷ []))

  unfoldable pub verify_sp :
      Text → Text → Text → Text → ℕ → ℕ → Program (World X) Failure (Unit {0})
  verify_sp run_id registry_address state_view_address lotus_rpc_url approved_sp_count sp_index =
      verify_id run_id registry_address lotus_rpc_url sp_index >>= λ info.
      if ltb sp_index approved_sp_count
      then verify_approval run_id state_view_address lotus_rpc_url info
      else pure tt

  unfoldable pub post_execute : ℕ → ℕ → Program (World X) Failure (Unit {0})
  unfolding verify_sp
  post_execute active_sp_count approved_sp_count = do
    check_lotus_running host
    run_id ← get_run_id
    lotus_rpc_url ← get_lotus_rpc_url
    contract_addresses ← load_contract_addresses host
    registry_address ← ret (registry_of contract_addresses)
    state_view_address ← ret (state_view_of contract_addresses)
    for_each (range 1 active_sp_count)
        (verify_sp run_id registry_address state_view_address lotus_rpc_url approved_sp_count)
    provider_count ← verify_provider_count host run_id registry_address lotus_rpc_url
    if provider_count == active_sp_count
        then pure tt
        else raise (
            message "Expected exactly {} providers on-chain, found {}"
              (to_string active_sp_count ∷ to_string provider_count ∷ []))

  -- `PdpSpRegistrationStep`
  pub step : ℕ → ℕ → Steps.Step X Failure
  unfolding pre_execute execute post_execute
  step active_sp_count approved_sp_count = record {
    name = codes "PDP Service Provider Registration";
    pre_execute = pre_execute active_sp_count;
    execute = execute active_sp_count approved_sp_count;
    post_execute = post_execute active_sp_count approved_sp_count;
  }
