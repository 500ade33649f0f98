-- ===== src/Pdp/Registration.antt =====
-- src/commands/start/pdp_service_provider/registration.rs: the transactions that register a provider
-- and approve it.
use foc_devnet.Base.{ℕ, ◌==◌, if◌then◌else◌, none, some, List, [], ◌∷◌, ◌++◌}
use foc_devnet.Text.{Text, codes, to_string, parse_uint, max_u64}
use foc_devnet.Text.Keys.{indexed}
use foc_devnet.Text.Search.{trim}
use foc_devnet.Program.{Program, ret, pure, raise, ◌>>=◌, ◌>>◌}
use foc_devnet.Context.{World}
use foc_devnet.Shell.{Failure, message}
use foc_devnet.Shell.Log.{on_outside}
use foc_devnet.Host.{Host}
use foc_devnet.Host.Files.{get_private_key}
use foc_devnet.Host.Chain.{sleep, in_builder, concat, transaction_failed}
use foc_devnet.Pdp.{provider_description, registration_fee_fil, transaction_confirmation_wait_secs}
use foc_devnet.Pdp.Capabilities.{build_capability_keys, build_capability_values_with_url}

pub record ProviderRegistrationParams : Type 0 where
  pub run_id : Text
  pub registry_address : Text
  pub pdp_sp_address : Text
  pub pdp_sp_eth_address : Text
  pub mock_usdfc_address : Text
  pub lotus_rpc_url : Text
  pub service_url : Text
  pub sp_index : ℕ

pub record ApprovedListParams : Type 0 where
  pub run_id : Text
  pub warm_storage_address : Text
  pub provider_id : ℕ
  pub deployer_foc_address : Text
  pub lotus_rpc_url : Text

-- `trim().parse().unwrap_or(0)`
abbrev pub id_or_zero : Text → ℕ
id_or_zero stdout = elim (parse_uint max_u64 (trim stdout)) [ none ↦ 0 | some n ↦ n ]

abbrev pub query_args : Text → Text → Text → List Text
query_args registry_address address lotus_rpc_url =
    codes "cast"
    ∷ codes "call"
    ∷ registry_address
    ∷ codes "getProviderIdByAddress(address)(uint256)"
    ∷ address
    ∷ codes "--rpc-url"
    ∷ lotus_rpc_url
    ∷ []

-- The next line of the command, behind a backslash
abbrev next_line : Text
next_line = codes " \\\n        "

abbrev register_command : ProviderRegistrationParams → Text → Text → Text
register_command params cap_values private_key = concat (
    codes "cast send "
    ∷ params.registry_address
    ∷ next_line
    ∷ codes "\"registerProvider(address,string,string,uint8,string[],bytes[])\""
    ∷ next_line
    ∷ params.pdp_sp_eth_address
    ∷ next_line
    ∷ codes "\"PDP_SP_"
    ∷ to_string params.sp_index
    ∷ codes "\""
    ∷ next_line
    ∷ codes "\""
    ∷ provider_description
    ∷ codes "\""
    ∷ next_line
    ∷ codes "0"
    ∷ next_line
    ∷ build_capability_keys
    ∷ next_line
    ∷ cap_values
    ∷ next_line
    ∷ codes "--value "
    ∷ to_string registration_fee_fil
    ∷ codes "000000000000000000"
    ∷ next_line
    ∷ codes "--rpc-url "
    ∷ params.lotus_rpc_url
    ∷ next_line
    ∷ codes "--private-key "
    ∷ private_key
    ∷ next_line
    ∷ codes "--gas-limit 10000000000"
    ∷ [])

module _ {X : Type 0} where
  abbrev pub wait_for_confirmation : Program (World X) Failure (Unit {0})
  wait_for_confirmation = sleep transaction_confirmation_wait_secs

module _ {X : Type 0} (host : Host X) where
  unfoldable pub query_provider_id : Text → Text → Text → Text → Program (World X) Failure ℕ
  query_provider_id run_id registry_address pdp_sp_eth_address lotus_rpc_url = do
    result ←
        in_builder host
          (concat (codes "foc-" ∷ run_id ∷ codes "-pdp-query-provider-" ∷ pdp_sp_eth_address ∷ []))
          (query_args registry_address pdp_sp_eth_address lotus_rpc_url)
          (codes "pdp_query_provider_id_" ++ pdp_sp_eth_address)
          (λ stderr. message "Failed to query provider ID: {}" (stderr ∷ []))
    if id_or_zero result == 0
        then raise (message "Provider ID is 0, registration may have failed" [])
        else pure (id_or_zero result)

  unfoldable pub register_single_provider : ProviderRegistrationParams → Program (World X) Failure ℕ
  unfolding on_outside build_capability_values_with_url
  register_single_provider params = do
    private_key ← on_outside (get_private_key host params.pdp_sp_address)
    cap_values ← ret (
        build_capability_values_with_url host.hex_encode params.mock_usdfc_address
          params.service_url)
    stdout ←
        in_builder host
          (concat (
            codes "foc-"
            ∷ params.run_id
            ∷ codes "-pdp-register-sp"
            ∷ to_string params.sp_index
            ∷ []))
          (codes "bash" ∷ codes "-c" ∷ register_command params cap_values private_key ∷ [])
          (indexed "pdp_register_provider_sp" params.sp_index "")
          (λ stderr. message "Failed to register provider: {}" (stderr ∷ []))
    if transaction_failed stdout
        then raise (
            message
              "Provider registration transaction failed (status 0). Check transaction logs for details."
              [])
        else pure tt
    wait_for_confirmation
    query_provider_id params.run_id params.registry_address params.pdp_sp_eth_address
        params.lotus_rpc_url

  unfoldable pub add_to_approved_list : ApprovedListParams → Program (World X) Failure (Unit {0})
  unfolding on_outside
  add_to_approved_list params = do
    private_key ← on_outside (get_private_key host params.deployer_foc_address)
    stdout ←
        in_builder host
          (concat (
            codes "foc-"
            ∷ params.run_id
            ∷ codes "-pdp-approve-"
            ∷ to_string params.provider_id
            ∷ []))
          (codes "cast"
            ∷ codes "send"
            ∷ params.warm_storage_address
            ∷ codes "addApprovedProvider(uint256)"
            ∷ to_string params.provider_id
            ∷ codes "--rpc-url"
            ∷ params.lotus_rpc_url
            ∷ codes "--private-key"
            ∷ private_key
            ∷ codes "--gas-limit"
            ∷ codes "10000000000"
            ∷ [])
          (indexed "pdp_add_approved_provider_" params.provider_id "")
          (λ stderr. message "Failed to add approved provider: {}" (stderr ∷ []))
    if transaction_failed stdout
        then raise (
            message
              "Add approved provider transaction failed (status 0). Check transaction logs for details."
              [])
        else pure tt
    wait_for_confirmation
