-- ===== src/Pdp/Verify.antt =====
-- src/commands/start/pdp_service_provider/registration.rs: the questions to the chain that are asked
-- again until they are answered.
use foc_devnet.Base.{ℕ, Bool, [], ◌∷◌, ◌++◌}
use foc_devnet.Text.{Text, codes, to_string, text_eq}
use foc_devnet.Text.Search.{trim}
use foc_devnet.Text.Keys.{indexed}
use foc_devnet.Program.{Program, pure, ◌>>=◌}
use foc_devnet.Program.Catch.{retry_program}
use foc_devnet.Retry.{default_max_retries, default_retry_delay_secs}
use foc_devnet.Context.{World}
use foc_devnet.Shell.{Failure, message}
use foc_devnet.Host.{Host}
use foc_devnet.Host.Chain.{sleep, in_builder, concat}
use foc_devnet.Pdp.Registration.{id_or_zero, query_args}

module _ {X A : Type 0} where
  -- `retry_with_fixed_delay` with the defaults
  unfoldable pub retried : Program (World X) Failure A → Program (World X) Failure A
  unfolding retry_program
  retried operation =
      retry_program sleep (message "Operation failed with no error" []) operation
        default_max_retries default_retry_delay_secs

module _ {X : Type 0} (host : Host X) where
  unfoldable pub verify_provider_count : Text → Text → Text → Program (World X) Failure ℕ
  unfolding retried
  verify_provider_count run_id registry_address lotus_rpc_url = retried do
    result ←
        in_builder host (concat (codes "foc-" ∷ run_id ∷ codes "-pdp-verify-count" ∷ []))
          (codes "cast"
            ∷ codes "call"
            ∷ registry_address
            ∷ codes "getProviderCount()(uint256)"
            ∷ codes "--rpc-url"
            ∷ lotus_rpc_url
            ∷ [])
          (codes "pdp_verify_provider_count")
          (λ stderr. message "Failed to query provider count: {}" (stderr ∷ []))
    pure (id_or_zero result)

  unfoldable pub verify_provider_id_by_address :
      Text → Text → Text → Text → Program (World X) Failure ℕ
  unfolding retried
  verify_provider_id_by_address run_id registry_address provider_address lotus_rpc_url = retried do
    result ←
        in_builder host
          (concat (codes "foc-" ∷ run_id ∷ codes "-pdp-verify-id-" ∷ provider_address ∷ []))
          (query_args registry_address provider_address lotus_rpc_url)
          (codes "pdp_verify_provider_id_" ++ provider_address)
          (λ stderr. message "Failed to query provider ID by address: {}" (stderr ∷ []))
    pure (id_or_zero result)

  unfoldable pub verify_approved_provider : Text → Text → ℕ → Text → Program (World X) Failure Bool
  unfolding retried
  verify_approved_provider run_id state_view_address provider_id lotus_rpc_url = retried do
    result ←
        in_builder host
          (concat
            (codes "foc-" ∷ run_id ∷ codes "-pdp-verify-approved-" ∷ to_string provider_id ∷ []))
          (codes "cast"
            ∷ codes "call"
            ∷ state_view_address
            ∷ codes "isProviderApproved(uint256)(bool)"
            ∷ to_string provider_id
            ∷ codes "--rpc-url"
            ∷ lotus_rpc_url
            ∷ [])
          (indexed "pdp_verify_approved_provider_" provider_id "")
          (λ stderr. message "Failed to query if provider is approved: {}" (stderr ∷ []))
    pure (text_eq (trim result) (codes "true"))
