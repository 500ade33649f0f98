-- ===== src/Pdp/Laws.antt =====
-- src/commands/start/pdp_service_provider/registration.rs: what the transactions keep of the context,
-- and the IDs that they return.
use foc_devnet.Base.{
  ℕ, ◌≤◌, ◌≡◌, refl, arith, ◌==◌, if◌then◌else◌, Bool, true, false, ◌++◌, ok, Option-cases, inl,
  inr, sym, ap,
}
use foc_devnet.Text.{Text, codes, parse_uint, max_u64}
use foc_devnet.Text.Decimal.{parse_uint-le}
use foc_devnet.Text.Split.{strip_prefix}
use foc_devnet.Text.Search.{trim}
use foc_devnet.Dict.{Dict}
use foc_devnet.Base.Results.{ok-injective}
use foc_devnet.Program.Loops.{run_bind-ok}
use foc_devnet.Program.{run, ret, pure, raise, Keeps, Keeps-bind}
use foc_devnet.Program.Caught.{Keeps-if}
use foc_devnet.Context.{World}
use foc_devnet.Shell.{Failure}
use foc_devnet.Shell.Log.{on_outside}
use foc_devnet.Host.{Host}
use foc_devnet.Host.Files.{get_private_key}
use foc_devnet.Host.Chain.{in_builder, sleep, transaction_failed}
use foc_devnet.Host.Frame.{Closed, Of, in_builder-Keeps, on_outside-Keeps}
use foc_devnet.Pdp.Capabilities.{build_capability_values_with_url}
use foc_devnet.Pdp.Registration.{
  ProviderRegistrationParams, ApprovedListParams, register_single_provider, add_to_approved_list,
  query_provider_id, wait_for_confirmation, id_or_zero,
}

module _ {X : Type 0} (host : Host X) (Q : Dict → Type 0) (closed : Closed Q) where
  query_provider_id-Keeps :
      (run_id registry_address address url : Text)
      → Keeps (Of Q) (query_provider_id host run_id registry_address address url)
  unfolding query_provider_id strip_prefix
  query_provider_id-Keeps run_id registry_address address url =
      Keeps-bind (Of Q) (in_builder host _ _ _ _) _
        (in_builder-Keeps host Q closed _ _ (codes "pdp_query_provider_id_" ++ address) _ refl)
        (λ result. Keeps-if (Of Q) (id_or_zero result == 0) _ _ tt tt)

  pub register_single_provider-Keeps :
      (params : ProviderRegistrationParams) → Keeps (Of Q) (register_single_provider host params)
  unfolding register_single_provider strip_prefix sleep
  register_single_provider-Keeps params =
      Keeps-bind (Of Q) (on_outside (get_private_key host params.pdp_sp_address)) _
        (on_outside-Keeps Q _)
        (λ private_key. Keeps-bind (Of Q) (ret _) _ tt (λ cap_values.
          Keeps-bind (Of Q) (in_builder host _ _ _ _) _
            (in_builder-Keeps host Q closed _ _ _ _ refl)
            (λ stdout.
              Keeps-bind (Of Q) (if transaction_failed stdout then raise _ else pure tt) _
                (Keeps-if (Of Q) (transaction_failed stdout) _ _ tt tt)
                (λ u. λ w h. (h, query_provider_id-Keeps _ _ _ _)))))

  pub add_to_approved_list-Keeps :
      (params : ApprovedListParams) → Keeps (Of Q) (add_to_approved_list host params)
  unfolding add_to_approved_list strip_prefix sleep
  add_to_approved_list-Keeps params =
      Keeps-bind (Of Q) (on_outside (get_private_key host params.deployer_foc_address)) _
        (on_outside-Keeps Q _)
        (λ private_key.
          Keeps-bind (Of Q) (in_builder host _ _ _ _) _
            (in_builder-Keeps host Q closed _ _ _ _ refl)
            (λ stdout.
              Keeps-bind (Of Q) (if transaction_failed stdout then raise _ else pure tt) _
                (Keeps-if (Of Q) (transaction_failed stdout) _ _ tt tt) (λ u. λ w h. (h, tt))))

id_or_zero-le : (s : Text) → id_or_zero s ≤ max_u64
id_or_zero-le s = elim (Option-cases (parse_uint max_u64 (trim s))) [
  | inl e ↦ rw (id_or_zero, e) (omega arith)
  | inr (n, e) ↦ rw (id_or_zero, e) (parse_uint-le max_u64 (trim s) n e)
]

module _ {X : Type 0} where
  nonzero-ok :
      (b : Bool) (e : Failure) (n id : ℕ) (w v : World X)
      → run (if b then raise e else pure n) w ≡ (ok id, v)
      → n ≡ id
  unfolding run
  nonzero-ok true e n id w v h = cc (ap (λ s. s.0) h)
  nonzero-ok false e n id w v h = ok-injective (ap (λ s. s.0) h)

module _ {X : Type 0} (host : Host X) where
  query_provider_id-le :
      (run_id registry_address address url : Text) (id : ℕ) (w v : World X)
      → run (query_provider_id host run_id registry_address address url) w ≡ (ok id, v)
      → id ≤ max_u64
  unfolding query_provider_id
  query_provider_id-le run_id registry_address address url id w v h =
      let (s, w₁, asked, rest) = run_bind-ok (in_builder host _ _ _ _) _ w v h in
      rw (sym (nonzero-ok (id_or_zero s == 0) _ (id_or_zero s) id w₁ v rest)) (id_or_zero-le s)

  -- The ID that the registration returns is a `u64`.
  pub register_single_provider-le :
      (params : ProviderRegistrationParams) (id : ℕ) (w v : World X)
      → run (register_single_provider host params) w ≡ (ok id, v)
      → id ≤ max_u64
  unfolding register_single_provider
  register_single_provider-le params id w v h =
      let (k, w₁, r₁, h₁) =
        run_bind-ok (on_outside (get_private_key host params.pdp_sp_address)) _ w v h in
      let (c, w₂, r₂, h₂) =
        run_bind-ok {W = World X} {E = Failure}
          (ret (
            build_capability_values_with_url host.hex_encode params.mock_usdfc_address
              params.service_url))
          _ w₁ v h₁ in
      let (s, w₃, r₃, h₃) = run_bind-ok (in_builder host _ _ _ _) _ w₂ v h₂ in
      let (u, w₄, r₄, h₄) =
        run_bind-ok (if transaction_failed s then raise _ else pure tt) _ w₃ v h₃ in
      let (u', w₅, r₅, h₅) = run_bind-ok wait_for_confirmation _ w₄ v h₄ in
      query_provider_id-le params.run_id params.registry_address params.pdp_sp_eth_address
        params.lotus_rpc_url id w₅ v h₅
