-- ===== src/Pdp/Providers.antt =====
-- src/commands/start/pdp_service_provider/pdp_service_provider_step.rs: the data of each provider and
-- the loops over the providers of `execute`.
use foc_devnet.Base.{
  ℕ, leb, if◌then◌else◌, Bool, List, [], ◌∷◌, ◌++◌, Outcome, ok, err, panic, String,
}
use foc_devnet.Text.{Text, codes, to_string, show_bool, max_u16}
use foc_devnet.Text.Keys.{indexed}
use foc_devnet.Program.{Program, ret, pure, ◌>>=◌, ◌>>◌}
use foc_devnet.Program.Catch.{catch}
use foc_devnet.Context.{World, set}
use foc_devnet.Shell.{Failure, message, about, and_then}
use foc_devnet.Shell.Log.{on_outside}
use foc_devnet.Host.{Host, ProviderIdInfo}
use foc_devnet.Host.Files.{save_provider_id}
use foc_devnet.Host.Chain.{require, number, concat}
use foc_devnet.Pdp.Registration.{register_single_provider, add_to_approved_list}

-- `pdp_sp_{sp_index}_address` and the like
abbrev pub sp_key : ℕ → String → Text
sp_key sp_index suffix = indexed "pdp_sp_" sp_index suffix

abbrev pub not_in_context : Text → Failure
not_in_context key = message "{} not found in context" (key ∷ [])

abbrev pub port_not_in_context : Text → Failure
port_not_in_context key = message "{} not found in context - Curio must be started first" (key ∷ [])

-- One element of `sp_data`
pub record SpData : Type 0 where
  pub sp_index : ℕ
  pub sp_address : Text
  pub sp_eth_address : Text
  pub pdp_port : ℕ
  pub should_approve : Bool

-- What the loop over `sp_data` has pushed.
pub record Registered : Type 0 where
  pub errors : List Failure
  pub provider_ids : List (ℕ × ℕ)

-- `errors.join("\n")` in the error that is returned
abbrev joined : Failure → List Failure → Failure
joined e [] = e
joined e (f ∷ errors) = and_then e (joined f errors)

abbrev pub registration_errors : List Failure → Outcome Failure (Unit {0})
registration_errors [] = ok tt
registration_errors (e ∷ errors) =
    err (about "Failed to register some providers:\n{}" [] (joined e errors))

module _ {X : Type 0} where
  unfoldable pub get_required_addresses : Program (World X) Failure (Text × Text)
  get_required_addresses = do
    address ←
        require (codes "deployer_foc_address")
          (message "DEPLOYER_FOC address not found in context" [])
    eth_address ←
        require (codes "deployer_foc_eth_address")
          (message "DEPLOYER_FOC Ethereum address not found in context" [])
    pure (address, eth_address)

  -- The values of the context about one provider
  unfoldable pub sp_data : ℕ → ℕ → Program (World X) Failure SpData
  sp_data approved_sp_count sp_index = do
    let pdp_key = sp_key sp_index "_address"
    let eth_key = sp_key sp_index "_eth_address"
    let port_key = sp_key sp_index "_pdp_port"
    sp_address ← require pdp_key (not_in_context pdp_key)
    sp_eth_address ← require eth_key (not_in_context eth_key)
    port ← require port_key (port_not_in_context port_key)
    pdp_port ← ret (number max_u16 port)
    pure record {
      sp_index = sp_index;
      sp_address = sp_address;
      sp_eth_address = sp_eth_address;
      pdp_port = pdp_port;
      should_approve = leb sp_index approved_sp_count;
    }

  unfoldable pub collect_sp_data : ℕ → List ℕ → Program (World X) Failure (List SpData)
  unfolding sp_data
  collect_sp_data approved_sp_count [] = pure []
  collect_sp_data approved_sp_count (i ∷ is) = do
    d ← sp_data approved_sp_count i
    rest ← collect_sp_data approved_sp_count is
    pure (d ∷ rest)

-- What the registration needs beside the data of a provider
pub record Addresses : Type 0 where
  pub run_id : Text
  pub lotus_rpc_url : Text
  pub registry_address : Text
  pub warm_storage_address : Text
  pub mock_usdfc_address : Text
  pub deployer_foc_address : Text

module _ {X : Type 0} (host : Host X) where
  -- The approval of a registered provider, if it is to be approved.
  unfoldable pub approve :
      Addresses → SpData → ℕ → Program (World X) Failure (Outcome Failure (Unit {0}))
  approve a d provider_id =
      if d.should_approve
      then catch (
          add_to_approved_list host record {
            run_id = a.run_id;
            warm_storage_address = a.warm_storage_address;
            provider_id = provider_id;
            deployer_foc_address = a.deployer_foc_address;
            lotus_rpc_url = a.lotus_rpc_url;
          })
      else pure (ok tt)

  unfoldable pub register : Addresses → SpData → Program (World X) Failure (Outcome Failure ℕ)
  register a d = catch (
      register_single_provider host record {
        run_id = a.run_id;
        registry_address = a.registry_address;
        pdp_sp_address = d.sp_address;
        pdp_sp_eth_address = d.sp_eth_address;
        mock_usdfc_address = a.mock_usdfc_address;
        lotus_rpc_url = a.lotus_rpc_url;
        service_url = concat (codes "http://host.docker.internal:" ∷ to_string d.pdp_port ∷ []);
        sp_index = d.sp_index;
      })

  -- What is pushed behind an approval
  abbrev pub after_approval :
      SpData → ℕ → Registered → Outcome Failure (Unit {0}) → Program (World X) Failure Registered
  after_approval d provider_id done (ok u) =
      pure record done { provider_ids = done.provider_ids ++ (d.sp_index, provider_id) ∷ [] }
  after_approval d provider_id done (err e) = pure record done {
    errors = done.errors ++ about "SP {} approval failed: {}" (to_string d.sp_index ∷ []) e ∷ [];
  }
  after_approval d provider_id done panic = ret panic

  -- What follows the registration
  abbrev pub after_registration :
      Addresses → SpData → Registered → Outcome Failure ℕ → Program (World X) Failure Registered
  after_registration a d done (ok provider_id) = do
    set (sp_key d.sp_index "_is_approved") (show_bool d.should_approve)
    approved ← approve a d provider_id
    after_approval d provider_id done approved
  after_registration a d done (err e) = pure record done {
    errors =
        done.errors ++ about "SP {} registration failed: {}" (to_string d.sp_index ∷ []) e ∷ [];
  }
  after_registration a d done panic = ret panic

  -- The body of the loop over `sp_data`
  unfoldable pub register_one :
      Addresses → SpData → Registered → Program (World X) Failure Registered
  register_one a d done = register a d >>= after_registration a d done

  unfoldable pub register_all :
      Addresses → List SpData → Registered → Program (World X) Failure Registered
  register_all a [] done = pure done
  register_all a (d ∷ ds) done = register_one a d done >>= λ more. register_all a ds more

  -- The body of the loop over `provider_ids`
  unfoldable pub store_provider_id : Text → ℕ × ℕ → Program (World X) Failure (Unit {0})
  unfolding on_outside
  store_provider_id run_id (sp_index, provider_id) = do
    sp_eth_address ←
        require (sp_key sp_index "_eth_address") (message "SP eth address not found" [])
    let info : ProviderIdInfo = record {
      provider_id = provider_id;
      provider_address = sp_eth_address;
      payee_address = sp_eth_address;
    }
    on_outside (save_provider_id host info run_id sp_index)
    set (sp_key sp_index "_provider_id") (to_string provider_id)
