-- ===== src/Funding/Step.antt =====
-- src/commands/start/eth_acc_funding/eth_acc_funding_step.rs: the phases of the step. Where threads are
-- spawned, a phase is a relation between the world before it and the world behind it.
use foc_devnet.Base.{
  ℕ, ◌≡◌, ◌&&◌, if◌then◌else◌, Bool, true, false, Option, none, some, List, [], ◌∷◌, Outcome, ok,
  err, panic,
}
use foc_devnet.Text.{Text, codes}
use foc_devnet.Program.{Program, run, pure, ◌>>=◌, ◌>>◌}
use foc_devnet.Context.{World, get, set}
use foc_devnet.Shell.{Failure}
use foc_devnet.Shell.Log.{on_outside}
use foc_devnet.Host.Files.{load_keys}
use foc_devnet.Host.Chain.{get_run_id, get_lotus_rpc_url}
use foc_devnet.Funding.{Node, fevm_accounts_prefunded, active_accounts, address_key}
use foc_devnet.Funding.Faucet.{
  check_lotus_running, get_global_faucet_address, import_global_faucet_key,
}
use foc_devnet.Funding.Transfers.{Transfer, prepare_transfers, TransfersFil}
use foc_devnet.Funding.Balances.{Account, read_accounts, VerifiesAccounts}

abbrev pub is_some : Option Text → Bool
is_some none = false
is_some (some v) = true

abbrev pub faucet_key : Text
faucet_key = codes "global_faucet_address"

module _ {X : Type 0} where
  -- `all`, which stops at the first account without an address
  unfoldable pub has_addresses : List (Text × ℕ) → Program (World X) Failure Bool
  has_addresses [] = pure true
  has_addresses ((name, amount) ∷ accounts) = do
    value ← get (address_key name)
    if is_some value then has_addresses accounts else pure false

  unfoldable pub check_existing_funding : ℕ → Program (World X) Failure Bool
  unfolding has_addresses active_accounts
  check_existing_funding active_pdp_sp_count = do
    value ← get faucet_key
    has_all ← has_addresses (active_accounts active_pdp_sp_count fevm_accounts_prefunded)
    pure (is_some value && has_all)

module _ {X F : Type 0} (node : Node X F) (active_pdp_sp_count : ℕ) where
  abbrev pub find_faucet : Program (World X) Failure (Unit {0})
  find_faucet = do
    check_lotus_running node
    run_id ← get_run_id
    global_faucet ← on_outside (get_global_faucet_address node run_id)
    set faucet_key global_faucet

  unfoldable pub pre_execute : Program (World X) Failure (Unit {0})
  unfolding check_existing_funding
  pre_execute = do
    funded ← check_existing_funding active_pdp_sp_count
    if funded then pure tt else find_faucet

  -- `perform_account_funding` before the transfers
  unfoldable pub prepare_funding : Program (World X) Failure (Text × List Transfer)
  unfolding prepare_transfers
  prepare_funding = do
    keys ← on_outside (load_keys node.host)
    global_faucet ← import_global_faucet_key node
    set faucet_key global_faucet
    transfers ← prepare_transfers keys (active_accounts active_pdp_sp_count fevm_accounts_prefunded)
    pure (global_faucet, transfers)

  -- `execute`, from the world `w` to the world `w'`
  pub data Executes (w : World X) : World X → Outcome Failure (Unit {0}) → Type 0 where
    already_funded :
        (w' : World X)
        → run (check_existing_funding active_pdp_sp_count) w ≡ (ok true, w')
        → Executes w w' (ok tt)
    not_prepared :
        (w₁ w' : World X) (e : Failure)
        → run (check_existing_funding active_pdp_sp_count) w ≡ (ok false, w₁)
        → run prepare_funding w₁ ≡ (err e, w')
        → Executes w w' (err e)
    preparing_panics :
        (w₁ w' : World X)
        → run (check_existing_funding active_pdp_sp_count) w ≡ (ok false, w₁)
        → run prepare_funding w₁ ≡ (panic, w')
        → Executes w w' panic
    transferred :
        (w₁ w₂ w' : World X) (global_faucet : Text) (transfers : List Transfer)
        (r : Outcome Failure (Unit {0}))
        → run (check_existing_funding active_pdp_sp_count) w ≡ (ok false, w₁)
        → run prepare_funding w₁ ≡ (ok (global_faucet, transfers), w₂)
        → TransfersFil node global_faucet transfers w₂ w' r
        → Executes w w' r

  -- `post_execute` before the threads
  unfoldable pub prepare_verification : Program (World X) Failure (Text × List Account)
  unfolding read_accounts
  prepare_verification = do
    accounts ← read_accounts (active_accounts active_pdp_sp_count fevm_accounts_prefunded)
    lotus_rpc_url ← get_lotus_rpc_url
    pure (lotus_rpc_url, accounts)

  -- `post_execute`, from the world `w` to the world `w'`
  pub data PostExecutes (w : World X) : World X → Outcome Failure (Unit {0}) → Type 0 where
    not_read :
        (w' : World X) (e : Failure)
        → run prepare_verification w ≡ (err e, w')
        → PostExecutes w w' (err e)
    reading_panics :
        (w' : World X) → run prepare_verification w ≡ (panic, w') → PostExecutes w w' panic
    verified :
        (w₁ w' : World X) (lotus_rpc_url : Text) (accounts : List Account)
        (r : Outcome Failure (Unit {0}))
        → run prepare_verification w ≡ (ok (lotus_rpc_url, accounts), w₁)
        → VerifiesAccounts node lotus_rpc_url accounts w₁ w' r
        → PostExecutes w w' r
