-- ===== src/Tokens/Step.antt =====
-- src/commands/start/usdfc_funding/usdfc_funding_step.rs: the phases of the step.
use foc_devnet.Base.{
  ℕ, ltb, leb, ◌≡◌, if◌then◌else◌, Bool, true, false, Option, none, some, List, [], ◌∷◌, Outcome,
  ok, err, panic,
}
use foc_devnet.Text.{Text, codes, to_string}
use foc_devnet.Program.{Program, run, pure, raise, map_error, ◌>>=◌, ◌>>◌}
use foc_devnet.Containers.{lotus_container_name}
use foc_devnet.Context.{World}
use foc_devnet.Shell.{Failure, message, about, container_is_running}
use foc_devnet.Shell.Log.{on_outside}
use foc_devnet.Host.Chain.{get_run_id, require, get_lotus_rpc_url}
use foc_devnet.Tokens.{
  Mint, token_amount_to_wei, recipients, get_user_eth_address, get_user_private_key,
}
use foc_devnet.Tokens.Operations.{check_mock_usdfc_balance}
use foc_devnet.Tokens.Batches.{TokenTransfer, Distribution, TransfersUsdfc}

abbrev pub mockusdfc_key : Text
mockusdfc_key = codes "mockusdfc_contract_address"

module _ {X : Type 0} (mint : Mint X) where
  -- The address of an account and the balance there
  abbrev pub balance_of : Text → Text → Text → Text → Program (World X) Failure ℕ
  balance_of account_name eth_address mockusdfc_address lotus_rpc_url =
      map_error (about "Failed to check {} balance: {}" (account_name ∷ []))
        (check_mock_usdfc_balance mint eth_address mockusdfc_address lotus_rpc_url)

  -- The loop of `check_existing_balances`
  unfoldable pub check_balances : Text → Text → List (Text × ℕ) → Program (World X) Failure Bool
  unfolding on_outside get_user_eth_address check_mock_usdfc_balance
  check_balances mockusdfc_address lotus_rpc_url [] = pure true
  check_balances mockusdfc_address lotus_rpc_url ((account_name, amount_tokens) ∷ accounts) = do
    eth_address ← on_outside (get_user_eth_address mint.host account_name)
    balance ← balance_of account_name eth_address mockusdfc_address lotus_rpc_url
    if ltb balance (token_amount_to_wei amount_tokens)
        then pure false
        else check_balances mockusdfc_address lotus_rpc_url accounts

  -- The loops that build the list of transfers
  unfoldable pub gather_transfers : List (Text × ℕ) → Program (World X) Failure (List TokenTransfer)
  unfolding on_outside get_user_eth_address
  gather_transfers [] = pure []
  gather_transfers ((account_name, amount_tokens) ∷ accounts) = do
    eth_address ← on_outside (get_user_eth_address mint.host account_name)
    transfers ← gather_transfers accounts
    pure (
        record {
          account_name = account_name;
          eth_address = eth_address;
          amount_tokens = amount_tokens;
        }
        ∷ transfers)

  abbrev incorrect : Text → ℕ → ℕ → Failure
  incorrect account_name expected_wei balance =
      message "{} balance incorrect: expected {} wei, found {} wei"
        (account_name ∷ to_string expected_wei ∷ to_string balance ∷ [])

  -- The loop of `post_execute`
  unfoldable pub verify_balances : Text → List (Text × ℕ) → Program (World X) Failure (Unit {0})
  unfolding on_outside get_user_eth_address check_mock_usdfc_balance require
  verify_balances lotus_rpc_url [] = pure tt
  verify_balances lotus_rpc_url ((account_name, amount_tokens) ∷ accounts) = do
    eth_address ← on_outside (get_user_eth_address mint.host account_name)
    mock_usdfc_address ← require mockusdfc_key (message "MockUSDFC address not found in context" [])
    balance ← balance_of account_name eth_address mock_usdfc_address lotus_rpc_url
    if leb (token_amount_to_wei amount_tokens) balance
        then verify_balances lotus_rpc_url accounts
        else raise (incorrect account_name (token_amount_to_wei amount_tokens) balance)

  abbrev pub check_running : Program (World X) Failure (Unit {0})
  unfolding get_run_id on_outside
  check_running = do
    run_id ← get_run_id
    running ← on_outside (container_is_running mint.host.launch (lotus_container_name run_id))
    if running then pure tt else raise (message "Lotus container is not running" [])

module _ {X : Type 0} (mint : Mint X) (active_pdp_sp_count : ℕ) where
  unfoldable pub prepare_token_transfers :
      Text → Text → Program (World X) Failure (Distribution × List TokenTransfer)
  unfolding on_outside get_user_private_key gather_transfers
  prepare_token_transfers mockusdfc_address lotus_rpc_url = do
    deployer_private_key ← on_outside (get_user_private_key mint.host (codes "DEPLOYER_MOCKUSDFC"))
    transfers ← gather_transfers mint (recipients active_pdp_sp_count)
    pure (
      record {
        deployer_private_key = deployer_private_key;
        mockusdfc_address = mockusdfc_address;
        lotus_rpc_url = lotus_rpc_url;
      },
      transfers,
    )

  -- `execute` before the transfers: nothing is left to do where the balances are there already.
  unfoldable pub prepare_distribution :
      Program (World X) Failure (Option (Distribution × List TokenTransfer))
  unfolding check_balances require get_lotus_rpc_url prepare_token_transfers
  prepare_distribution = do
    check_running mint
    mockusdfc_address ←
        require mockusdfc_key (message "MockUSDFC contract address not found in context" [])
    deployer_mockusdfc_eth ←
        require (codes "deployer_mockusdfc_eth_address")
          (message "DEPLOYER_MOCKUSDFC ETH address not found in context" [])
    lotus_rpc_url ← get_lotus_rpc_url
    done ← check_balances mint mockusdfc_address lotus_rpc_url (recipients active_pdp_sp_count)
    if done
        then pure none
        else prepare_token_transfers mockusdfc_address lotus_rpc_url >>= λ p. pure (some p)

  -- `execute`, from the world `w` to the world `w'`
  pub data Distributes (w : World X) : World X → Outcome Failure (Unit {0}) → Type 0 where
    not_prepared :
        (w' : World X) (e : Failure)
        → run prepare_distribution w ≡ (err e, w')
        → Distributes w w' (err e)
    preparing_panics :
        (w' : World X) → run prepare_distribution w ≡ (panic, w') → Distributes w w' panic
    already_completed :
        (w' : World X) → run prepare_distribution w ≡ (ok none, w') → Distributes w w' (ok tt)
    transferred :
        (w₁ w' : World X) (d : Distribution) (transfers : List TokenTransfer)
        (r : Outcome Failure (Unit {0}))
        → run prepare_distribution w ≡ (ok (some (d, transfers)), w₁)
        → TransfersUsdfc mint d transfers w₁ w' r
        → Distributes w w' r

  unfoldable pub post_execute : Program (World X) Failure (Unit {0})
  unfolding verify_balances get_lotus_rpc_url
  post_execute = do
    lotus_rpc_url ← get_lotus_rpc_url
    verify_balances mint lotus_rpc_url (recipients active_pdp_sp_count)
