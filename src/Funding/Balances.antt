-- ===== src/Funding/Balances.antt =====
-- src/commands/start/eth_acc_funding/eth_acc_funding_step.rs: the balances of the accounts, a thread
-- for each account; src/commands/start/lotus_utils/account_readiness.rs.
use foc_devnet.Base.{ℕ, if◌then◌else◌, List, [], ◌∷◌, ◌++◌, map, Outcome, ok, err, panic}
use foc_devnet.Text.{Text, codes, to_string}
use foc_devnet.Text.Search.{trim}
use foc_devnet.Program.{Program, ret, pure, raise, locked, map_error, ◌>>=◌, ◌>>◌}
use foc_devnet.Program.Catch.{retry_program, retry_counting}
use foc_devnet.Program.Threads.{reporting, JoinsThreads}
use foc_devnet.Context.{World}
use foc_devnet.Containers.{lotus_container_name}
use foc_devnet.Retry.{default_max_retries, default_retry_delay_secs}
use foc_devnet.Shell.{Failure, message, about}
use foc_devnet.Shell.Log.{on_outside, log_command, run_and_log_command_strings}
use foc_devnet.Host.Files.{ok_or}
use foc_devnet.Host.Chain.{get_run_id, require, sleep, concat}
use foc_devnet.Funding.{Node, address_key, eth_address_key}
use foc_devnet.Funding.Faucet.{strip_suffix}
use foc_devnet.Funding.Transfers.{without_error}

pub record Account : Type 0 where
  pub account_name : Text
  pub address : Text
  pub eth_address : Text
  pub expected_amount : ℕ

abbrev pub balance_args : Text → Text → List Text
balance_args container address =
    codes "exec"
    ∷ container
    ∷ codes "/usr/local/bin/lotus-bins/lotus"
    ∷ codes "wallet"
    ∷ codes "balance"
    ∷ address
    ∷ []

abbrev no_error : Failure
no_error = message "Operation failed with no error" []

abbrev nonce_args : Text → Text → Text → ℕ → List Text
nonce_args run_id eth_address lotus_rpc_url attempt =
    codes "run"
    ∷ codes "--rm"
    ∷ codes "--name"
    ∷ concat
        (codes "foc-" ∷ run_id ∷ codes "-nonce-" ∷ eth_address ∷ codes "-" ∷ to_string attempt ∷ [])
    ∷ codes "-u"
    ∷ codes "foc-user"
    ∷ codes "--network"
    ∷ codes "host"
    ∷ codes "foc-builder"
    ∷ codes "bash"
    ∷ codes "-c"
    ∷ concat (
        codes "cast nonce "
        ∷ eth_address
        ∷ codes " --block pending --rpc-url "
        ∷ lotus_rpc_url
        ∷ [])
    ∷ []

module _ {X : Type 0} where
  -- The loop of `post_execute` that reads the addresses back
  unfoldable pub read_accounts : List (Text × ℕ) → Program (World X) Failure (List Account)
  read_accounts [] = pure []
  read_accounts ((account_name, expected_amount) ∷ accounts) = do
    addr ←
        require (address_key account_name) (message "Missing address for: {}" (account_name ∷ []))
    eth_addr ←
        require (eth_address_key account_name)
          (message "Missing ETH address for: {}" (account_name ∷ []))
    rest ← read_accounts accounts
    pure (
        record {
          account_name = account_name;
          address = addr;
          eth_address = eth_addr;
          expected_amount = expected_amount;
        }
        ∷ rest)

module _ {X F : Type 0} (node : Node X F) where
  -- One attempt of the nonce's lookup
  unfoldable pub lookup_nonce : Text → Text → Text → ℕ → Program (World X) Failure (Unit {0})
  unfolding run_and_log_command_strings
  lookup_nonce run_id eth_address lotus_rpc_url attempt = do
    output ←
        run_and_log_command_strings node.host.launch (codes "docker")
          (nonce_args run_id eth_address lotus_rpc_url attempt)
          (concat (
            codes "account_nonce_"
            ∷ run_id
            ∷ codes "_"
            ∷ eth_address
            ∷ codes "_"
            ∷ to_string attempt
            ∷ []))
    if output.success
        then pure tt
        else raise (
            message "Pending nonce lookup failed for {}: {}"
              (eth_address ∷ trim output.stderr ∷ []))

  unfoldable pub wait_for_account_nonce : Text → Text → Program (World X) Failure (Unit {0})
  unfolding lookup_nonce retry_counting
  wait_for_account_nonce eth_address lotus_rpc_url = do
    run_id ← get_run_id
    retry_counting sleep no_error default_max_retries default_retry_delay_secs
        (lookup_nonce run_id eth_address lotus_rpc_url)

  -- What is read of the balance; the text is `XXX FIL`.
  abbrev pub parse_balance : Text → Outcome Failure F
  parse_balance balance_fil = elim (node.parse_f64 (trim balance_fil)) [
    | ok balance ↦ ok balance
    | err e ↦ err (about "Failed to parse balance '{}': {}" (balance_fil ∷ []) e)
    | panic ↦ panic
  ]

  abbrev pub enough : ℕ → F → Program (World X) Failure (Unit {0})
  enough expected balance =
      if node.at_least balance expected
      then pure tt
      else raise (
          message "Insufficient balance. Expected at least {} FIL, got {} FIL"
            (to_string expected ∷ node.print_f64 balance ∷ []))

  -- One attempt of the check of a balance
  unfoldable pub check_balance : Text → Account → Program (World X) Failure (Unit {0})
  unfolding log_command on_outside trim strip_suffix
  check_balance container a = do
    let args = balance_args container a.address
    log_command node.host.launch (codes "docker") args
        (codes "eth_acc_verify_balance_" ++ (a.account_name ++ b'_' ∷ container))
    output ←
        map_error (about "Failed to execute balance check: {}" [])
          (on_outside (locked (node.host.launch (codes "docker") args)))
    if output.success
        then pure tt
        else raise (message "Failed to check balance: {}" (output.stderr ∷ []))
    balance_fil ← ret (
        ok_or (message "Unexpected balance format: {}" (trim output.stdout ∷ []))
          (strip_suffix (codes " FIL") (trim output.stdout)))
    balance ← ret (parse_balance balance_fil)
    enough a.expected_amount balance

  -- The work of a thread
  unfoldable pub verify_account : Text → Text → Account → Program (World X) Failure (Unit {0})
  unfolding check_balance retry_program wait_for_account_nonce
  verify_account lotus_rpc_url container a = do
    retry_program sleep no_error (check_balance container a) default_max_retries
        default_retry_delay_secs
    wait_for_account_nonce a.eth_address lotus_rpc_url

  abbrev pub verify_thread :
      Text → Text → Account → Program (World X × List Failure) Failure (Unit {0})
  verify_thread lotus_rpc_url container a =
      reporting (about "{}: {}" (a.account_name ∷ [])) (verify_account lotus_rpc_url container a)

  -- `verify_accounts_parallel` once it has the URL, from the world `w` to the world `w'`
  pub data VerifiesAccounts (lotus_rpc_url : Text) (accounts : List Account) (w : World X)
      : World X → Outcome Failure (Unit {0}) → Type 0 where
    thread_panics :
        (w' : World X) (errors : List Failure) (e : Failure)
        → JoinsThreads
            (message "Thread panicked during account verification" [])
            (map (verify_thread lotus_rpc_url (lotus_container_name w.run_id)) accounts)
            w
            []
            w'
            errors
            (err e)
        → VerifiesAccounts lotus_rpc_url accounts w w' (err e)
    all_joined :
        (w' : World X) (errors : List Failure)
        → JoinsThreads
            (message "Thread panicked during account verification" [])
            (map (verify_thread lotus_rpc_url (lotus_container_name w.run_id)) accounts)
            w
            []
            w'
            errors
            (ok tt)
        → VerifiesAccounts lotus_rpc_url accounts w w'
            (without_error (codes "Account verification failed:") errors)
