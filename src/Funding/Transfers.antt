-- ===== src/Funding/Transfers.antt =====
-- src/commands/start/eth_acc_funding/eth_acc_funding_step.rs: the transfers from the faucet, a thread
-- for each account.
use foc_devnet.Base.{ℕ, ◌*◌, ◌≡◌, if◌then◌else◌, List, [], ◌∷◌, ◌++◌, map, Outcome, ok, err}
use foc_devnet.Base.Results
use foc_devnet.Text.{Text, codes, to_string}
use foc_devnet.Program.{Program, ret, run, pure, raise, locked, map_error, ◌>>=◌, ◌>>◌}
use foc_devnet.Program.Threads.{reporting, JoinsThreads}
use foc_devnet.Context.{World, set}
use foc_devnet.Containers.{lotus_container_name}
use foc_devnet.Shell.{Failure, message, about, and_then}
use foc_devnet.Shell.Log.{on_outside, log_command}
use foc_devnet.Host.{KeyInfo}
use foc_devnet.Host.Files.{find_key, ok_or}
use foc_devnet.Host.Chain.{sleep}
use foc_devnet.Funding.{
  Node, address_key, eth_address_key, named, transaction_confirmation_wait_secs,
}

-- An account with the address and the amount of FIL that it is sent.
pub record Transfer : Type 0 where
  pub account_name : Text
  pub to_addr : Text
  pub amount : ℕ

abbrev pub send_args : Text → Text → Transfer → List Text
send_args container from t =
    codes "exec"
    ∷ container
    ∷ codes "/usr/local/bin/lotus-bins/lotus"
    ∷ codes "send"
    ∷ codes "--from"
    ∷ from
    ∷ t.to_addr
    ∷ to_string t.amount
    ∷ []

-- `errors_vec.join("\n")` as an error
abbrev pub combined : Failure → List Failure → Failure
combined e [] = e
combined e (d ∷ es) = and_then e (combined d es)

-- What the vector of errors makes of the threads.
abbrev pub without_error : Text → List Failure → Outcome Failure (Unit {0})
without_error what [] = ok tt
without_error what (e ∷ es) = err (and_then (message "{}" (what ∷ [])) (combined e es))

-- The addresses of an account among the keys
unfoldable pub addresses_of : List KeyInfo → Text → Outcome Failure (Text × Text)
unfolding find_key
addresses_of keys account_name =
    Results.◌>>=◌
      (ok_or (message "Key not found for account: {}" (account_name ∷ []))
        (find_key (named account_name) keys))
      λ key_info.
        Results.◌>>=◌
          (ok_or (message "No Filecoin address for {}" (account_name ∷ []))
            key_info.filecoin_address)
          λ f4_address.
            Results.◌>>=◌
              (ok_or (message "No Ethereum address for {}" (account_name ∷ []))
                key_info.eth_address)
              λ eth_address. ok (f4_address, eth_address)

module _ {X : Type 0} where
  abbrev pub store_addresses : Text → Text → Text → Program (World X) Failure (Unit {0})
  store_addresses account_name f4_address eth_address = do
    set (address_key account_name) f4_address
    set (eth_address_key account_name) eth_address

  -- The loop that prepares the accounts, and puts their addresses into the context.
  unfoldable pub prepare_transfers :
      List KeyInfo → List (Text × ℕ) → Program (World X) Failure (List Transfer)
  unfolding addresses_of
  prepare_transfers keys [] = pure []
  prepare_transfers keys ((account_name, amount) ∷ accounts) =
      ret (addresses_of keys account_name) >>= λ (f4_address, eth_address).
      store_addresses account_name f4_address eth_address >>= λ _.
      prepare_transfers keys accounts >>= λ transfers.
      pure
        (record { account_name = account_name; to_addr = f4_address; amount = amount } ∷ transfers)

module _ {X : Type 0} where
  abbrev pub confirm : Program (World X) Failure (Unit {0})
  confirm = sleep (transaction_confirmation_wait_secs * 2)

module _ {X F : Type 0} (node : Node X F) where
  -- The work of a thread
  unfoldable pub transfer_fil : Text → Text → Transfer → Program (World X) Failure (Unit {0})
  unfolding log_command on_outside
  transfer_fil container from t = do
    let args = send_args container from t
    log_command node.host.launch (codes "docker") args
        (codes "eth_acc_transfer_" ++ (t.account_name ++ b'_' ∷ container))
    output ←
        map_error (about "Failed to execute transfer to {}: {}" (t.account_name ∷ []))
          (on_outside (locked (node.host.launch (codes "docker") args)))
    if output.success
        then pure tt
        else raise (
            message "Failed to transfer {} FIL to {}: {}"
              (to_string t.amount ∷ t.account_name ∷ output.stderr ∷ []))

  abbrev pub transfer_thread :
      Text → Text → Transfer → Program (World X × List Failure) Failure (Unit {0})
  transfer_thread container from t = reporting (λ e. e) (transfer_fil container from t)

  -- `parallel_transfer_fil`, from the world `w` to the world `w'`. The threads may take turns in any
  -- order; a panic of one ends the function when that one is joined.
  pub data TransfersFil (from : Text) (transfers : List Transfer) (w : World X)
      : World X → Outcome Failure (Unit {0}) → Type 0 where
    thread_panics :
        (w' : World X) (errors : List Failure) (e : Failure)
        → JoinsThreads
            (message "Thread panicked during transfer" [])
            (map (transfer_thread (lotus_container_name w.run_id) from) transfers)
            w
            []
            w'
            errors
            (err e)
        → TransfersFil from transfers w w' (err e)
    all_joined :
        (w₁ w' : World X) (errors : List Failure)
        → JoinsThreads
            (message "Thread panicked during transfer" [])
            (map (transfer_thread (lotus_container_name w.run_id) from) transfers)
            w
            []
            w₁
            errors
            (ok tt)
        → run confirm w₁ ≡ (ok tt, w')
        → TransfersFil from transfers w w'
            (without_error (codes "One or more transfers failed:") errors)
