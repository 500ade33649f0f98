-- ===== src/Tokens/Batches.antt =====
-- src/commands/start/usdfc_funding/usdfc_funding_step.rs: the transfers in batches of six, a thread for
-- each transfer of a batch.
use foc_devnet.Base.{ℕ, zero, suc, ◌+◌, ◌*◌, ◌≡◌, List, [], ◌∷◌, ◌++◌, map, some, Outcome, ok, err}
use foc_devnet.Text.{Text, codes, to_string}
use foc_devnet.Program.{Program, run, pure}
use foc_devnet.Program.Threads.{reporting, JoinsThreads}
use foc_devnet.Context.{World}
use foc_devnet.Shell.{Failure, message, about}
use foc_devnet.Host.Chain.{sleep}
use foc_devnet.Funding.Transfers.{without_error}
use foc_devnet.Tokens.{Mint, token_amount_to_wei, transaction_confirmation_wait_secs}
use foc_devnet.Tokens.Operations.{UsdfcTransferParams, transfer_mock_usdfc}

-- An account with its address and tokens; the amount in wei is a function of the tokens.
pub record TokenTransfer : Type 0 where
  pub account_name : Text
  pub eth_address : Text
  pub amount_tokens : ℕ

abbrev pub amount_wei : TokenTransfer → ℕ
amount_wei t = token_amount_to_wei t.amount_tokens

-- What every transfer of the step has in common
pub record Distribution : Type 0 where
  pub deployer_private_key : Text
  pub mockusdfc_address : Text
  pub lotus_rpc_url : Text

abbrev pub max_concurrent_transfers : ℕ
max_concurrent_transfers = 6

module _ {A : Type 0} where
  abbrev filled : A → List A × List (List A) → List A × List (List A)
  filled x (batch, batches) = (x ∷ batch, batches)

  abbrev opened : A → List A × List (List A) → List A × List (List A)
  opened x (batch, batches) = ([], (x ∷ batch) ∷ batches)

  -- What goes into the batch that has room left, and the batches behind it
  unfoldable pub chunks_into : ℕ → List A → List A × List (List A)
  chunks_into room [] = ([], [])
  chunks_into zero (x ∷ xs) = opened x (chunks_into 5 xs)
  chunks_into (suc room) (x ∷ xs) = filled x (chunks_into room xs)

  -- `chunks(MAX_CONCURRENT_TRANSFERS)`
  unfoldable pub chunks : List A → List (List A)
  unfolding chunks_into
  chunks xs = (chunks_into 0 xs).1

  -- The transfers of a batch with their nonces
  unfoldable pub with_nonces : ℕ → ℕ → List A → List (ℕ × A)
  with_nonces batch_idx batch_transfer_idx [] = []
  with_nonces batch_idx batch_transfer_idx (x ∷ batch) =
      (batch_idx * max_concurrent_transfers + batch_transfer_idx + 1, x)
      ∷ with_nonces batch_idx (batch_transfer_idx + 1) batch

  unfoldable pub enumerated : ℕ → List (List A) → List (List (ℕ × A))
  unfolding with_nonces
  enumerated batch_idx [] = []
  enumerated batch_idx (batch ∷ batches) =
      with_nonces batch_idx 0 batch ∷ enumerated (batch_idx + 1) batches

module _ {X : Type 0} (mint : Mint X) (d : Distribution) where
  abbrev pub params_of : ℕ × TokenTransfer → UsdfcTransferParams
  params_of (nonce, t) = record {
    from_private_key = d.deployer_private_key;
    to_eth_address = t.eth_address;
    amount = to_string (amount_wei t);
    token_address = d.mockusdfc_address;
    description = codes "DEPLOYER_MOCKUSDFC → " ++ t.account_name;
    nonce = some nonce;
    lotus_rpc_url = d.lotus_rpc_url;
  }

  abbrev pub not_transferred : TokenTransfer → Failure → Failure
  not_transferred t =
      about "Failed to transfer {} USDFC to {}: {}"
        (to_string t.amount_tokens ∷ t.account_name ∷ [])

  abbrev pub token_thread : ℕ × TokenTransfer → Program (World X × List Failure) Failure (Unit {0})
  token_thread t = reporting (not_transferred t.1) (transfer_mock_usdfc mint (params_of t))

  -- `batch_num < total_batches`: another batch follows.
  abbrev pub wait_mined : List (List (ℕ × TokenTransfer)) → Program (World X) Failure (Unit {0})
  wait_mined [] = pure tt
  wait_mined (batch ∷ batches) = sleep transaction_confirmation_wait_secs

  -- The loop over the batches, from the world `w` with the errors `es` to `w'` with `es'`. The pauses
  -- of a fifth of a second between the spawns only delay a thread, which may start at any time here.
  pub data RunsBatches
      : List (List (ℕ × TokenTransfer))
        → World X
        → List Failure
        → World X
        → List Failure
        → Outcome Failure (Unit {0})
        → Type 0 where
    no_more : (w : World X) (es : List Failure) → RunsBatches [] w es w es (ok tt)
    thread_panics :
        (batch : List (ℕ × TokenTransfer)) (batches : List (List (ℕ × TokenTransfer)))
        (w w' : World X) (es es' : List Failure) (e : Failure)
        → JoinsThreads
            (message "Thread panicked during transfer" [])
            (map token_thread batch)
            w
            es
            w'
            es'
            (err e)
        → RunsBatches (batch ∷ batches) w es w' es' (err e)
    completed :
        (batch : List (ℕ × TokenTransfer)) (batches : List (List (ℕ × TokenTransfer)))
        (w w₁ w₂ w' : World X) (es es₁ es' : List Failure) (r : Outcome Failure (Unit {0}))
        → JoinsThreads
            (message "Thread panicked during transfer" [])
            (map token_thread batch)
            w
            es
            w₁
            es₁
            (ok tt)
        → run (wait_mined batches) w₁ ≡ (ok tt, w₂)
        → RunsBatches batches w₂ es₁ w' es' r
        → RunsBatches (batch ∷ batches) w es w' es' r

  -- `parallel_transfer_usdfc`, from the world `w` to the world `w'`
  pub data TransfersUsdfc (transfers : List TokenTransfer) (w : World X)
      : World X → Outcome Failure (Unit {0}) → Type 0 where
    stopped :
        (w' : World X) (errors : List Failure) (e : Failure)
        → RunsBatches (enumerated 0 (chunks transfers)) w [] w' errors (err e)
        → TransfersUsdfc transfers w w' (err e)
    finished :
        (w₁ w' : World X) (errors : List Failure)
        → RunsBatches (enumerated 0 (chunks transfers)) w [] w₁ errors (ok tt)
        → run (sleep transaction_confirmation_wait_secs) w₁ ≡ (ok tt, w')
        → TransfersUsdfc transfers w w'
            (without_error (codes "One or more transfers failed:") errors)
