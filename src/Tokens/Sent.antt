-- ===== src/Tokens/Sent.antt =====
-- src/commands/start/usdfc_funding: what the transfers have done on the chain when the step succeeds.
use mathlib.Core.Path.{subst}
use foc_devnet.Base.{
  ◌≡◌, ◌⊎◌, inl, inr, refl, sym, ap, ℕ, Bool, true, false, if◌then◌else◌, Outcome, ok, err, panic,
  List, [], ◌∷◌, map, All,
}
use foc_devnet.Text.{Text, codes}
use foc_devnet.Program.{Program, ret, act, run, pure, raise, locked, map_error, then_do}
use foc_devnet.Program.Secures.{
  Secures, Secures-later, Stable-bind, Stable-if, OrError, reporting-Stable, JoinsThreads-OrError,
}
use foc_devnet.Program.Threads.{Stable}
use foc_devnet.Context.{World, put, save_command, save_to_file}
use foc_devnet.Context.Laws.{save-outside}
use foc_devnet.Host.Chain.{sleep, get_run_id}
use foc_devnet.Host.Mounts.{bind_mount, bind_mount_with_mode, prepare_bind_source}
use foc_devnet.Host.Steady.{Steady, run_and_log-Stable}
use foc_devnet.Shell.{Failure, Output, message}
use foc_devnet.Shell.Log.{on_outside, run_and_log_command_strings}
use foc_devnet.Tokens.{Mint}
use foc_devnet.Tokens.Operations.{
  UsdfcTransferParams, transfer_args, transfer_mock_usdfc, mount_workspace, transfer_key,
  after_transfer, run_transfer,
}
use foc_devnet.Tokens.Batches.{
  TokenTransfer, Distribution, amount_wei, params_of, token_thread, not_transferred, wait_mined,
  RunsBatches, no_more, thread_panics, completed,
}

-- What is documented of `cast send`: if it succeeds, the amount is sent with the nonce; and no command
-- of Docker, and no directory or temporary file that is made, takes back what was sent.
pub record Minting {X : Type 0} (mint : Mint X) (sent : Text → ℕ → ℕ → X → Type 0) : Type 0 where
  pub send_sends :
      (d : Distribution) (nonce : ℕ) (t : TokenTransfer) (run_id mount : Text) (o : Output) (x : X)
      → (mint.host.launch
          (codes "docker")
          (transfer_args run_id mount (params_of mint d (nonce, t)))
          x).0
        ≡ ok o
      → o.success ≡ true
      → sent t.eth_address
          (amount_wei t)
          nonce
          (mint.host.launch
            (codes "docker")
            (transfer_args run_id mount (params_of mint d (nonce, t)))
            x).1
  pub launch_keeps :
      (args : List Text) (to : Text) (amount nonce : ℕ) (x : X)
      → sent to amount nonce x
      → sent to amount nonce (mint.host.launch (codes "docker") args x).1
  pub dir_keeps :
      (path to : Text) (amount nonce : ℕ) (x : X)
      → sent to amount nonce x
      → sent to amount nonce (mint.host.create_dir_all path x).1
  pub tempfile_keeps :
      (path to : Text) (amount nonce : ℕ) (x : X)
      → sent to amount nonce x
      → sent to amount nonce (mint.tempfile_in path x).1

module _ {X E A : Type 0} (H : X → Type 0) where
  on_outside-Stable : (m : Program X E A) → Stable H m → Stable (λ w. H w.outside) (on_outside m)
  unfolding on_outside
  on_outside-Stable (ret r) k = tt
  on_outside-Stable (act u f) k =
      λ w. ((k w.outside).0, on_outside-Stable (f w.outside) (k w.outside).1)

module _ {X : Type 0} (mint : Mint X) {sent : Text → ℕ → ℕ → X → Type 0}
    (minting : Minting mint sent) where
  abbrev SentThere : ℕ × TokenTransfer → X → Type 0
  SentThere t x = sent t.1.eth_address (amount_wei t.1) t.0 x

  abbrev pub Sent : ℕ × TokenTransfer → World X → Type 0
  Sent t w = SentThere t w.outside

  Sent-Steady : (t : ℕ × TokenTransfer) → Steady mint.host.launch (Sent t)
  unfolding put
  Sent-Steady t = record {
    insert_keeps = λ k c w h. h;
    save_keeps = λ w h. subst (SentThere t) (sym (save-outside w)) h;
    sleep_keeps = λ n w h. h;
    launch_keeps =
        λ args w. minting.launch_keeps args t.1.eth_address (amount_wei t.1) t.0 w.outside;
  }

  bind_mount-Stable :
      (t : ℕ × TokenTransfer) (source target : Text)
      → Stable (Sent t) (on_outside (bind_mount mint.host mint.tempfile_in source target))
  unfolding bind_mount bind_mount_with_mode prepare_bind_source
  bind_mount-Stable t source target =
      on_outside-Stable (SentThere t) (bind_mount mint.host mint.tempfile_in source target) (
        Stable-bind (SentThere t) (prepare_bind_source mint.host mint.tempfile_in source) _
          (Stable-bind (SentThere t) (map_error _ (locked (mint.host.create_dir_all source))) _
            (λ x. (minting.dir_keeps source t.1.eth_address (amount_wei t.1) t.0 x, tt))
            (λ u. λ x. (minting.tempfile_keeps source t.1.eth_address (amount_wei t.1) t.0 x, tt)))
          (λ u. tt))

  transfer-Stable :
      (t : ℕ × TokenTransfer) (params : UsdfcTransferParams)
      → Stable (Sent t) (transfer_mock_usdfc mint params)
  unfolding transfer_mock_usdfc get_run_id
  transfer-Stable t params = λ w. (
    (λ h. h),
    Stable-bind (Sent t) (mount_workspace mint) (run_transfer mint params w.run_id)
        (bind_mount-Stable t (codes "/tmp") (codes "/workspace"))
        λ mount.
          Stable-bind (Sent t)
            (run_and_log_command_strings mint.host.launch (codes "docker")
              (transfer_args w.run_id mount params) (transfer_key mint params))
            (after_transfer mint)
            (run_and_log-Stable (Sent t) (Sent-Steady t) (transfer_args w.run_id mount params)
              (transfer_key mint params))
            (λ o. Stable-if (Sent t) o.success _ _ tt tt),
  )

  sends :
      (t : ℕ × TokenTransfer) (w : World X) (p : Outcome Failure Output × X)
      → ((o : Output) → p.0 ≡ ok o → o.success ≡ true → SentThere t p.1)
      → Sent t (record w { outside = p.1 })
        ⊎ Secures {E = Failure} (Sent t) (then_do p.0 (after_transfer mint))
  sends t w (ok o, x) law = by_success o.success refl
    where
      by_success :
          (b : Bool)
          → o.success ≡ b
          → SentThere t x
            ⊎ Secures {E = Failure} (Sent t) (
                if b
                then pure tt
                else raise (message "Failed to transfer MockUSDFC: {}" (o.stderr ∷ [])))
      by_success true e = inl (law o refl e)
      by_success false e = inr tt
  sends t w (err e, x) law = inr tt
  sends t w (panic, x) law = inr tt

  run_transfer-Secures :
      (d : Distribution) (t : ℕ × TokenTransfer) (run_id mount : Text)
      → Secures (Sent t) (run_transfer mint (params_of mint d t) run_id mount)
  unfolding run_and_log_command_strings save_command save_to_file on_outside
  run_transfer-Secures d t run_id mount = λ w. inr λ w. inr λ w.
      sends t w
        (mint.host.launch (codes "docker") (transfer_args run_id mount (params_of mint d t))
          w.outside)
        (λ o. minting.send_sends d t.0 t.1 run_id mount o w.outside)

  pub transfer-Secures :
      (d : Distribution) (t : ℕ × TokenTransfer)
      → Secures (Sent t) (transfer_mock_usdfc mint (params_of mint d t))
  unfolding transfer_mock_usdfc get_run_id
  transfer-Secures d t = λ w. inr (
      Secures-later (Sent t) (mount_workspace mint)
        (run_transfer mint (params_of mint d t) w.run_id) (run_transfer-Secures d t w.run_id))

  pub threads-Stable :
      (d : Distribution) (t : ℕ × TokenTransfer) (batch : List (ℕ × TokenTransfer))
      → All (Stable (OrError (Sent t))) (map (token_thread mint d) batch)
  threads-Stable d t [] = tt
  threads-Stable d t (s ∷ batch) = (
    reporting-Stable (Sent t) (not_transferred mint d s.1)
        (transfer_mock_usdfc mint (params_of mint d s)) (transfer-Stable t (params_of mint d s)),
    threads-Stable d t batch,
  )

  mined-Sent :
      (t : ℕ × TokenTransfer) (d : Distribution) (batches : List (List (ℕ × TokenTransfer)))
      (w w' : World X)
      → run (wait_mined mint d batches) w ≡ (ok tt, w')
      → Sent t w
      → Sent t w'
  unfolding run sleep
  mined-Sent t d [] w w' e h = subst (λ v. Sent t v) (ap (λ s. s.1) e) h
  mined-Sent t d (batch ∷ batches) w w' e h = subst (SentThere t) (ap (λ s. s.1.outside) e) h

  pub mined-OrError :
      (t : ℕ × TokenTransfer) (d : Distribution) (batches : List (List (ℕ × TokenTransfer)))
      (w w' : World X) (es : List Failure)
      → run (wait_mined mint d batches) w ≡ (ok tt, w')
      → OrError (Sent t) (w, es)
      → OrError (Sent t) (w', es)
  mined-OrError t d batches w w' es e h = elim h [
    | inl n ↦ inl n
    | inr s ↦ inr (mined-Sent t d batches w w' e s)
  ]

  -- What is sent stays sent, whatever the later batches do.
  pub RunsBatches-OrError :
      (t : ℕ × TokenTransfer) (d : Distribution) {batches : List (List (ℕ × TokenTransfer))}
      {w w' : World X} {es es' : List Failure} {r : Outcome Failure (Unit {0})}
      → RunsBatches mint d batches w es w' es' r
      → r ≡ ok tt
      → OrError (Sent t) (w, es)
      → OrError (Sent t) (w', es')
  RunsBatches-OrError t d (no_more w es) e h = h
  RunsBatches-OrError t d (thread_panics b bs w w' es es' f j) e h = cc
  RunsBatches-OrError t d (completed b bs w w₁ w₂ w' es es₁ es' r j mined rest) e h =
      RunsBatches-OrError t d rest e (
        mined-OrError t d bs w₁ w₂ es₁ mined
          (JoinsThreads-OrError (Sent t) j (threads-Stable d t b) (inl h)))
