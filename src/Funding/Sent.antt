-- ===== src/Funding/Sent.antt =====
-- src/commands/start/eth_acc_funding: what the transfers have done on the chain when the step succeeds.
use mathlib.Core.Path.{subst}
use foc_devnet.Base.{
  ◌≡◌, ◌⊎◌, inl, inr, refl, sym, ap, ℕ, Bool, true, false, if◌then◌else◌, Outcome, ok, err, panic,
  List, [], ◌∷◌, map, All,
}
use foc_devnet.Base.Results
use foc_devnet.Base.Results.{ok-injective}
use foc_devnet.Text.{Text, codes}
use foc_devnet.Program.{run, pure, raise, then_do}
use foc_devnet.Program.Secures.{
  Secures, Secures-later, Stable-bind, Stable-if, OrError, reporting-Stable, reporting-Will,
  JoinsThreads-holds,
}
use foc_devnet.Program.Threads.{Stable, Any, JoinsThreads}
use foc_devnet.Context.{World, put}
use foc_devnet.Context.Laws.{save-outside}
use foc_devnet.Containers.{lotus_container_name}
use foc_devnet.Host.Chain.{sleep}
use foc_devnet.Shell.{Failure, Output}
use foc_devnet.Shell.Log.{on_outside, log_command}
use foc_devnet.Host.Steady.{Steady, log_command-Stable}
use foc_devnet.Funding.{Node}
use foc_devnet.Funding.Transfers.{
  Transfer, send_args, transfer_fil, transfer_thread, TransfersFil, thread_panics, all_joined,
  without_error, confirm,
}

-- What is documented of `lotus send`: if it succeeds, the amount is sent; and no command of Docker
-- takes back what was sent.
pub record Chain {X F : Type 0} (node : Node X F) (sent : Text → ℕ → X → Type 0) : Type 0 where
  pub send_sends :
      (container from : Text) (t : Transfer) (o : Output) (x : X)
      → (node.host.launch (codes "docker") (send_args container from t) x).0 ≡ ok o
      → o.success ≡ true
      → sent t.to_addr t.amount (node.host.launch (codes "docker") (send_args container from t) x).1
  pub keeps_sent :
      (args : List Text) (to : Text) (amount : ℕ) (x : X)
      → sent to amount x
      → sent to amount (node.host.launch (codes "docker") args x).1

module _ {X F : Type 0} (node : Node X F) (G : World X → Type 0)
    (steady : Steady node.host.launch G) where
  pub transfer_fil-Stable :
      (container from : Text) (t : Transfer) → Stable G (transfer_fil node container from t)
  unfolding transfer_fil on_outside
  transfer_fil-Stable container from t =
      Stable-bind G (log_command node.host.launch (codes "docker") (send_args container from t) _) _
        (log_command-Stable G steady (send_args container from t) _)
        (λ u. λ w. (
          steady.launch_keeps (send_args container from t) w,
          after_launch _ _
              (node.host.launch (codes "docker") (send_args container from t) w.outside).0,
        ))
    where
      after_launch :
          (f : Failure → Failure) (g : Output → Failure) (r : Outcome Failure Output)
          → Stable {W = World X} {E = Failure} G
              (then_do (Results.map_err f r) (λ o. if o.success then pure tt else raise (g o)))
      after_launch f g (ok o) = Stable-if G o.success _ _ tt tt
      after_launch f g (err e) = tt
      after_launch f g panic = tt

module _ {X F : Type 0} (node : Node X F) {sent : Text → ℕ → X → Type 0}
    (chain : Chain node sent) where
  abbrev pub Sent : Transfer → World X → Type 0
  Sent t w = sent t.to_addr t.amount w.outside

  Sent-Steady : (t : Transfer) → Steady node.host.launch (Sent t)
  unfolding put
  Sent-Steady t = record {
    insert_keeps = λ k c w h. h;
    save_keeps = λ w h. subst (λ x. sent t.to_addr t.amount x) (sym (save-outside w)) h;
    sleep_keeps = λ n w h. h;
    launch_keeps = λ args w. chain.keeps_sent args t.to_addr t.amount w.outside;
  }

  sends :
      (f : Failure → Failure) (g : Output → Failure) (t : Transfer) (w : World X)
      (p : Outcome Failure Output × X)
      → ((o : Output) → p.0 ≡ ok o → o.success ≡ true → sent t.to_addr t.amount p.1)
      → Sent t (record w { outside = p.1 })
        ⊎ Secures {E = Failure}
            (Sent t)
            (then_do (Results.map_err f p.0) (λ o. if o.success then pure tt else raise (g o)))
  sends f g t w (ok o, x) law = by_success o.success refl
    where
      by_success :
          (b : Bool)
          → o.success ≡ b
          → sent t.to_addr t.amount x
            ⊎ Secures {E = Failure} (Sent t) (if b then pure tt else raise (g o))
      by_success true e = inl (law o refl e)
      by_success false e = inr tt
  sends f g t w (err e, x) law = inr tt
  sends f g t w (panic, x) law = inr tt

  transfer_fil-Secures :
      (container from : Text) (t : Transfer) → Secures (Sent t) (transfer_fil node container from t)
  unfolding transfer_fil on_outside
  transfer_fil-Secures container from t =
      Secures-later (Sent t)
        (log_command node.host.launch (codes "docker") (send_args container from t) _) _
        (λ u. λ w.
          sends _ _ t w (node.host.launch (codes "docker") (send_args container from t) w.outside)
            (λ o. chain.send_sends container from t o w.outside))

  -- Every thread of the transfers leaves true what has been sent.
  threads-Stable :
      (container from : Text) (t : Transfer) (transfers : List Transfer)
      → All (Stable (OrError (Sent t))) (map (transfer_thread node container from) transfers)
  threads-Stable container from t [] = tt
  threads-Stable container from t (s ∷ transfers) = (
    reporting-Stable (Sent t) (λ e. e) (transfer_fil node container from s)
        (transfer_fil-Stable node (Sent t) (Sent-Steady t) container from s),
    threads-Stable container from t transfers,
  )

  -- Each transfer of a list has its thread.
  transfers-Sent :
      (container from : Text) (w w' : World X) (all transfers : List Transfer)
      → ((t : Transfer)
          → Any (OrError (Sent t)) (map (transfer_thread node container from) transfers)
          → Sent t w')
      → All (λ t. Sent t w') transfers
  transfers-Sent container from w w' all [] k = tt
  transfers-Sent container from w w' all (t ∷ transfers) k = (
    k t (
        inl (
          reporting-Will (Sent t) (λ e. e) (transfer_fil node container from t)
            (transfer_fil-Secures container from t))),
    transfers-Sent container from w w' all transfers (λ s any. k s (inr any)),
  )

  no_errors :
      (from what : Text) (transfers : List Transfer) (w w₁ : World X) (panicked : Failure)
      (errors : List Failure)
      → without_error what errors ≡ ok tt
      → JoinsThreads panicked
          (map (transfer_thread node (lotus_container_name w.run_id) from) transfers)
          w
          []
          w₁
          errors
          (ok tt)
      → All (λ t. Sent t w₁) transfers
  no_errors from what transfers w w₁ panicked [] clean j =
      transfers-Sent (lotus_container_name w.run_id) from w w₁ transfers transfers λ t any.
        JoinsThreads-holds (Sent t) j
          (threads-Stable (lotus_container_name w.run_id) from t transfers) (inr any)
  no_errors from what transfers w w₁ panicked (e ∷ errors) clean j = cc

  after_wait :
      (transfers : List Transfer) (w₁ w' : World X)
      → run confirm w₁ ≡ (ok tt, w')
      → All (λ t. Sent t w₁) transfers
      → All (λ t. Sent t w') transfers
  unfolding run sleep
  after_wait [] w₁ w' e h = tt
  after_wait (t ∷ transfers) w₁ w' e h = (
    subst (λ x. sent t.to_addr t.amount x) (ap (λ s. s.1.outside) e) h.0,
    after_wait transfers w₁ w' e h.1,
  )

  pub TransfersFil-Sent :
      (from : Text) (transfers : List Transfer) (w w' : World X) {r : Outcome Failure (Unit {0})}
      → TransfersFil node from transfers w w' r
      → r ≡ ok tt
      → All (λ t. Sent t w') transfers
  TransfersFil-Sent from transfers w w' (thread_panics w₂ errors e j) h = cc
  TransfersFil-Sent from transfers w w' (all_joined w₁ w₂ errors j waited) h =
      after_wait transfers w₁ w' waited (no_errors from _ transfers w w₁ _ errors h j)
