-- ===== src/Funding/Kept.antt =====
-- src/commands/start/eth_acc_funding/eth_acc_funding_step.rs: what the step leaves in the context.
use mathlib.Core.Path.{subst}
use foc_devnet.Base.{
  ◌≡◌, inl, inr, refl, sym, ap, ◌∙◌, ℕ, true, false, Option, none, some, if◌then◌else◌, Outcome, ok,
  List, [], ◌∷◌, map, All, Bool-cases,
}
use foc_devnet.Text.{Text, text_eq}
use foc_devnet.Dict.{lookup, insert, lookup-insert, lookup-insert_self}
use foc_devnet.Program.{Program, ret, act, run, pure}
use foc_devnet.Program.Loops.{run_bind-ok, run-pure-ok, bind-run, run-ret}
use foc_devnet.Program.Threads.{Stable, JoinsThreads}
use foc_devnet.Program.Secures.{
  run-Stable, Stable-bind, OrError, reporting-Stable, JoinsThreads-holds,
}
use foc_devnet.Context.{World, put, set, get}
use foc_devnet.Context.Laws.{save-context}
use foc_devnet.Containers.{lotus_container_name}
use foc_devnet.Host.{KeyInfo}
use foc_devnet.Base.Results.{bind-ok, ok-injective}
use foc_devnet.Host.Files.{load_keys, find_key, ok_or}
use foc_devnet.Host.Steady.{Steady, set-Stable, sleep-Stable}
use foc_devnet.Shell.{Launch, Failure}
use foc_devnet.Shell.Log.{on_outside}
use foc_devnet.Funding.{
  Node, named, address_key, eth_address_key, active_accounts, fevm_accounts_prefunded,
}
use foc_devnet.Funding.Faucet.{import_global_faucet_key}
use foc_devnet.Funding.Transfers.{
  Transfer, addresses_of, store_addresses, prepare_transfers, transfer_thread, transfer_fil,
  TransfersFil, thread_panics, all_joined, without_error, confirm,
}
use foc_devnet.Funding.Step.{
  is_some, has_addresses, check_existing_funding, faucet_key, prepare_funding,
}
use foc_devnet.Funding.Sent.{transfer_fil-Stable}

module _ {X : Type 0} where
  -- The context has a value for the key.
  abbrev pub Has : Text → World X → Type 0
  Has k w = is_some (lookup k w.state) ≡ true

  abbrev pub HasAddresses : List (Text × ℕ) → World X → Type 0
  HasAddresses accounts w = All (λ a. Has (address_key a.0) w) accounts

  Has-insert : (k j v : Text) (w : World X) → Has k w → Has k (put (insert j v) w)
  unfolding put
  Has-insert k j v w h = elim (Bool-cases (text_eq j k)) [
    | inl same ↦ rw (lookup-insert, same)
    | inr other ↦ rw (lookup-insert, other) h
  ]

  pub Has-Steady : (launch : Launch X) (k : Text) → Steady launch (Has k)
  Has-Steady launch k = record {
    insert_keeps = λ j v w h. Has-insert k j v w h;
    save_keeps = λ w h. subst (λ c. is_some (lookup k c.state) ≡ true) (sym (save-context w)) h;
    sleep_keeps = λ n w h. h;
    launch_keeps = λ args w h. h;
  }

  set-Has : (k v : Text) (w : World X) → Has k (run (set {E = Failure} k v) w).1
  unfolding set run put
  set-Has k v w =
      subst (λ c. is_some (lookup k c.state) ≡ true) (sym (save-context (put (insert k v) w)))
        (rw lookup-insert_self)

  -- An account with its address is found to be funded.
  has_addresses_lem :
      (accounts : List (Text × ℕ)) (w : World X)
      → HasAddresses accounts w
      → run (has_addresses accounts) w ≡ (ok true, w)
  unfolding has_addresses get run
  has_addresses_lem [] w h = refl
  has_addresses_lem ((name, amount) ∷ accounts) w h =
      ap (λ b. run (if b then has_addresses {X = X} accounts else pure false) w) h.0
      ∙ has_addresses_lem accounts w h.1

  pub check_existing_funding_lem :
      (n : ℕ) (w : World X)
      → Has faucet_key w
      → HasAddresses (active_accounts n fevm_accounts_prefunded) w
      → run (check_existing_funding n) w ≡ (ok true, w)
  unfolding check_existing_funding get run
  check_existing_funding_lem n w h hs =
      bind-run (has_addresses (active_accounts n fevm_accounts_prefunded)) _ true w w
        (has_addresses_lem (active_accounts n fevm_accounts_prefunded) w hs)
      ∙ rw h

-- The address of the transfer is the Filecoin address of the first key with the account's name.
abbrev pub Addressed : List KeyInfo → Transfer → Type 0
Addressed keys t =
    (k : KeyInfo) × (find_key (named t.account_name) keys ≡ some k)
    × (k.filecoin_address ≡ some t.to_addr)

module _ {E A : Type 0} where
  pub ok_or-ok : (e : E) (o : Option A) {a : A} → ok_or e o ≡ ok a → o ≡ some a
  ok_or-ok e none h = cc
  ok_or-ok e (some b) h = ap some (ok-injective h)

addresses_of_lem :
    (keys : List KeyInfo) (name f4 eth : Text)
    → addresses_of keys name ≡ ok (f4, eth)
    → (k : KeyInfo) × (find_key (named name) keys ≡ some k) × (k.filecoin_address ≡ some f4)
unfolding addresses_of
addresses_of_lem keys name f4 eth h =
    let (k, found, h₁) = bind-ok (ok_or _ (find_key (named name) keys)) _ h in
    let (f, has, h₂) = bind-ok (ok_or _ k.filecoin_address) _ h₁ in
    let (e, has_eth, h₃) = bind-ok (ok_or _ k.eth_address) _ h₂ in
    (
      k,
      ok_or-ok _ (find_key (named name) keys) found,
      ok_or-ok _ k.filecoin_address has ∙ ap (λ p. some p.0) (ok-injective h₃),
    )

-- What stands of an account in its transfer.
abbrev pub account_of : Transfer → Text × ℕ
account_of t = (t.account_name, t.amount)

abbrev transfer_of : Text → ℕ → Text → Transfer
transfer_of name amount f4 = record { account_name = name; to_addr = f4; amount = amount }

module _ {X : Type 0} (G : World X → Type 0) {launch : Launch X} (steady : Steady launch G) where
  store_addresses-Stable : (name f4 eth : Text) → Stable G (store_addresses name f4 eth)
  store_addresses-Stable name f4 eth =
      Stable-bind G (set (address_key name) f4) _ (set-Stable G steady (address_key name) f4)
        (λ u. set-Stable G steady (eth_address_key name) eth)

  prepare_transfers-Stable :
      (keys : List KeyInfo) (accounts : List (Text × ℕ))
      → Stable G (prepare_transfers keys accounts)
  unfolding prepare_transfers
  prepare_transfers-Stable keys [] = tt
  prepare_transfers-Stable keys ((name, amount) ∷ accounts) =
      Stable-bind {E = Failure} {A = Text × Text} G (ret (addresses_of keys name)) _ tt λ (f4, eth).
        Stable-bind G (store_addresses name f4 eth) _ (store_addresses-Stable name f4 eth) λ u.
          Stable-bind G (prepare_transfers keys accounts) _ (prepare_transfers-Stable keys accounts)
            λ ts. tt

module _ {X E A : Type 0} where
  pub run-on_outside :
      (m : Program X E A) {a : A} (w w' : World X)
      → run (on_outside m) w ≡ (ok a, w')
      → run m w.outside ≡ (ok a, w'.outside)
  unfolding run on_outside
  run-on_outside (ret r) w w' h = λ i. ((h i).0, (h i).1.outside)
  run-on_outside (act u k) w w' h =
      run-on_outside (k w.outside) (record w { outside = u w.outside }) w' h

module _ {X : Type 0} (launch : Launch X) where
  store_addresses-Has :
      (name f4 eth : Text) (u : Unit {0}) (w w' : World X)
      → run (store_addresses name f4 eth) w ≡ (ok u, w')
      → Has (address_key name) w'
  store_addresses-Has name f4 eth u w w' h =
      let (v, w₁, e₁, h₁) = run_bind-ok (set (address_key name) f4) _ w w' h in
      subst (λ r. Has (address_key name) r.1) h₁
        (run-Stable (Has (address_key name)) (set (eth_address_key name) eth) w₁
          (set-Stable _ (Has-Steady launch (address_key name)) (eth_address_key name) eth)
          (subst (λ r. Has (address_key name) r.1) e₁ (set-Has (address_key name) f4 w)))

  -- The accounts that are prepared are those that are asked for, each with an address in the context.
  prepare_transfers_lem :
      (keys : List KeyInfo) (accounts : List (Text × ℕ)) (ts : List Transfer) (w w' : World X)
      → run (prepare_transfers keys accounts) w ≡ (ok ts, w')
      → (map account_of ts ≡ accounts) × HasAddresses accounts w' × All (Addressed keys) ts
  unfolding prepare_transfers
  prepare_transfers_lem keys [] ts w w' h =
      let made = (run-pure-ok w w' h).0 in
      (ap (map account_of) (sym made), tt, subst (All (Addressed keys)) made tt)
  prepare_transfers_lem keys ((name, amount) ∷ accounts) ts w w' h =
      let (addresses, w₁, e₁, h₁) = run_bind-ok (ret (addresses_of keys name)) _ w w' h in
      let (u, w₂, e₂, h₂) = run_bind-ok (store_addresses name addresses.0 addresses.1) _ w₁ w' h₁ in
      let (rest, w₃, e₃, h₃) = run_bind-ok (prepare_transfers keys accounts) _ w₂ w' h₂ in
      let (made, at) = run-pure-ok w₃ w' h₃ in
      let (names, has, addressed) = prepare_transfers_lem keys accounts rest w₂ w₃ e₃ in
      let read = run-ret (addresses_of keys name) w w₁ e₁ in
      let first = store_addresses-Has name addresses.0 addresses.1 u w₁ w₂ e₂ in
      let later =
        run-Stable (Has (address_key name)) (prepare_transfers keys accounts) w₂
          (prepare_transfers-Stable _ (Has-Steady launch (address_key name)) keys accounts) first in
      (
        ap (map account_of) (sym made) ∙ ap (λ l. (name, amount) ∷ l) names,
        subst (HasAddresses ((name, amount) ∷ accounts)) at
            (subst (λ r. Has (address_key name) r.1) e₃ later, has),
        subst (All (Addressed keys)) made
            (addresses_of_lem keys name addresses.0 addresses.1 read, addressed),
      )

module _ {X F : Type 0} (node : Node X F) (n : ℕ) where
  pub prepare_funding_lem :
      (from : Text) (ts : List Transfer) (w w' : World X)
      → run (prepare_funding node n) w ≡ (ok (from, ts), w')
      → (map account_of ts ≡ active_accounts n fevm_accounts_prefunded)
        × Has faucet_key w'
        × HasAddresses (active_accounts n fevm_accounts_prefunded) w'
        × ((keys : List KeyInfo) × (x : X) × (run (load_keys node.host) w.outside ≡ (ok keys, x))
            × All (Addressed keys) ts)
  unfolding prepare_funding
  prepare_funding_lem from ts w w' h =
      let launch = node.host.launch in
      let accounts = active_accounts n fevm_accounts_prefunded in
      let (keys, w₁, e₁, h₁) = run_bind-ok (on_outside (load_keys node.host)) _ w w' h in
      let (faucet, w₂, e₂, h₂) = run_bind-ok (import_global_faucet_key node) _ w₁ w' h₁ in
      let (u, w₃, e₃, h₃) = run_bind-ok (set faucet_key faucet) _ w₂ w' h₂ in
      let (rest, w₄, e₄, h₄) = run_bind-ok (prepare_transfers keys accounts) _ w₃ w' h₃ in
      let (made, at) = run-pure-ok w₄ w' h₄ in
      let (names, has, addressed) = prepare_transfers_lem launch keys accounts rest w₃ w₄ e₄ in
      let found = subst (λ r. Has faucet_key r.1) e₃ (set-Has faucet_key faucet w₂) in
      let kept =
        run-Stable (Has faucet_key) (prepare_transfers keys accounts) w₃
          (prepare_transfers-Stable _ (Has-Steady launch faucet_key) keys accounts) found in
      (
        ap (λ p. map account_of p.1) (sym made) ∙ names,
        subst (Has faucet_key) at (subst (λ r. Has faucet_key r.1) e₄ kept),
        subst (HasAddresses accounts) at has,
        (
          keys,
          w₁.outside,
          run-on_outside (load_keys node.host) w w₁ e₁,
          subst (All (Addressed keys)) (ap (λ p. p.1) made) addressed,
        ),
      )

  threads-Stable :
      (G : World X → Type 0) (steady : Steady node.host.launch G) (container from : Text)
      (transfers : List Transfer)
      → All (Stable (OrError G)) (map (transfer_thread node container from) transfers)
  threads-Stable G steady container from [] = tt
  threads-Stable G steady container from (t ∷ transfers) = (
    reporting-Stable G (λ e. e) (transfer_fil node container from t)
        (transfer_fil-Stable node G steady container from t),
    threads-Stable G steady container from transfers,
  )

  joined-Holds :
      (G : World X → Type 0) (steady : Steady node.host.launch G) (from what : Text)
      (transfers : List Transfer) (w w₁ : World X) (panicked : Failure) (errors : List Failure)
      → without_error what errors ≡ ok tt
      → JoinsThreads panicked
          (map (transfer_thread node (lotus_container_name w.run_id) from) transfers)
          w
          []
          w₁
          errors
          (ok tt)
      → G w
      → G w₁
  joined-Holds G steady from what transfers w w₁ panicked [] clean j g =
      JoinsThreads-holds G j
        (threads-Stable G steady (lotus_container_name w.run_id) from transfers) (inl g)
  joined-Holds G steady from what transfers w w₁ panicked (e ∷ errors) clean j g = cc

  -- Transfers that succeed leave true what is steady.
  pub TransfersFil-Holds :
      (G : World X → Type 0) (steady : Steady node.host.launch G) (from : Text)
      (transfers : List Transfer) (w w' : World X) {r : Outcome Failure (Unit {0})}
      → TransfersFil node from transfers w w' r
      → r ≡ ok tt
      → G w
      → G w'
  TransfersFil-Holds G steady from transfers w w' (thread_panics w₂ errors e j) h g = cc
  TransfersFil-Holds G steady from transfers w w' (all_joined w₁ w₂ errors j waited) h g =
      subst (λ r. G r.1) waited
        (run-Stable G confirm w₁ (sleep-Stable G steady _)
          (joined-Holds G steady from _ transfers w w₁ _ errors h j g))

  pub each-Holds :
      (accounts : List (Text × ℕ)) (w w' : World X)
      → ((k : Text) → Has k w → Has k w')
      → HasAddresses accounts w
      → HasAddresses accounts w'
  each-Holds [] w w' k h = tt
  each-Holds ((name, amount) ∷ accounts) w w' k h =
      (k (address_key name) h.0, each-Holds accounts w w' k h.1)
