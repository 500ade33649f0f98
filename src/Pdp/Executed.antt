-- ===== src/Pdp/Executed.antt =====
-- src/commands/start/pdp_service_provider/pdp_service_provider_step.rs: what a successful `execute`
-- leaves in the context about each provider.
use foc_devnet.Base.{ℕ, ◌≡◌, ◌≢◌, refl, sym, ap, ◌∙◌, List, [], ◌∷◌, All, ok}
use mathlib.Core.Path.{subst}
use foc_devnet.Text.{Text, codes, to_string, show_bool, text_eq, text_eq_iff}
use foc_devnet.Dict.{Dict}
use foc_devnet.Program.{Program, run, ret, pure, Keeps}
use foc_devnet.Program.Success.{run-Keeps}
use foc_devnet.Program.Loops.{range, for_each, run_bind-elim, run-pure-ok}
use foc_devnet.Program.Caught.{Keeps-for_each}
use foc_devnet.Context.{World}
use foc_devnet.Shell.{Failure}
use foc_devnet.Host.{Host}
use foc_devnet.Host.Chain.{
  check_lotus_running, get_run_id, get_lotus_rpc_url, load_contract_addresses,
}
use foc_devnet.Host.Frame.{Of}
use foc_devnet.Pdp.Providers.{
  Addresses, SpData, Registered, register_all, registration_errors, store_provider_id,
  collect_sp_data, get_required_addresses,
}
use foc_devnet.Pdp.Step.{
  gather, register_and_store, execute, registry_of, warm_storage_of, usdfc_of,
}
use foc_devnet.Pdp.Entries.{Entry-Closed, Entry-insert, HasId, HasAddress, ApprovedIs, Ready}
use foc_devnet.Pdp.Loop.{Stable, register_all-Keeps}
use foc_devnet.Pdp.Registered.{Fits, Paired, register_all-ok}
use foc_devnet.Pdp.Stored.{Listed, collect_sp_data-ok, stored-HasId, store_provider_id-Keeps}
use foc_devnet.Pdp.Matching.{All-Listed, All-Paired, Paired-small, All-zip}

no_errors : (errors : List Failure) → registration_errors errors ≡ ok tt → errors ≡ []
no_errors [] h = refl
no_errors (e ∷ errors) h = cc h

module _ {X : Type 0} (host : Host X) where
  collected :
      (active n : ℕ) (found ds : List SpData) (a b : Addresses) (w w₁ v : World X)
      → run (collect_sp_data n (range 1 active)) w ≡ (ok found, w₁)
      → run (pure {E = Failure} {A = Addresses × List SpData} (a, found)) w₁ ≡ (ok (b, ds), v)
      → Listed (range 1 active) ds × All (Fits n) ds × All (λ d. HasAddress d.sp_index v.state) ds
  collected active n found ds a b w w₁ v r h =
      let (same, at) = run-pure-ok w₁ v h in
      let (listed, fits, there, here) = collect_sp_data-ok n (range 1 active) found w w₁ r in
      subst
        (λ ds.
          Listed (range 1 active) ds
          × All (Fits n) ds
          × All (λ d. HasAddress d.sp_index v.state) ds)
        (ap (λ p. p.1) same)
        (
          listed,
          fits,
          subst (λ u. All (λ d. HasAddress d.sp_index u.state) found) (here ∙ at) there,
        )

  gather-ok :
      (active n : ℕ) (a : Addresses) (ds : List SpData) (w v : World X)
      → run (gather host active n) w ≡ (ok (a, ds), v)
      → Listed (range 1 active) ds × All (Fits n) ds × All (λ d. HasAddress d.sp_index v.state) ds
  unfolding gather
  gather-ok active n a ds w v h =
      run_bind-elim (check_lotus_running host) _ (a, ds) w v h
        λ u w₁ r₁ h₁.
          run_bind-elim get_run_id _ (a, ds) w₁ v h₁
            λ run_id w₂ r₂ h₂.
              run_bind-elim get_lotus_rpc_url _ (a, ds) w₂ v h₂
                λ url w₃ r₃ h₃.
                  run_bind-elim (load_contract_addresses host) _ (a, ds) w₃ v h₃
                    λ addresses w₄ r₄ h₄.
                      run_bind-elim (ret (registry_of addresses)) _ (a, ds) w₄ v h₄
                        λ b w₅ r₅ h₅.
                          run_bind-elim (ret (warm_storage_of addresses)) _ (a, ds) w₅ v h₅
                            λ c w₆ r₆ h₆.
                              run_bind-elim (ret (usdfc_of addresses)) _ (a, ds) w₆ v h₆
                                λ d w₇ r₇ h₇.
                                  run_bind-elim get_required_addresses _ (a, ds) w₇ v h₇
                                    λ e w₈ r₈ h₈.
                                      run_bind-elim (collect_sp_data n (range 1 active)) _ (a, ds)
                                        w₈ v h₈
                                        λ found w₉ r₉ h₉.
                                          collected active n found ds _ a w₈ w₉ v r₉ h₉

suffixes-apart : codes "_is_approved" ≢ codes "_provider_id"
unfolding text_eq
suffixes-apart e = cc ((text_eq_iff (codes "_is_approved") (codes "_provider_id")).1 e)

-- Keys with another suffix
module _ {X : Type 0} (host : Host X) (run_id : Text) where
  address-registered :
      (a : Addresses) (i : ℕ) (ds : List SpData)
      → All (Stable host a (HasAddress i) (Entry-Closed _ i "_address")) ds
  address-registered a i [] = tt
  address-registered a i (d ∷ ds) = (
    λ m.
        Entry-insert _ i d.sp_index "_address" "_is_approved" (show_bool d.should_approve) m refl
          refl (λ e f. tt),
    address-registered a i ds,
  )

  address-stored :
      (i : ℕ) (ids : List (ℕ × ℕ))
      → All (λ p. Keeps (Of (HasAddress i)) (store_provider_id host run_id p)) ids
  address-stored i [] = tt
  address-stored i ((j, id) ∷ ids) = (
    store_provider_id-Keeps host run_id (HasAddress i) j id
        (λ m. Entry-insert _ i j "_address" "_provider_id" (to_string id) m refl refl (λ e f. tt)),
    address-stored i ids,
  )

  approved-stored :
      (n i : ℕ) (ids : List (ℕ × ℕ))
      → All (λ p. Keeps (Of (ApprovedIs n i)) (store_provider_id host run_id p)) ids
  approved-stored n i [] = tt
  approved-stored n i ((j, id) ∷ ids) = (
    store_provider_id-Keeps host run_id (ApprovedIs n i) j id (λ m.
        Entry-insert _ i j "_is_approved" "_provider_id" (to_string id) m refl refl
          (λ e f. absurd (suffixes-apart f))),
    approved-stored n i ids,
  )

-- What is kept of each is kept of all.
All-map :
    {A : Type 0} (P Q : A → Type 0) (xs : List A) → ((x : A) → P x → Q x) → All P xs → All Q xs
All-map P Q [] f h = tt
All-map P Q (x ∷ xs) f h = (f x h.0, All-map P Q xs f h.1)

module _ {X A : Type 0} (Q : Dict → Type 0) where
  kept :
      (m : Program (World X) Failure A) (a : A) (w v : World X)
      → Keeps (Of Q) m
      → run m w ≡ (ok a, v)
      → Q w.state
      → Q v.state
  kept m a w v keeps ran h = subst (Of Q) (ap (λ s. s.1) ran) (run-Keeps (Of Q) m w keeps h)

abbrev nothing_yet : Registered
nothing_yet = record { errors = []; provider_ids = [] }

module _ {X : Type 0} (host : Host X) (active n : ℕ) (a : Addresses) (ds : List SpData)
    (listed : Listed (range 1 active) ds) where
  stored-Ready :
      (ids : List (ℕ × ℕ)) (w v : World X)
      → Paired ds ids
      → All (λ d. HasAddress d.sp_index w.state) ds
      → All (λ d. ApprovedIs n d.sp_index w.state) ds
      → run (for_each ids (store_provider_id host a.run_id)) w ≡ (ok tt, v)
      → All (λ i. Ready n i v.state) (range 1 active)
  stored-Ready ids w v paired there approved h =
      let store = for_each ids (store_provider_id host a.run_id) in
      All-zip (λ i. HasAddress i v.state) (λ i. HasId i v.state) (λ i. ApprovedIs n i v.state)
        (range 1 active)
        (All-Listed (λ i. HasAddress i v.state) (range 1 active) ds listed
          (All-map _ _ ds
            (λ d.
              kept (HasAddress d.sp_index) store tt w v
                (Keeps-for_each _ ids _ (address-stored host a.run_id d.sp_index ids)) h)
            there))
        (All-Listed (λ i. HasId i v.state) (range 1 active) ds listed
          (All-Paired (λ i. HasId i v.state) ds ids paired
            (stored-HasId host a.run_id ids w v (Paired-small ds ids paired) h)))
        (All-Listed (λ i. ApprovedIs n i v.state) (range 1 active) ds listed
          (All-map _ _ ds
            (λ d.
              kept (ApprovedIs n d.sp_index) store tt w v
                (Keeps-for_each _ ids _ (approved-stored host a.run_id n d.sp_index ids)) h)
            approved))

  no_error-Ready :
      (done : Registered) (w w₁ w₂ v : World X)
      → All (Fits n) ds
      → All (λ d. HasAddress d.sp_index w.state) ds
      → run (register_all host a ds nothing_yet) w ≡ (ok done, w₁)
      → run (ret (registration_errors done.errors)) w₁ ≡ (ok tt, w₂)
      → run (for_each done.provider_ids (store_provider_id host a.run_id)) w₂ ≡ (ok tt, v)
      → All (λ i. Ready n i v.state) (range 1 active)
  unfolding run
  no_error-Ready done w w₁ w₂ v fits there r₁ r₂ h =
      let (clean, ids, all_ids, paired, approved) =
        register_all-ok host a n ds nothing_yet done w w₁ fits r₁
          (no_errors done.errors (ap (λ s. s.0) r₂)) in
      stored-Ready ids w₁ v paired
        (All-map _ _ ds
          (λ d.
            kept (HasAddress d.sp_index) (register_all host a ds nothing_yet) done w w₁
              (register_all-Keeps host a (HasAddress d.sp_index)
                (Entry-Closed _ d.sp_index "_address") ds nothing_yet
                (address-registered host a.run_id a d.sp_index ds))
              r₁)
          there)
        approved
        (ap (λ l. run (for_each l (store_provider_id host a.run_id)) w₁) (sym all_ids)
          ∙ ap (run (for_each done.provider_ids (store_provider_id host a.run_id)))
              (ap (λ s. s.1) r₂)
          ∙ h)

  register_and_store-Ready :
      (w v : World X)
      → All (Fits n) ds
      → All (λ d. HasAddress d.sp_index w.state) ds
      → run (register_and_store host a ds) w ≡ (ok tt, v)
      → All (λ i. Ready n i v.state) (range 1 active)
  unfolding register_and_store
  register_and_store-Ready w v fits there h =
      run_bind-elim (register_all host a ds nothing_yet) _ tt w v h λ done w₁ r₁ h₁.
        run_bind-elim (ret (registration_errors done.errors)) _ tt w₁ v h₁
          λ u w₂ r₂ h₂. no_error-Ready done w w₁ w₂ v fits there r₁ r₂ h₂

module _ {X : Type 0} (host : Host X) where
  -- After an `execute` that succeeds, the context has for each active provider its address, an ID that
  -- is a `u64` in decimal, and whether it is one of the first `n`, those that are approved.
  pub execute-Ready :
      (active n : ℕ) (w v : World X)
      → run (execute host active n) w ≡ (ok tt, v)
      → All (λ i. Ready n i v.state) (range 1 active)
  unfolding execute
  execute-Ready active n w v h = run_bind-elim (gather host active n) _ tt w v h λ (a, ds) w₁ r₁ h₁.
      let (listed, fits, there) = gather-ok host active n a ds w w₁ r₁ in
      register_and_store-Ready host active n a ds listed w₁ v fits there h₁
