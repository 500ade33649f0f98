-- ===== src/Pdp/Stored.antt =====
-- src/commands/start/pdp_service_provider/pdp_service_provider_step.rs: the IDs that `execute` stores,
-- and the data that it begins with.
use foc_devnet.Base.{
  ℕ, ◌≤◌, ◌≡◌, refl, sym, ap, ◌∙◌, leb, Option, none, some, List, [], ◌∷◌, All, ok,
}
use foc_devnet.Base.Results.{ok-injective}
use mathlib.Core.Path.{subst}
use foc_devnet.Text.{Text, to_string, max_u64, max_u16}
use foc_devnet.Dict.{Dict, lookup, insert}
use foc_devnet.Program.{run, ret, Keeps, Keeps-bind}
use foc_devnet.Program.Success.{run-Keeps}
use foc_devnet.Program.Loops.{for_each, run_bind-ok, run-pure-ok}
use foc_devnet.Program.Caught.{Keeps-for_each}
use foc_devnet.Context.{World, get}
use foc_devnet.Shell.{Failure, message}
use foc_devnet.Shell.Log.{on_outside}
use foc_devnet.Host.{Host}
use foc_devnet.Host.Files.{ok_or, save_provider_id}
use foc_devnet.Host.Chain.{require, number}
use foc_devnet.Host.Frame.{Of, on_outside-Keeps, set-Keeps}
use foc_devnet.Pdp.Providers.{
  SpData, sp_data, collect_sp_data, store_provider_id, sp_key, not_in_context, port_not_in_context,
}
use foc_devnet.Pdp.Entries.{Entry-insert, HasId, HasAddress, IsId}
use foc_devnet.Pdp.Approval.{run-set}
use foc_devnet.Pdp.Registered.{Fits}

module _ {X : Type 0} where
  option-ok :
      (o : Option Text) (e : Failure) (s : Text) (w v : World X)
      → run (ret (ok_or e o)) w ≡ (ok s, v)
      → (o ≡ some s) × (w ≡ v)
  unfolding run
  option-ok none e s w v h = cc (ap (λ r. r.0) h)
  option-ok (some t) e s w v h = (ap some (ok-injective (ap (λ r. r.0) h)), ap (λ r. r.1) h)

  -- A value that is required is there, and nothing has changed.
  pub require-ok :
      (key s : Text) (e : Failure) (w v : World X)
      → run (require key e) w ≡ (ok s, v)
      → (lookup key w.state ≡ some s) × (w ≡ v)
  unfolding require get run
  require-ok key s e w v h = option-ok (lookup key w.state) e s w v h

module _ {X : Type 0} (host : Host X) (run_id : Text) where
  pub store_provider_id-Keeps :
      (Q : Dict → Type 0) (i id : ℕ)
      → ((m : Dict) → Q m → Q (insert (sp_key i "_provider_id") (to_string id) m))
      → Keeps (Of Q) (store_provider_id host run_id (i, id))
  unfolding store_provider_id require get
  store_provider_id-Keeps Q i id stable =
      Keeps-bind (Of Q) (require (sp_key i "_eth_address") (message "SP eth address not found" []))
        _ (λ w h. (h, tt))
        λ s.
          Keeps-bind (Of Q) (on_outside (save_provider_id host _ run_id i)) _ (on_outside-Keeps Q _)
            λ u. set-Keeps X Q _ _ stable

  store_provider_id-HasId :
      (i id : ℕ) (w v : World X)
      → id ≤ max_u64
      → run (store_provider_id host run_id (i, id)) w ≡ (ok tt, v)
      → HasId i v.state
  unfolding store_provider_id
  store_provider_id-HasId i id w v small h =
      let (s, w₁, r₁, h₁) =
        run_bind-ok (require (sp_key i "_eth_address") (message "SP eth address not found" [])) _ w
          v h in
      let (u, w₂, r₂, h₂) = run_bind-ok (on_outside (save_provider_id host _ run_id i)) _ w₁ v h₁ in
      (
        to_string id,
        subst (λ r. lookup (sp_key i "_provider_id") r.1.state ≡ some (to_string id)) h₂
            (run-set Failure (sp_key i "_provider_id") (to_string id) w₂),
        (id, small, refl),
      )

  abbrev Small : List (ℕ × ℕ) → Type 0
  Small = All (λ p. p.1 ≤ max_u64)

  HasId-Stable :
      (j : ℕ) (ids : List (ℕ × ℕ))
      → Small ids
      → All (λ p. Keeps (Of (HasId j)) (store_provider_id host run_id p)) ids
  HasId-Stable j [] small = tt
  HasId-Stable j ((i, id) ∷ ids) small = (
    store_provider_id-Keeps (HasId j) i id (λ m.
        Entry-insert IsId j i "_provider_id" "_provider_id" (to_string id) m refl refl
          (λ e f. (id, small.0, refl))),
    HasId-Stable j ids small.1,
  )

  -- Behind the loop every provider of the list has an ID in the context.
  pub stored-HasId :
      (ids : List (ℕ × ℕ)) (w v : World X)
      → Small ids
      → run (for_each ids (store_provider_id host run_id)) w ≡ (ok tt, v)
      → All (λ p. HasId p.0 v.state) ids
  unfolding for_each
  stored-HasId [] w v small h = tt
  stored-HasId ((i, id) ∷ ids) w v small h =
      let (u, w₁, r₁, h₁) = run_bind-ok (store_provider_id host run_id (i, id)) _ w v h in
      let kept =
        run-Keeps (Of (HasId i)) (for_each ids (store_provider_id host run_id)) w₁
          (Keeps-for_each (Of (HasId i)) ids _ (HasId-Stable i ids small.1))
          (store_provider_id-HasId i id w w₁ small.0 r₁) in
      (subst (Of (HasId i)) (ap (λ s. s.1) h₁) kept, stored-HasId ids w₁ v small.1 h₁)

-- The data are those of the providers of the list.
abbrev pub Listed : List ℕ → List SpData → Type 0
Listed [] [] = Unit
Listed [] (d ∷ ds) = ⊥
Listed (i ∷ is) [] = ⊥
Listed (i ∷ is) (d ∷ ds) = (d.sp_index ≡ i) × Listed is ds

module _ {X : Type 0} (n : ℕ) where
  sp_data-ok :
      (i : ℕ) (d : SpData) (w v : World X)
      → run (sp_data n i) w ≡ (ok d, v)
      → (d.sp_index ≡ i) × Fits n d × HasAddress i w.state × (w ≡ v)
  unfolding sp_data run
  sp_data-ok i d w v h =
      let pdp_key = sp_key i "_address" in
      let eth_key = sp_key i "_eth_address" in
      let port_key = sp_key i "_pdp_port" in
      let (s, w₁, r₁, h₁) = run_bind-ok (require pdp_key (not_in_context pdp_key)) _ w v h in
      let (t, w₂, r₂, h₂) = run_bind-ok (require eth_key (not_in_context eth_key)) _ w₁ v h₁ in
      let (p, w₃, r₃, h₃) =
        run_bind-ok (require port_key (port_not_in_context port_key)) _ w₂ v h₂ in
      let (q, w₄, r₄, h₄) = run_bind-ok (ret (number max_u16 p)) _ w₃ v h₃ in
      let (same, at) = run-pure-ok w₄ v h₄ in
      let (there, here) = require-ok pdp_key s _ w w₁ r₁ in
      (
        sym (ap (λ d. d.sp_index) same),
        sym (ap (λ d. d.should_approve) same) ∙ ap (λ k. leb k n) (ap (λ d. d.sp_index) same),
        (s, there, tt),
        here
            ∙ (require-ok eth_key t _ w₁ w₂ r₂).1
            ∙ (require-ok port_key p _ w₂ w₃ r₃).1
            ∙ ap (λ r. r.1) r₄
            ∙ at,
      )

  pub collect_sp_data-ok :
      (is : List ℕ) (ds : List SpData) (w v : World X)
      → run (collect_sp_data n is) w ≡ (ok ds, v)
      → Listed is ds × All (Fits n) ds × All (λ d. HasAddress d.sp_index w.state) ds × (w ≡ v)
  unfolding collect_sp_data
  collect_sp_data-ok [] ds w v h =
      let (same, at) = run-pure-ok w v h in
      subst
        (λ ds.
          Listed [] ds × All (Fits n) ds × All (λ d. HasAddress d.sp_index w.state) ds × (w ≡ v))
        same (tt, tt, tt, at)
  collect_sp_data-ok (i ∷ is) ds w v h =
      let (d, w₁, r₁, h₁) = run_bind-ok (sp_data n i) _ w v h in
      let (rest, w₂, r₂, h₂) = run_bind-ok (collect_sp_data n is) _ w₁ v h₁ in
      let (same, at) = run-pure-ok w₂ v h₂ in
      let (index, fits, address, here) = sp_data-ok i d w w₁ r₁ in
      let (listed, all_fit, addresses, there) = collect_sp_data-ok is rest w₁ w₂ r₂ in
      subst
        (λ ds.
          Listed (i ∷ is) ds
          × All (Fits n) ds
          × All (λ d. HasAddress d.sp_index w.state) ds
          × (w ≡ v))
        same
        (
          (index, listed),
          (fits, all_fit),
          (
            subst (λ j. HasAddress j w.state) (sym index) address,
            subst (λ u. All (λ d. HasAddress d.sp_index u.state) rest) (sym here) addresses,
          ),
          here ∙ there ∙ at,
        )
