-- ===== src/Pdp/Approval.antt =====
-- src/commands/start/pdp_service_provider/pdp_service_provider_step.rs: the loop over the providers
-- that has met no error.
use foc_devnet.Base.{
  ℕ, ◌≤◌, ◌≡◌, refl, sym, ap, ◌∙◌, true, false, some, List, [], ◌∷◌, ◌++◌, Outcome, ok, err, panic,
}
use foc_devnet.Base.Results.{ok-injective}
use mathlib.Core.Path.{subst}
use foc_devnet.Text.{Text, to_string, show_bool, max_u64}
use foc_devnet.Dict.{lookup, insert, lookup-insert_self}
use foc_devnet.Program.{run}
use foc_devnet.Program.Success.{run-Keeps}
use foc_devnet.Program.Loops.{run_bind-ok}
use foc_devnet.Program.Caught.{run-catch}
use foc_devnet.Context.{World, set, put, save_to_file}
use foc_devnet.Context.Laws.{save-context}
use foc_devnet.Shell.{Failure, about}
use foc_devnet.Host.{Host}
use foc_devnet.Host.Frame.{Of}
use foc_devnet.Pdp.Registration.{register_single_provider}
use foc_devnet.Pdp.Providers.{
  Addresses, SpData, Registered, register, approve, register_one, sp_key, after_approval,
  after_registration,
}
use foc_devnet.Pdp.Laws.{register_single_provider-le}
use foc_devnet.Pdp.Loop.{approve-Keeps}
use foc_devnet.Pdp.Entries.{Entry, Entry-Closed}

-- A list that an element has been pushed to is not empty.
pushed-ne : {A : Type 0} (xs : List A) (x : A) → xs ++ x ∷ [] ≡ [] → false ≡ true
pushed-ne [] x e = cc
pushed-ne (y ∷ xs) x e = cc

module _ {X : Type 0} (E : Type 0) where
  pub run-set : (k v : Text) (w : World X) → lookup k (run (set {E = E} k v) w).1.state ≡ some v
  unfolding run set put save_to_file
  run-set k v w =
      ap (λ c. lookup k c.state) (save-context (put (insert k v) w))
      ∙ lookup-insert_self k v w.state

-- One more provider is registered, with this ID, and none has failed.
abbrev pub Pushed : ℕ → ℕ → Registered → Registered → Type 0
Pushed sp_index id done more =
    (done.errors ≡ []) × (more.provider_ids ≡ done.provider_ids ++ (sp_index, id) ∷ [])

module _ {X : Type 0} where
  abbrev returned : World X → Outcome Failure ℕ → Outcome Failure (Outcome Failure ℕ) × World X
  returned w r = (ok r, w)

module _ {X : Type 0} (host : Host X) (a : Addresses) where
  after_approval-ok :
      (d : SpData) (id : ℕ) (done more : Registered) (r : Outcome Failure (Unit {0}))
      (w v : World X)
      → run (after_approval host d id done r) w ≡ (ok more, v)
      → more.errors ≡ []
      → Pushed d.sp_index id done more × (w ≡ v)
  unfolding run
  after_approval-ok d id done more (ok u) w v h clean =
      let same = ok-injective (ap (λ s. s.0) h) in
      ((ap (λ m. m.errors) same ∙ clean, sym (ap (λ m. m.provider_ids) same)), ap (λ s. s.1) h)
  after_approval-ok d id done more (err e) w v h clean =
      let same = ok-injective (ap (λ s. s.0) h) in
      cc (
        pushed-ne done.errors (about "SP {} approval failed: {}" (to_string d.sp_index ∷ []) e)
          (ap (λ m. m.errors) same ∙ clean))
  after_approval-ok d id done more panic w v h clean = cc (ap (λ s. s.0) h)

  -- What one round has done that adds no error.
  abbrev pub Round : SpData → Registered → Registered → World X → Type 0
  Round d done more v =
      (id : ℕ) × (id ≤ max_u64)
      × Pushed d.sp_index id done more
      × Entry (λ s. s ≡ show_bool d.should_approve) d.sp_index "_is_approved" v.state

  after_registration-ok :
      (d : SpData) (done more : Registered) (r : Outcome Failure ℕ) (w v : World X)
      → ((id : ℕ) → r ≡ ok id → id ≤ max_u64)
      → run (after_registration host a d done r) w ≡ (ok more, v)
      → more.errors ≡ []
      → Round d done more v
  unfolding run
  after_registration-ok d done more (ok id) w v small h clean =
      let key = sp_key d.sp_index "_is_approved" in
      let value = show_bool d.should_approve in
      let Q = Entry (λ s. s ≡ value) d.sp_index "_is_approved" in
      let (u, w₁, r₁, h₁) = run_bind-ok (set key value) _ w v h in
      let (approved, w₂, r₂, h₂) = run_bind-ok (approve host a d id) _ w₁ v h₁ in
      let (pushed, at) = after_approval-ok d id done more approved w₂ v h₂ clean in
      let was_set =
        subst (λ s. lookup key s.1.state ≡ some value) r₁ (run-set Failure key value w) in
      let kept =
        run-Keeps (Of Q) (approve host a d id) w₁
          (approve-Keeps host a Q (Entry-Closed _ d.sp_index "_is_approved") d id)
          (value, was_set, refl) in
      (id, small id refl, pushed, subst (Of Q) (ap (λ s. s.1) r₂ ∙ at) kept)
  after_registration-ok d done more (err e) w v small h clean =
      let same = ok-injective (ap (λ s. s.0) h) in
      cc (
        pushed-ne done.errors (about "SP {} registration failed: {}" (to_string d.sp_index ∷ []) e)
          (ap (λ m. m.errors) same ∙ clean))
  after_registration-ok d done more panic w v small h clean = cc (ap (λ s. s.0) h)

  pub register_one-ok :
      (d : SpData) (done more : Registered) (w v : World X)
      → run (register_one host a d done) w ≡ (ok more, v)
      → more.errors ≡ []
      → Round d done more v
  unfolding register_one register
  register_one-ok d done more w v h clean =
      let (r, w₁, r₁, h₁) = run_bind-ok (register host a d) _ w v h in
      after_registration-ok d done more r w₁ v
        (λ id e.
          register_single_provider-le host _ id w w₁
            (run-catch (register_single_provider host _) id w w₁ (r₁ ∙ ap (returned w₁) e)))
        h₁ clean
