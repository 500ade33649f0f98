-- ===== src/Pdp/Registered.antt =====
-- src/commands/start/pdp_service_provider/pdp_service_provider_step.rs: all rounds of the loop, where
-- none has failed.
use foc_devnet.Base.{
  ℕ, ◌≤◌, ◌≡◌, refl, sym, ap, ◌∙◌, leb, List, [], ◌∷◌, ◌++◌, append_assoc, append-nil, All, ok,
}
use mathlib.Core.Path.{subst}
use foc_devnet.Text.{show_bool, max_u64}
use foc_devnet.Program.{run}
use foc_devnet.Program.Success.{run-Keeps}
use foc_devnet.Program.Loops.{run_bind-ok, run-pure-ok}
use foc_devnet.Context.{World}
use foc_devnet.Host.{Host}
use foc_devnet.Host.Frame.{Of}
use foc_devnet.Pdp.Providers.{Addresses, SpData, Registered, register_one, register_all}
use foc_devnet.Pdp.Loop.{Stable, register_all-Keeps}
use foc_devnet.Pdp.Entries.{Entry-Closed, Entry-insert, ApprovedIs}
use foc_devnet.Pdp.Approval.{register_one-ok}

-- A provider is to be approved if it is one of the first `n`.
abbrev pub Fits : ℕ → SpData → Type 0
Fits n d = d.should_approve ≡ leb d.sp_index n

-- The IDs of the providers, in their order.
abbrev pub Paired : List SpData → List (ℕ × ℕ) → Type 0
Paired [] [] = Unit
Paired [] (p ∷ ids) = ⊥
Paired (d ∷ ds) [] = ⊥
Paired (d ∷ ds) ((sp_index, id) ∷ ids) = (sp_index ≡ d.sp_index) × (id ≤ max_u64) × Paired ds ids

module _ {X : Type 0} (host : Host X) (a : Addresses) (n : ℕ) where
  approved-Stable :
      (i : ℕ) (ds : List SpData)
      → All (Fits n) ds
      → All (Stable host a (ApprovedIs n i) (Entry-Closed _ i "_is_approved")) ds
  approved-Stable i [] fits = tt
  approved-Stable i (d ∷ ds) fits = (
    λ m.
        Entry-insert _ i d.sp_index "_is_approved" "_is_approved" (show_bool d.should_approve) m
          refl refl (λ same suffix. ap show_bool (fits.0 ∙ ap (λ k. leb k n) (sym same))),
    approved-Stable i ds fits.1,
  )

  pub register_all-ok :
      (ds : List SpData) (done more : Registered) (w v : World X)
      → All (Fits n) ds
      → run (register_all host a ds done) w ≡ (ok more, v)
      → more.errors ≡ []
      → (done.errors ≡ [])
        × (ids : List (ℕ × ℕ)) × (more.provider_ids ≡ done.provider_ids ++ ids)
        × Paired ds ids
        × All (λ d. ApprovedIs n d.sp_index v.state) ds
  unfolding register_all
  register_all-ok [] done more w v fits h clean =
      let (same, at) = run-pure-ok w v h in
      (
        ap (λ m. m.errors) same ∙ clean,
        [],
        sym (append-nil done.provider_ids ∙ ap (λ m. m.provider_ids) same),
        tt,
        tt,
      )
  register_all-ok (d ∷ ds) done more w v fits h clean =
      let (next, w₁, r₁, h₁) = run_bind-ok (register_one host a d done) _ w v h in
      let (none_yet, ids, all_ids, paired, approved) =
        register_all-ok ds next more w₁ v fits.1 h₁ clean in
      let (id, small, (clean_before, pushed), (s, there, value)) =
        register_one-ok host a d done next w w₁ r₁ none_yet in
      let Q = ApprovedIs n d.sp_index in
      let kept =
        run-Keeps (Of Q) (register_all host a ds next) w₁
          (register_all-Keeps host a Q (Entry-Closed _ d.sp_index "_is_approved") ds next
            (approved-Stable d.sp_index ds fits.1))
          (s, there, value ∙ ap show_bool fits.0) in
      (
        clean_before,
        (d.sp_index, id) ∷ ids,
        all_ids
            ∙ ap (λ l. l ++ ids) pushed
            ∙ append_assoc done.provider_ids ((d.sp_index, id) ∷ []) ids,
        (refl, small, paired),
        (subst (Of Q) (ap (λ s. s.1) h₁) kept, approved),
      )
