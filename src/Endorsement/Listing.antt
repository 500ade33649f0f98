-- ===== src/Endorsement/Listing.antt =====
-- src/commands/start/endorsement/endorsement_step.rs: the endorsed IDs of the contract beside those that
-- are expected.
use foc_devnet.Base.{
  ℕ, ◌+◌, ◌≡◌, ◌↔◌, refl, sym, ◌==◌, List, [], ◌∷◌, ◌++◌, ok, Bool-cases, ==_iff, inl, inr,
}
use mathlib.Core.Path.{subst}
use foc_devnet.Program.{run}
use foc_devnet.Context.{World, set, save_to_file}
use foc_devnet.Endorsement.Step.{match_ids}

abbrev Begins : List ℕ → List ℕ → Type 0
Begins ids actual = (rest : List ℕ) × (actual ≡ ids ++ rest)

module _ {X : Type 0} where
  matched→begins :
      (i : ℕ) (ids actual : List ℕ) (w : World X)
      → (run (match_ids i ids actual) w).0 ≡ ok tt
      → Begins ids actual
  unfolding match_ids run set save_to_file
  matched→begins i [] actual w h = (actual, refl)
  matched→begins i (id ∷ ids) [] w h = cc h
  matched→begins i (id ∷ ids) (a ∷ actual) w h = elim (Bool-cases (a == id)) [
    | inl e ↦
        let (rest, f) = matched→begins (i + 1) ids actual _ (rw e at h) in
        (rest, cc ((==_iff a id).0 e, f))
    | inr e ↦ cc (rw e at h)
  ]

  begins→matched :
      (i : ℕ) (ids rest : List ℕ) (w : World X) → (run (match_ids i ids (ids ++ rest)) w).0 ≡ ok tt
  unfolding match_ids run set save_to_file
  begins→matched i [] rest w = refl
  begins→matched i (id ∷ ids) rest w =
      rw ((==_iff id id).1 refl) (begins→matched (i + 1) ids rest _)

  -- The comparison of the expected IDs with those that the contract returned succeeds exactly if the
  -- expected ones are the first of them, in their order.
  pub match_ids_iff :
      (i : ℕ) (ids actual : List ℕ) (w : World X)
      → ((run (match_ids i ids actual) w).0 ≡ ok tt) ↔ ((rest : List ℕ) × (actual ≡ ids ++ rest))
  match_ids_iff i ids actual w = (
    matched→begins i ids actual w,
    λ (rest, e).
        subst (λ l. (run (match_ids i ids l) w).0 ≡ ok tt) (sym e) (begins→matched i ids rest w),
  )
