-- ===== src/RunId/Reserve.antt =====
-- src/run_id/mod.rs: the loop that reserves a run ID.
use mathlib.Core.Path.{subst}
use native.Mathlib.Decide.{ℕ_discrete}
use foc_devnet.Base.{
  ◌≤◌, ℕ, zero, suc, ◌+◌, ◌<◌, ◌≡◌, sym, ap, ◌∙◌, arith, Bool, Bool-cases, inl, inr, true, false,
  some, ok,
}
use foc_devnet.Text.{Text}
use foc_devnet.Paths.{foc_devnet_runs}
use foc_devnet.RunId.{
  Disk, Draw, created, already_exists, candidate_dir, generate_candidate, reserve_from,
  after_attempt, after_all, reserve_run_id_in, generate_run_id,
}

-- What is documented of `create_dir`: a directory that is there is left alone, and one that it says it
-- has made is there.
pub record Directories {X : Type 0} (disk : Disk X) (there : Text → X → Bool) : Type 0 where
  pub refuses : (p : Text) (x : X) → there p x ≡ true → disk.create_dir p x ≡ (already_exists, x)
  pub makes : (p : Text) (x y : X) → disk.create_dir p x ≡ (created, y) → there p y ≡ true

module _ {X : Type 0} (disk : Disk X) {there : Text → X → Bool} (dirs : Directories disk there)
    (draw : ℕ → Draw) where
  abbrev dir : Text → ℕ → Text
  dir runs_dir i = candidate_dir disk draw runs_dir i

  reserve_from-first :
      (runs_dir : Text) (n i k : ℕ) (x y : X)
      → i ≤ k
      → k < i + n
      → ((j : ℕ) → i ≤ j → j < k → there (dir runs_dir j) x ≡ true)
      → disk.create_dir (dir runs_dir k) x ≡ (created, y)
      → reserve_from disk draw runs_dir n i x ≡ some (ok (generate_candidate (draw k)), y)
  unfolding reserve_from
  reserve_from-first runs_dir zero i k x y le lt taken free = absurd (omega arith)
  reserve_from-first runs_dir (suc n) i k x y le lt taken free = elim (ℕ_discrete i k) [
    | yes here ↦
        subst
          (λ q.
            reserve_from disk draw runs_dir (suc n) i x
            ≡ some (ok (generate_candidate (draw q)), y))
          here
          (ap
            (λ r.
              after_attempt (generate_candidate (draw i)) r
                (reserve_from disk draw runs_dir n (i + 1) r.1))
            (subst (λ q. disk.create_dir (dir runs_dir q) x ≡ (created, y)) (sym here) free))
    | no later ↦
        ap
          (λ r.
            after_attempt (generate_candidate (draw i)) r
              (reserve_from disk draw runs_dir n (i + 1) r.1))
          (dirs.refuses (dir runs_dir i) x (taken i (omega arith) (omega arith)))
        ∙ reserve_from-first runs_dir n (i + 1) k x y (omega arith) (omega arith)
            (λ j from to. taken j (omega arith) to) free
  ]

  -- What `create_dir` has made was not there.
  was_free : (p : Text) (x y : X) → disk.create_dir p x ≡ (created, y) → there p x ≡ false
  was_free p x y h = elim (Bool-cases (there p x)) [
    | inl is ↦ let f = ap (λ r. r.0) (sym (dirs.refuses p x is) ∙ h) in cc f
    | inr not_there ↦ not_there
  ]

  -- If the directory of the runs can be made, if every attempt before attempt `k` finds its directory
  -- there, and if `create_dir` makes that of attempt `k`, then any number of attempts above `k` is enough:
  -- the loop ends with the ID of attempt `k` and the disk as that `create_dir` left it, and its directory,
  -- which was not there, now is. An attempt that fails otherwise is not the subject.
  pub generate_run_id-candidate :
      (k n : ℕ) (x x₁ y : X)
      → k < n
      → disk.create_dir_all (foc_devnet_runs disk.home) x ≡ (ok tt, x₁)
      → ((j : ℕ) → j < k → there (candidate_dir disk draw (foc_devnet_runs disk.home) j) x₁ ≡ true)
      → disk.create_dir (candidate_dir disk draw (foc_devnet_runs disk.home) k) x₁ ≡ (created, y)
      → (generate_run_id disk draw n x ≡ some (ok (generate_candidate (draw k)), y))
        × (there (candidate_dir disk draw (foc_devnet_runs disk.home) k) x₁ ≡ false)
        × (there (candidate_dir disk draw (foc_devnet_runs disk.home) k) y ≡ true)
  unfolding generate_run_id reserve_run_id_in
  generate_run_id-candidate k n x x₁ y lt all_made taken makes = (
    ap (λ r. after_all r (reserve_from disk draw (foc_devnet_runs disk.home) n 0 r.1)) all_made
        ∙ reserve_from-first (foc_devnet_runs disk.home) n 0 k x₁ y (omega arith) (omega arith)
            (λ j from to. taken j to) makes,
    was_free (candidate_dir disk draw (foc_devnet_runs disk.home) k) x₁ y makes,
    dirs.makes (candidate_dir disk draw (foc_devnet_runs disk.home) k) x₁ y makes,
  )
