-- ===== src/RunId.antt =====
-- src/run_id/mod.rs: a run ID that no other process has, taken by making its directory. What the clock
-- and the random generator give to the attempts is a parameter, and so are the directories.
mod Examples
pub mod Reserve
use foc_devnet.Base.{
  ℕ, zero, suc, ◌+◌, Option, none, some, List, [], ◌∷◌, ◌++◌, Outcome, ok, err, panic,
}
use foc_devnet.Text.{Text, codes}
use foc_devnet.Paths.{◌/◌, foc_devnet_runs}
use foc_devnet.Shell.{Failure}

-- `create_dir`
pub data Made : Type 0 where
  created : Made
  already_exists : Made
  not_made : Failure → Made

pub record Disk (X : Type 0) : Type 0 where
  pub home : Text
  pub create_dir_all : Text → X → Outcome Failure (Unit {0}) × X
  pub create_dir : Text → X → Made × X

-- The minute, the adjective and the noun that an attempt draws
pub record Draw : Type 0 where
  pub datetime : Text
  pub adjective : Text
  pub noun : Text

abbrev pub generate_candidate : Draw → Text
generate_candidate d = d.datetime ++ b'_' ∷ (d.adjective ++ d.noun)

module _ {X : Type 0} where
  -- The `match` behind an attempt, where `rest` is the loop from the next one on.
  abbrev pub after_attempt :
      Text → Made × X → Option (Outcome Failure Text × X) → Option (Outcome Failure Text × X)
  after_attempt run_id (created, y) rest = some (ok run_id, y)
  after_attempt run_id (already_exists, y) rest = rest
  after_attempt run_id (not_made e, y) rest = some (err e, y)

  abbrev pub after_all :
      Outcome Failure (Unit {0}) × X
      → Option (Outcome Failure Text × X)
      → Option (Outcome Failure Text × X)
  after_all (ok u, y) reserved = reserved
  after_all (err e, y) reserved = some (err e, y)
  after_all (panic, y) reserved = some (panic, y)

module _ {X : Type 0} (disk : Disk X) (draw : ℕ → Draw) where
  abbrev pub candidate_dir : Text → ℕ → Text
  candidate_dir runs_dir i = runs_dir / generate_candidate (draw i)

  -- The loop from attempt `i` on; `none` if it still runs after `n` attempts.
  unfoldable pub reserve_from : Text → ℕ → ℕ → X → Option (Outcome Failure Text × X)
  reserve_from runs_dir zero i x = none
  reserve_from runs_dir (suc n) i x =
      let attempt = disk.create_dir (candidate_dir runs_dir i) x in
      let rest = reserve_from runs_dir n (i + 1) attempt.1 in
      after_attempt (generate_candidate (draw i)) attempt rest

  unfoldable pub reserve_run_id_in : Text → ℕ → X → Option (Outcome Failure Text × X)
  unfolding reserve_from
  reserve_run_id_in runs_dir n x =
      let all = disk.create_dir_all runs_dir x in after_all all (reserve_from runs_dir n 0 all.1)

  pub generate_run_id : ℕ → X → Option (Outcome Failure Text × X)
  unfolding reserve_run_id_in
  generate_run_id = reserve_run_id_in (foc_devnet_runs disk.home)
