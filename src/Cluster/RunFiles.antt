-- ===== src/Cluster/RunFiles.antt =====
-- What a start writes about its run: `save_current_run_id` of src/run_id/persistence.rs,
-- `create_latest_symlink` of src/run_id/mod.rs and src/version_info.rs.
use foc_devnet.Base.{ℕ, ◌-◌, ◌/◌, ltb, if◌then◌else◌, Bool, true, false, [], ◌∷◌}
use foc_devnet.Text.{Text, codes, to_string}
use foc_devnet.Program.{Program, ret, pure, gets, locked, ◌>>=◌, ◌>>◌}
use foc_devnet.Paths
use foc_devnet.Paths.{foc_devnet_state, foc_devnet_state_latest, foc_devnet_run_dir}
use foc_devnet.Shell.{Failure}
use foc_devnet.Stop.{current_run_id_file}
use foc_devnet.Host.Chain.{concat}
use foc_devnet.Cluster.{Site, VersionInfo}

abbrev ago : ℕ → Text → Text
ago n unit = concat (codes "(" ∷ to_string n ∷ codes " " ∷ unit ∷ codes " ago)" ∷ [])

-- The difference is an `i64`: a build from the future was a negative number of seconds ago.
unfoldable pub calculate_relative_time : ℕ → ℕ → Text
calculate_relative_time built now =
    let diff_seconds = now - built in
    if ltb now built
    then concat (codes "(-" ∷ to_string (built - now) ∷ codes " seconds ago)" ∷ [])
    else if ltb diff_seconds 60
    then ago diff_seconds (codes "seconds")
    else if ltb diff_seconds 3600
    then ago (diff_seconds / 60) (codes "minutes")
    else if ltb diff_seconds 86400
    then ago (diff_seconds / 3600) (codes "hours")
    else ago (diff_seconds / 86400) (codes "days")

abbrev dirty_suffix : Text → Text
dirty_suffix [] = []
dirty_suffix (c ∷ s) = codes "-dirty"

unfoldable pub version_text : VersionInfo → ℕ → Text
unfolding calculate_relative_time
version_text v now = concat (
    codes "foc-devnet "
    ∷ v.version
    ∷ codes "\nCommit: "
    ∷ v.commit
    ∷ dirty_suffix v.dirty
    ∷ codes "\nBranch: "
    ∷ v.branch
    ∷ codes "\nBuilt (UTC): "
    ∷ v.build_time_utc
    ∷ codes " "
    ∷ calculate_relative_time v.build_timestamp now
    ∷ codes "\nBuilt (Local): "
    ∷ v.build_time_local
    ∷ codes "\n"
    ∷ [])

module _ {X : Type 0} (site : Site X) where
  unfoldable pub write_version_file : Text → Program X Failure (Unit {0})
  unfolding version_text
  write_version_file dir = do
    now ← gets site.timestamp
    locked (site.write (Paths.◌/◌ dir (codes "version.txt")) (version_text site.version_info now))

  unfoldable pub save_current_run_id : Text → Program X Failure (Unit {0})
  save_current_run_id run_id = do
    locked (site.create_dir_all (foc_devnet_state site.machine.home))
    started_at ← gets site.now
    json ← ret (site.print_run_id run_id started_at)
    locked (site.write (current_run_id_file site.machine) json)

  -- A directory or a file in the place of the link
  abbrev remove_other : Bool → Text → Program X Failure (Unit {0})
  remove_other false latest_link = pure tt
  remove_other true latest_link = do
    is_dir ← gets (site.is_dir latest_link)
    if is_dir
        then locked (site.remove_dir_all latest_link)
        else locked (site.machine.remove_file latest_link)

  abbrev remove_latest : Text → Program X Failure (Unit {0})
  remove_latest latest_link = do
    is_symlink ← gets (site.is_symlink latest_link)
    exists ← gets (site.machine.exists latest_link)
    if is_symlink
        then locked (site.machine.remove_file latest_link)
        else remove_other exists latest_link

  unfoldable pub create_latest_symlink : Text → Program X Failure (Unit {0})
  create_latest_symlink run_id = do
    let home = site.machine.home
    locked (site.create_dir_all (foc_devnet_state home))
    remove_latest (foc_devnet_state_latest home)
    locked (site.symlink (foc_devnet_run_dir home run_id) (foc_devnet_state_latest home))
