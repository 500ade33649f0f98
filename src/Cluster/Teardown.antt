-- ===== src/Cluster/Teardown.antt =====
-- `finalize_start_teardown` of src/commands/start/mod.rs, with the logs of src/docker/logs.rs.
use foc_devnet.Base.{
  ℕ, ◌==◌, ◌||◌, Bool, true, if◌then◌else◌, [], ◌∷◌, ◌++◌, map, Outcome, ok, err, panic,
}
use foc_devnet.Text.{Text, codes}
use foc_devnet.Program.{Program, ret, pure, locked, gets, ◌>>=◌, ◌>>◌}
use foc_devnet.Program.Loops.{for_each}
use foc_devnet.Program.Catch.{catch}
use foc_devnet.Paths.{◌/◌, foc_devnet_run_dir}
use foc_devnet.Shell.{Failure, Output, docker_command}
use foc_devnet.Shell.Containers.{
  ContainerInfo, list_foc_devnet_containers, remove_dead_foc_containers,
}
use foc_devnet.Host.Chain.{concat}
use foc_devnet.Cluster.{Site}

-- `replace(':', "_")`
abbrev safe_char : ℕ → ℕ
safe_char c = if c == b':' then b'_' else c

abbrev pub log_file : Text → ContainerInfo → Text
log_file logs_dir c =
    logs_dir / concat (c.name ∷ codes "." ∷ map safe_char c.image ∷ codes ".docker.log" ∷ [])

abbrev status_text : Output → Text
status_text output =
    if output.success
    then output.stdout
    else output.stdout ++ (codes "\n[status command failed]\n" ++ output.stderr)

abbrev begins_line : Text → Bool
begins_line [] = true
begins_line (c ∷ s) = c == b'\n'

-- A line end between the two, where both have text and neither brings one.
unfoldable pub combine_logs : Text → Text → Text
combine_logs [] stderr = stderr
combine_logs (c ∷ []) stderr =
    if (c == b'\n') || begins_line stderr then c ∷ stderr else c ∷ b'\n' ∷ stderr
combine_logs (c ∷ d ∷ s) stderr = c ∷ combine_logs (d ∷ s) stderr

-- `show` prints an error.
module _ {X : Type 0} (site : Site X) (show : Failure → Text) where
  unfoldable pub get_container_logs : Text → Program X Failure Text
  unfolding docker_command combine_logs
  get_container_logs container_name = do
    output ← docker_command site.machine.launch (codes "logs" ∷ container_name ∷ [])
    pure (combine_logs output.stdout output.stderr)

  abbrev log_content : Text → Outcome Failure Text → Text
  log_content name (ok logs) = logs
  log_content name (err e) =
      concat
        (codes "Failed to get logs for container '" ∷ name ∷ codes "': " ∷ show e ∷ codes "\n" ∷ [])
  log_content name panic = []

  unfoldable pub persist_foc_container_logs : Text → Program X Failure (Unit {0})
  unfolding get_container_logs
  persist_foc_container_logs run_id = do
    containers ← list_foc_devnet_containers site.machine.launch site.machine.is_decimal
    let logs_dir = foc_devnet_run_dir site.machine.home run_id / codes "logs"
    locked (site.create_dir_all logs_dir)
    for_each containers λ c. catch (get_container_logs c.name) >>= λ logs.
        locked (site.write (log_file logs_dir c) (log_content c.name logs))

  unfoldable pub write_post_start_status_log : Text → Program X Failure (Unit {0})
  write_post_start_status_log run_id = do
    let run_dir = foc_devnet_run_dir site.machine.home run_id
    locked (site.create_dir_all run_dir)
    found ← gets site.current_exe
    exe ← ret found
    output ← locked (site.machine.launch exe (codes "status" ∷ []))
    locked (site.write (run_dir / codes "post_start_status.log") (status_text output))

  unfoldable pub finalize_start_teardown : Text → Program X Failure (Unit {0})
  unfolding persist_foc_container_logs write_post_start_status_log
  finalize_start_teardown run_id = do
    persist_foc_container_logs run_id
    remove_dead_foc_containers site.machine.launch site.machine.is_decimal
    write_post_start_status_log run_id
