-- ===== src/Stop.antt =====
-- src/commands/stop.rs, and from src/run_id/persistence.rs the file of the current run ID that it reads
-- and deletes.
mod Examples
pub mod Laws
pub mod Kept
pub mod Gone
pub mod Cluster
use foc_devnet.Base.{
  ◌&&◌, not, ℕ, if◌then◌else◌, Bool, true, false, List, [], ◌∷◌, ◌++◌, map, Outcome, ok, err, panic,
  String,
}
use foc_devnet.Text.{Text, codes}
use foc_devnet.Text.Search.{trim, lines}
use foc_devnet.Program.{Program, ret, act, pure, raise, gets, locked, ◌>>=◌, ◌>>◌}
use foc_devnet.Program.Loops.{for_each}
use foc_devnet.Program.Catch.{catch}
use foc_devnet.Paths.{◌/◌}
use foc_devnet.Containers.{get_run_containers}
use foc_devnet.Shell.{
  Launch, Failure, Output, message, docker_command, container_exists, container_is_running,
}
use foc_devnet.Shell.Containers.{ContainerInfo, list_foc_devnet_containers, best_effort}
use foc_devnet.Network.{delete_all_networks, is_foc_devnet_network, rm_args}

-- The machine that a stop acts on; `parse_run_id` is `serde_json` on the metadata of a run ID.
pub record Machine (X : Type 0) : Type 0 where
  pub launch : Launch X
  pub is_decimal : ℕ → Bool
  pub home : Text
  pub exists : Text → X → Bool
  pub read_to_string : Text → X → Outcome Failure Text × X
  pub remove_file : Text → X → Outcome Failure (Unit {0}) × X
  pub parse_run_id : Text → Outcome Failure Text

-- `CONTAINERS`
abbrev legacy_containers : List (Text × Text)
legacy_containers =
    (codes "foc-curio", codes "Curio")
    ∷ (codes "foc-lotus-miner", codes "Lotus-Miner")
    ∷ (codes "foc-lotus", codes "Lotus")
    ∷ []

abbrev is_empty : Text → Bool
is_empty [] = true
is_empty (c ∷ s) = false

abbrev pub stop_args : Text → List Text
stop_args name = codes "stop" ∷ name ∷ []

abbrev pub rm_container_args : Text → List Text
rm_container_args name = codes "rm" ∷ name ∷ []

module _ {X : Type 0} (launch : Launch X) where
  abbrev pub check_success : String → Text → Output → Program X Failure (Unit {0})
  check_success error name output =
      if output.success then pure tt else raise (message error (name ∷ output.stderr ∷ []))

  -- A running container is stopped, and asked for again.
  abbrev pub stop_running : Text → Program X Failure (Unit {0})
  stop_running container_name = do
    output ← docker_command launch (stop_args container_name)
    check_success "Failed to stop container '{}': {}" container_name output
    still ← container_is_running launch container_name
    if still
        then raise
            (message "Container '{}' is still running after stop command" (container_name ∷ []))
        else pure tt

  abbrev pub check_removed : Text → Program X Failure (Unit {0})
  check_removed container_name = do
    still ← container_exists launch container_name
    if still
        then raise (message "Container '{}' still exists after removal" (container_name ∷ []))
        else pure tt

  abbrev pub stop_existing : Text → Program X Failure (Unit {0})
  stop_existing container_name = do
    is_running ← container_is_running launch container_name
    if is_running then stop_running container_name else pure tt
    output ← docker_command launch (rm_container_args container_name)
    check_success "Failed to remove container '{}': {}" container_name output
    check_removed container_name

  unfoldable pub stop_and_remove_service_container : Text → Program X Failure (Unit {0})
  stop_and_remove_service_container container_name = do
    exists ← container_exists launch container_name
    if exists then stop_existing container_name else pure tt

  unfoldable pub force_kill_foc_containers : (ℕ → Bool) → Program X Failure (Unit {0})
  force_kill_foc_containers is_decimal = do
    containers ← list_foc_devnet_containers launch is_decimal
    for_each containers λ c. best_effort launch (codes "rm" ∷ codes "-f" ∷ c.name ∷ [])

  abbrev keep_networks : (ℕ → Bool) → List Text → List Text
  keep_networks is_decimal [] = []
  keep_networks is_decimal (line ∷ rest) =
      if not (is_empty (trim line)) && is_foc_devnet_network is_decimal (trim line)
      then trim line ∷ keep_networks is_decimal rest
      else keep_networks is_decimal rest

  unfoldable pub force_remove_foc_networks : (ℕ → Bool) → Program X Failure (Unit {0})
  force_remove_foc_networks is_decimal = do
    output ←
        docker_command launch
          (codes "network" ∷ codes "ls" ∷ codes "--format" ∷ codes "{{.Name}}" ∷ [])
    for_each (keep_networks is_decimal (lines output.stdout))
        λ network_name. best_effort launch (rm_args network_name)

abbrev run_id_or_empty : Outcome Failure Text → Text
run_id_or_empty (ok id) = id
run_id_or_empty (err e) = []
run_id_or_empty panic = []

module _ {X : Type 0} (machine : Machine X) where
  abbrev pub current_run_id_file : Text
  current_run_id_file = machine.home / codes "state" / codes "current_runid.json"

  unfoldable pub load_current_run_id : Program X Failure Text
  load_current_run_id = do
    exists ← gets (machine.exists current_run_id_file)
    if exists
        then pure tt
        else raise
            (message "No current run ID found. Start a cluster first with 'foc-devnet start'" [])
    contents ← locked (machine.read_to_string current_run_id_file)
    ret (machine.parse_run_id contents)

  unfoldable pub delete_current_run_id : Program X Failure (Unit {0})
  delete_current_run_id = do
    exists ← gets (machine.exists current_run_id_file)
    if exists then locked (machine.remove_file current_run_id_file) else pure tt

  abbrev pub containers_to_stop : Text → List (Text × Text)
  containers_to_stop run_id =
      if is_empty run_id then legacy_containers else get_run_containers run_id

  -- An error of the deletion is only logged.
  abbrev pub delete_networks_of : Text → Program X Failure (Unit {0})
  delete_networks_of run_id =
      if is_empty run_id
      then pure tt
      else catch {D = Failure} (delete_all_networks machine.launch run_id) >> pure tt

  unfoldable pub stop_cluster : Program X Failure (Unit {0})
  unfolding load_current_run_id delete_current_run_id
  stop_cluster = do
    loaded ← catch load_current_run_id
    let run_id = run_id_or_empty loaded
    for_each (containers_to_stop run_id) λ (container_name, service_name).
        stop_and_remove_service_container machine.launch container_name
    force_kill_foc_containers machine.launch machine.is_decimal
    delete_networks_of run_id
    force_remove_foc_networks machine.launch machine.is_decimal
    delete_current_run_id
