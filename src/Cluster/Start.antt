-- ===== src/Cluster/Start.antt =====
-- src/commands/start/mod.rs: `start_cluster`. A failed start carries what ended it.
use foc_devnet.Base.{
  ℕ, ◌≡◌, ◌≢◌, ◌||◌, if◌then◌else◌, Bool, true, false, Option, none, some, List, [], ◌∷◌, map,
  Outcome, ok, err, panic, map_err,
}
use foc_devnet.Base.Results
use foc_devnet.Text.{Text, codes}
use foc_devnet.Words.{Profile}
use foc_devnet.Ports.{PortError, new, allocate}
use foc_devnet.Program.{Program, ret, run, pure, raise, locked, map_error, ◌>>=◌, ◌>>◌}
use foc_devnet.Program.Loops.{for_each}
use foc_devnet.Program.Catch.{catch}
use foc_devnet.Config.{Config, ConfigError, validate}
use foc_devnet.Context.{World}
use foc_devnet.Paths.{foc_devnet_config, foc_devnet_docker_volumes_run_specific, foc_devnet_run_dir}
use foc_devnet.Shell.{
  Failure, message, about, container_is_running, stop_container, remove_container,
}
use foc_devnet.Shell.Log.{on_outside}
use foc_devnet.Shell.Containers.{start_portainer}
use foc_devnet.Network.{create_all_networks}
use foc_devnet.Stop.{stop_cluster}
use foc_devnet.Steps.{Step, StartError, StepExecutionConfig, execute_steps, ExecutesParallel}
use foc_devnet.Plan.{StartStep, create_steps, create_step_epochs}
use foc_devnet.Cluster.{Site, Bodies}
use foc_devnet.Cluster.RunFiles.{save_current_run_id, create_latest_symlink, write_version_file}
use foc_devnet.Cluster.Teardown.{finalize_start_teardown}

pub data ClusterError : Type 0 where
  failed : Failure → ClusterError
  invalid_config : ConfigError → ClusterError
  no_port : PortError → ClusterError
  steps_failed : StartError Failure → ClusterError

abbrev any_true : List Bool → Bool
any_true [] = false
any_true (b ∷ bs) = b || any_true bs

abbrev pub resolved : Option (List Bool) → Outcome Failure (Unit {0})
resolved none = err (message "host.docker.internal must be resolvable" [])
resolved (some loopbacks) =
    if any_true loopbacks
    then ok tt
    else err (message "host.docker.internal must resolve to 127.0.0.1" [])

-- The containers of runs that had no ID in their names
abbrev old_containers : List Text
old_containers = codes "foc-lotus-miner" ∷ codes "foc-lotus" ∷ codes "foc-curio" ∷ []

-- The first port of the range, which Portainer takes
unfoldable pub portainer_port_of : Profile → Config → Outcome ClusterError ℕ
portainer_port_of p config =
    map_err no_port
      (Results.◌>>=◌ (new config.port_range_start config.port_range_count) λ a. (allocate p a).0)

module _ {X : Type 0} (site : Site X) where
  unfoldable pub check_host_docker_internal : Program X Failure (Unit {0})
  check_host_docker_internal = locked (λ x. (resolved (site.resolve x), x))

  -- An error of the stop is only logged.
  unfoldable pub stop_existing_cluster : Program X Failure (Unit {0})
  stop_existing_cluster = catch {D = Failure} (stop_cluster site.machine) >> pure tt

  unfoldable pub setup_directories_and_run_id : Text → Program X Failure (Unit {0})
  unfolding save_current_run_id create_latest_symlink write_version_file
  setup_directories_and_run_id run_id = do
    save_current_run_id site run_id
    locked (site.create_dir_all (foc_devnet_docker_volumes_run_specific site.machine.home run_id))
    locked (site.create_dir_all (foc_devnet_run_dir site.machine.home run_id))
    write_version_file site (foc_devnet_run_dir site.machine.home run_id)
    create_latest_symlink site run_id

  unfoldable pub stop_running_containers : Program X Failure (Unit {0})
  unfolding for_each
  stop_running_containers = for_each old_containers λ container.
      container_is_running site.machine.launch container >>= λ running.
      if running
      then stop_container site.machine.launch container
        >> remove_container site.machine.launch container
      else pure tt

  unfoldable pub load_and_validate_config : Program X ClusterError Config
  load_and_validate_config = do
    let config_path = foc_devnet_config site.machine.home
    config_content ←
        map_error (λ e. failed (about "Failed to read config file at {}: {}" (config_path ∷ []) e))
          (locked (site.machine.read_to_string config_path))
    config ← ret (
        map_err (λ e. failed (about "Failed to parse config file at {}: {}" (config_path ∷ []) e))
          (site.parse_config config_content))
    ret (map_err invalid_config (validate config))
    pure config

  -- `start_cluster` before the steps
  unfoldable pub prepare_cluster : Profile → Text → Program X ClusterError (Config × ℕ)
  unfolding check_host_docker_internal stop_existing_cluster setup_directories_and_run_id
      stop_running_containers load_and_validate_config portainer_port_of
  prepare_cluster p run_id = do
    map_error failed check_host_docker_internal
    map_error failed stop_existing_cluster
    map_error failed (setup_directories_and_run_id run_id)
    map_error failed stop_running_containers
    config ← load_and_validate_config
    portainer_port ← ret (portainer_port_of p config)
    map_error failed (start_portainer site.machine.launch run_id portainer_port)
    map_error failed (create_all_networks site.machine.launch run_id config.active_pdp_sp_count)
    pure (config, portainer_port)

abbrev pub step_config : Text → Text → Config → ℕ → StepExecutionConfig
step_config home run_id config portainer_port = record {
  run_id = run_id;
  run_dir = foc_devnet_run_dir home run_id;
  port_start = config.port_range_start;
  port_count = config.port_range_count;
  portainer_port = some portainer_port;
  active_pdp_sp_count = config.active_pdp_sp_count;
  approved_pdp_sp_count = config.approved_pdp_sp_count;
  endorsed_pdp_sp_count = config.endorsed_pdp_sp_count;
}

-- `format_secs` prints a duration, `show` an error; `free` tells which ports are available.
module _ {X : Type 0} (site : Site X) (bodies : Bodies X) (format_secs : ℕ → Text)
    (show : Failure → Text) (p : Profile) (free : ℕ → Bool) where
  -- `execute_cluster_steps` before the steps
  unfoldable pub before_steps : Text → Config → Program (World X) ClusterError (Unit {0})
  unfolding on_outside
  before_steps run_id config = do
    map_error failed
        (on_outside (bodies.ensure_genesis_prerequisites config.active_pdp_sp_count run_id))
    ret (map_err invalid_config (validate config))

  abbrev pub epochs_of : List (List StartStep) → List (List (Step X Failure))
  epochs_of [] = []
  epochs_of (epoch ∷ epochs) = map bodies.body epoch ∷ epochs_of epochs

  -- The steps of a start, from the world `w` to the world `w'`
  pub data ExecutesSteps (run_id : Text) (config : Config) (portainer_port : ℕ) (w w' : World X)
      : Bool → Outcome (StartError Failure) (Unit {0}) → Type 0 where
    sequentially :
        (r : Outcome (StartError Failure) (Unit {0}))
        → run
            (execute_steps format_secs p free
              (map bodies.body (create_steps config))
              (step_config site.machine.home run_id config portainer_port))
            w
          ≡ (r, w')
        → ExecutesSteps run_id config portainer_port w w' false r
    in_epochs :
        (r : Outcome (StartError Failure) (Unit {0}))
        → ExecutesParallel format_secs p free
            (epochs_of (create_step_epochs config))
            (step_config site.machine.home run_id config portainer_port)
            w
            w'
            r
        → ExecutesSteps run_id config portainer_port w w' true r

  -- `execute_cluster_steps`
  pub data ExecutesCluster (parallel : Bool) (run_id : Text) (config : Config) (portainer_port : ℕ)
      (w w' : World X) : Outcome ClusterError (Unit {0}) → Type 0 where
    not_ready :
        (e : ClusterError)
        → run (before_steps run_id config) w ≡ (err e, w')
        → ExecutesCluster parallel run_id config portainer_port w w' (err e)
    getting_ready_panics :
        run (before_steps run_id config) w ≡ (panic, w')
        → ExecutesCluster parallel run_id config portainer_port w w' panic
    steps_executed :
        (w₁ : World X) (r : Outcome (StartError Failure) (Unit {0}))
        → run (before_steps run_id config) w ≡ (ok tt, w₁)
        → ExecutesSteps run_id config portainer_port w₁ w' parallel r
        → ExecutesCluster parallel run_id config portainer_port w w' (map_err steps_failed r)

  -- The export behind a start that succeeded; its errors are only logged.
  abbrev pub export_or_fail :
      Outcome ClusterError (Unit {0}) → Program (World X) ClusterError (Unit {0})
  export_or_fail (ok u) = catch {D = ClusterError} bodies.export_devnet_info >> pure tt
  export_or_fail (err e) = raise e
  export_or_fail panic = ret panic

  -- `start_cluster` behind the steps: the errors of the teardown are only logged.
  unfoldable pub finish_cluster :
      Text → Outcome ClusterError (Unit {0}) → Program (World X) ClusterError (Unit {0})
  unfolding finalize_start_teardown on_outside
  finish_cluster run_id exec_result = do
    catch {D = ClusterError} (on_outside (finalize_start_teardown site show run_id))
    export_or_fail exec_result

  -- `start_cluster`, from the world `w` to the world `w'`
  pub data StartsCluster (parallel : Bool) (run_id : Text) (w w' : World X)
      : Outcome ClusterError (Unit {0}) → Type 0 where
    not_prepared :
        (e : ClusterError)
        → run (on_outside (prepare_cluster site p run_id)) w ≡ (err e, w')
        → StartsCluster parallel run_id w w' (err e)
    preparing_panics :
        run (on_outside (prepare_cluster site p run_id)) w ≡ (panic, w')
        → StartsCluster parallel run_id w w' panic
    steps_panic :
        (config : Config) (portainer_port : ℕ) (w₁ : World X)
        → run (on_outside (prepare_cluster site p run_id)) w ≡ (ok (config, portainer_port), w₁)
        → ExecutesCluster parallel run_id config portainer_port w₁ w' panic
        → StartsCluster parallel run_id w w' panic
    finished :
        (config : Config) (portainer_port : ℕ) (w₁ w₂ : World X)
        (exec_result r : Outcome ClusterError (Unit {0}))
        → run (on_outside (prepare_cluster site p run_id)) w ≡ (ok (config, portainer_port), w₁)
        → ExecutesCluster parallel run_id config portainer_port w₁ w₂ exec_result
        → exec_result ≢ panic
        → run (finish_cluster run_id exec_result) w₂ ≡ (r, w')
        → StartsCluster parallel run_id w w' r
