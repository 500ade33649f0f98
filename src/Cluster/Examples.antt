-- ===== src/Cluster/Examples.antt =====
-- A start on a machine where every command succeeds and prints nothing, with steps that do nothing.
use foc_devnet.Base.{◌≡◌, refl, arith, true, false, some, [], ◌∷◌, map, InRange, contains, ok}
use foc_devnet.Words.{debug, add_u16}
use foc_devnet.Text.{Text, codes, to_string, is_digit, text_eq}
use foc_devnet.Text.Search.{trim, trim_end, contains_text, starts_with, lines, split_on}
use foc_devnet.Config.{Config, default, validate}
use foc_devnet.Containers.{get_run_containers, db_container_names}
use foc_devnet.Context.{World, missing}
use foc_devnet.Ports.{PortAllocator, new, allocate, mark_allocated}
use foc_devnet.Ports.Sessions.{one, serve}
use foc_devnet.Program.{run, pure}
use foc_devnet.Program.Catch.{catch}
use foc_devnet.Program.Loops.{for_each}
use foc_devnet.Shell.{
  Failure, docker_command, run_command, container_exists, container_is_running, stop_container,
  remove_container,
}
use foc_devnet.Shell.Containers.{
  container_infos, list_all_containers, list_foc_devnet_containers, find_existing_portainer,
  start_portainer,
}
use foc_devnet.Shell.Simulated.{printing}
use foc_devnet.Network.{
  network_exists, create_network, delete_network, create_all_networks, delete_all_networks,
}
use foc_devnet.Stop.{
  stop_cluster, load_current_run_id, delete_current_run_id, stop_and_remove_service_container,
  force_kill_foc_containers, force_remove_foc_networks,
}
use foc_devnet.Steps.{prepare, check_ports, mark_portainer, execute_steps}
use foc_devnet.Plan.{create_steps}
use foc_devnet.Cluster.{Site, Bodies}
use foc_devnet.Cluster.RunFiles.{
  save_current_run_id, create_latest_symlink, write_version_file, version_text,
  calculate_relative_time,
}
use foc_devnet.Cluster.Start.{
  prepare_cluster, check_host_docker_internal, stop_existing_cluster, setup_directories_and_run_id,
  stop_running_containers, load_and_validate_config, portainer_port_of, step_config, finish_cluster,
}
use foc_devnet.Cluster.Granted.{Behind, prepare_cluster-granted}

abbrev config : Config
config = record default { port_range_start = 5700; port_range_count = 3 }

abbrev site : Site (Unit {0})
site = record {
  machine = record {
    launch = λ program args x. (ok (printing []), x);
    is_decimal = is_digit;
    home = codes "h";
    exists = λ path x. true;
    read_to_string = λ path x. (ok [], x);
    remove_file = λ path x. (ok tt, x);
    parse_run_id = λ s. ok (codes "old");
  };
  create_dir_all = λ path x. (ok tt, x);
  write = λ path s x. (ok tt, x);
  remove_dir_all = λ path x. (ok tt, x);
  symlink = λ path link x. (ok tt, x);
  is_symlink = λ path x. true;
  is_dir = λ path x. false;
  resolve = λ x. some (false ∷ true ∷ []);
  now = λ x. [];
  timestamp = λ x. 7;
  current_exe = λ x. ok (codes "foc-devnet");
  version_info = record {
    version = [];
    commit = [];
    branch = [];
    dirty = [];
    build_time_utc = [];
    build_time_local = [];
    build_timestamp = 0;
  };
  print_run_id = λ run_id started_at. ok run_id;
  parse_config = λ s. ok config;
}

abbrev bodies : Bodies (Unit {0})
bodies = record {
  ensure_genesis_prerequisites = λ n run_id. pure tt;
  body =
      λ s. record { name = []; pre_execute = pure tt; execute = pure tt; post_execute = pure tt };
  export_devnet_info = pure tt;
}

abbrev world : World (Unit {0})
world = record {
  context = record {
    state = [];
    run_id = [];
    run_dir = [];
    port_allocator = record { start = 1; count = 1; allocated = []; next = 1 };
    allocator_poisoned = false;
  };
  file = missing;
  writes = [];
  clock = 0;
  outside = tt;
}

abbrev prepared : PortAllocator
prepared = record { start = 5700; count = 3; allocated = 5700 ∷ []; next = 5700 }

comes_to_steps : run (prepare_cluster site debug (codes "r")) tt ≡ (ok (config, 5700), tt)
unfolding run prepare_cluster check_host_docker_internal stop_existing_cluster stop_cluster
    setup_directories_and_run_id stop_running_containers load_and_validate_config portainer_port_of
    validate load_current_run_id delete_current_run_id stop_and_remove_service_container
    force_kill_foc_containers force_remove_foc_networks catch for_each get_run_containers
    db_container_names docker_command run_command container_exists container_is_running
    list_all_containers list_foc_devnet_containers container_infos network_exists create_network
    delete_network create_all_networks delete_all_networks text_eq trim trim_end contains_text
    starts_with lines split_on to_string save_current_run_id create_latest_symlink
    write_version_file version_text calculate_relative_time start_portainer find_existing_portainer
    new allocate stop_container remove_container add_u16 contains
comes_to_steps = refl

prepares :
    prepare {E = Failure} debug (λ q. true) true (step_config (codes "h") (codes "r") config 5700)
    ≡ ok prepared
unfolding prepare check_ports mark_portainer new mark_allocated contains add_u16
prepares = refl

prepare_cluster-granted_example :
    (validate config ≡ ok tt)
    × InRange 5700 3 5700
    × Behind site debug (codes "r") config 5700 tt
    × (contains 5700 (serve debug (one ∷ []) prepared).0 ≡ false)
prepare_cluster-granted_example =
    prepare_cluster-granted site debug (codes "r") config 5700 tt tt comes_to_steps (omega arith)
      (λ q. true) true prepared prepares (one ∷ [])

abbrev no_text : Failure → Text
no_text e = []

abbrev executed : World (Unit {0})
executed =
    (run
      (execute_steps (λ n. []) debug (λ q. true) (map bodies.body (create_steps config))
        (step_config (codes "h") (codes "r") config 5700))
      world).1

abbrev started : World (Unit {0})
started =
    (run (finish_cluster site bodies (λ n. []) no_text debug (λ q. true) (codes "r") (ok tt))
      executed).1
