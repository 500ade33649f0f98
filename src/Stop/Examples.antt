-- ===== src/Stop/Examples.antt =====
-- A stop of a run that has the container of Lotus left, beside an unrelated one.
use foc_devnet.Base.{◌≡◌, ◌∙◌, refl, sym, ap, arith, true, false, List, [], ◌∷◌, ok}
use foc_devnet.Base.Results.{ok-injective}
use foc_devnet.Text.{Text, codes, text_eq, to_string, is_digit}
use foc_devnet.Text.Search.{trim, trim_end, contains_text, starts_with, lines, split_on}
use foc_devnet.Program.{run}
use foc_devnet.Program.Catch.{catch}
use foc_devnet.Program.Loops.{for_each}
use foc_devnet.Containers.{get_run_containers, db_container_names}
use foc_devnet.Shell.{Launch, docker_command, run_command, container_exists, container_is_running}
use foc_devnet.Shell.Containers.{container_infos, list_all_containers, list_foc_devnet_containers}
use foc_devnet.Shell.Simulated.{shown, without, printing, exists, shown-printed, exists-without}
use foc_devnet.Network.{network_exists, delete_network, delete_all_networks}
use foc_devnet.Network.Cleanup.{one_of}
use foc_devnet.Stop.{
  Machine, stop_cluster, load_current_run_id, delete_current_run_id,
  stop_and_remove_service_container, force_kill_foc_containers, force_remove_foc_networks,
}
use foc_devnet.Stop.Laws.{Containers}
use foc_devnet.Containers.{
  lotus_container_name, lotus_miner_container_name, curio_container_name, postgres_container_name,
  scylla_container_name,
}
use foc_devnet.Stop.Cluster.{stop_cluster-Gone}

-- `rm` has two arguments, and the question for one name six.
abbrev small_docker : Launch (List Text)
small_docker program (rm ∷ name ∷ []) x = (ok (printing []), without name x)
small_docker program (ps ∷ all ∷ flag ∷ filter ∷ format ∷ names ∷ []) x =
    (ok (printing (shown filter x)), x)
small_docker program args x = (ok (printing []), x)

abbrev machine : Machine (List Text)
machine = record {
  launch = small_docker;
  is_decimal = is_digit;
  home = codes "h";
  exists = λ path x. true;
  read_to_string = λ path x. (ok (codes "r"), x);
  remove_file = λ path x. (ok tt, x);
  parse_run_id = λ s. ok s;
}

adds_none :
    (program : Text) (args : List Text) (m : Text) (x : List Text)
    → exists m x ≡ false
    → exists m (small_docker program args x).1 ≡ false
adds_none program [] m x h = h
adds_none program (a ∷ []) m x h = h
adds_none program (rm ∷ name ∷ []) m x h = exists-without name m x ∙ ground arith
adds_none program (a ∷ b ∷ c ∷ []) m x h = h
adds_none program (a ∷ b ∷ c ∷ d ∷ []) m x h = h
adds_none program (a ∷ b ∷ c ∷ d ∷ e ∷ []) m x h = h
adds_none program (a ∷ b ∷ c ∷ d ∷ e ∷ f ∷ []) m x h = h
adds_none program (a ∷ b ∷ c ∷ d ∷ e ∷ f ∷ g ∷ args) m x h = h

machine-Containers : Containers machine exists
machine-Containers = record {
  ps_prints = λ n o x y (h, s). (
    sym (ap (λ o. o.stdout) (ok-injective (ap (λ r. r.0) h))) ∙ shown-printed n x,
    ap (λ r. exists n r.1) (sym h),
  );
  adds_none = λ args m x makes h. adds_none (codes "docker") args m x h;
  remove_file_keeps = λ path m x. refl;
}

abbrev two_containers : List Text
two_containers = codes "foc-r-lotus" ∷ codes "postgres" ∷ []

stop_cluster-Gone_example :
    (exists (lotus_container_name (codes "r")) (codes "postgres" ∷ []) ≡ false)
    × (exists (lotus_miner_container_name (codes "r")) (codes "postgres" ∷ []) ≡ false)
    × (exists (curio_container_name (codes "r") 2) (codes "postgres" ∷ []) ≡ false)
    × (exists (postgres_container_name (codes "r") 2) (codes "postgres" ∷ []) ≡ false)
    × (exists (scylla_container_name (codes "r") 2) (codes "postgres" ∷ []) ≡ false)
unfolding run stop_cluster load_current_run_id delete_current_run_id
    stop_and_remove_service_container force_kill_foc_containers force_remove_foc_networks catch
    for_each get_run_containers db_container_names docker_command run_command container_exists
    container_is_running list_all_containers list_foc_devnet_containers container_infos
    network_exists delete_network delete_all_networks text_eq trim trim_end contains_text
    starts_with lines split_on to_string one_of
stop_cluster-Gone_example =
    stop_cluster-Gone machine machine-Containers b'r' [] two_containers two_containers
      (codes "postgres" ∷ []) refl refl 2 (omega arith) (omega arith)
