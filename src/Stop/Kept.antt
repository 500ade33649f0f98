-- ===== src/Stop/Kept.antt =====
-- src/commands/stop.rs: a container that is gone stays so through every part of a stop.
use foc_devnet.Base.{refl, ◌∙◌, if◌then◌else◌, Bool, List, [], ◌∷◌, All}
use foc_devnet.Text.{Text, text_eq}
use foc_devnet.Program.{pure, locked, gets, Keeps, Keeps-bind}
use foc_devnet.Program.Loops.{range}
use foc_devnet.Program.Caught.{Keeps-if, Keeps-catch, Keeps-for_each}
use foc_devnet.Config.{max_pdp_sp_count}
use foc_devnet.Shell.{Failure, docker_command, container_exists, container_is_running}
use foc_devnet.Shell.Containers.{list_foc_devnet_containers, list_all_containers}
use foc_devnet.Network.{
  delete_network, network_exists, delete_all_networks, ls_args, rm_args, delete_if_there,
  lotus_network_name, lotus_miner_network_name, pdp_miner_network_name,
}
use foc_devnet.Stop.{
  Machine, stop_and_remove_service_container, stop_existing, stop_running, check_success,
  check_removed, rm_container_args, force_kill_foc_containers, force_remove_foc_networks,
  delete_current_run_id, delete_networks_of, current_run_id_file,
}
use foc_devnet.Stop.Laws.{
  Containers, Gone, docker_command-Keeps, best_effort-Keeps, container_exists-Keeps,
  container_is_running-Keeps, stop_running-Keeps,
}

module _ {A : Type 0} where
  pub All-every : (P : A → Type 0) (xs : List A) → ((x : A) → P x) → All P xs
  All-every P [] h = tt
  All-every P (x ∷ xs) h = (h x, All-every P xs h)

module _ {X : Type 0} (machine : Machine X) {there : Text → X → Bool}
    (docker : Containers machine there) (m : Text) where
  abbrev G : X → Type 0
  G = Gone machine docker m

  check_removed-Keeps : (n : Text) → Keeps G (check_removed machine.launch n)
  check_removed-Keeps n =
      Keeps-bind G (container_exists machine.launch n) _ (container_exists-Keeps machine docker m n)
        (λ still. Keeps-if G still _ _ tt tt)

  stop_existing-Keeps : (n : Text) → Keeps G (stop_existing machine.launch n)
  unfolding text_eq
  stop_existing-Keeps n =
      Keeps-bind G (container_is_running machine.launch n) _
        (container_is_running-Keeps machine docker m n)
        λ running.
          Keeps-bind G (if running then stop_running machine.launch n else pure tt) _
            (Keeps-if G running _ _ (stop_running-Keeps machine docker m n) tt)
            λ u.
              Keeps-bind G (docker_command machine.launch (rm_container_args n)) _
                (docker_command-Keeps machine docker m (rm_container_args n) refl)
                λ o.
                  Keeps-bind G (check_success machine.launch _ n o) _
                    (Keeps-if G o.success _ _ tt tt) λ v. check_removed-Keeps n

  pub stop_and_remove-Keeps :
      (n : Text) → Keeps G (stop_and_remove_service_container machine.launch n)
  unfolding stop_and_remove_service_container
  stop_and_remove-Keeps n =
      Keeps-bind G (container_exists machine.launch n) _ (container_exists-Keeps machine docker m n)
        λ exists. Keeps-if G exists _ _ (stop_existing-Keeps n) tt

  pub force_kill-Keeps : Keeps G (force_kill_foc_containers machine.launch machine.is_decimal)
  unfolding force_kill_foc_containers list_foc_devnet_containers list_all_containers text_eq
  force_kill-Keeps =
      Keeps-bind G (list_foc_devnet_containers machine.launch machine.is_decimal) _
        (Keeps-bind G (list_all_containers machine.launch) _
          (Keeps-bind G (docker_command machine.launch _) _
            (docker_command-Keeps machine docker m _ refl) (λ o. tt))
          (λ cs. tt))
        λ cs.
          Keeps-for_each G cs _ (All-every _ cs (λ c. best_effort-Keeps machine docker m _ refl))

  network_exists-Keeps : (n : Text) → Keeps G (network_exists machine.launch n)
  unfolding network_exists text_eq
  network_exists-Keeps n =
      Keeps-bind G (docker_command machine.launch (ls_args n)) _
        (docker_command-Keeps machine docker m (ls_args n) refl) (λ o. tt)

  delete_network-Keeps : (n : Text) → Keeps G (delete_network machine.launch n)
  unfolding delete_network text_eq
  delete_network-Keeps n =
      Keeps-bind G (network_exists machine.launch n) _ (network_exists-Keeps n) λ b.
        Keeps-if G b _ _
          (Keeps-bind G (docker_command machine.launch (rm_args n)) _
            (docker_command-Keeps machine docker m (rm_args n) refl) (λ o. tt))
          tt

  delete_if_there-Keeps : (n : Text) → Keeps G (delete_if_there machine.launch n)
  delete_if_there-Keeps n =
      Keeps-bind G (network_exists machine.launch n) _ (network_exists-Keeps n)
        λ b. Keeps-if G b _ _ (delete_network-Keeps n) tt

  delete_all-Keeps : (run_id : Text) → Keeps G (delete_all_networks machine.launch run_id)
  unfolding delete_all_networks
  delete_all-Keeps run_id =
      Keeps-bind G (delete_network machine.launch (lotus_network_name run_id)) _
        (delete_network-Keeps (lotus_network_name run_id))
        λ u.
          Keeps-bind G (delete_network machine.launch (lotus_miner_network_name run_id)) _
            (delete_network-Keeps (lotus_miner_network_name run_id))
            λ v. Keeps-for_each G (range 1 max_pdp_sp_count) _ (
              All-every _ (range 1 max_pdp_sp_count)
                (λ i. delete_if_there-Keeps (pdp_miner_network_name run_id i)))

  pub delete_networks_of-Keeps : (run_id : Text) → Keeps G (delete_networks_of machine run_id)
  delete_networks_of-Keeps [] = tt
  delete_networks_of-Keeps (c ∷ run_id) =
      Keeps-bind G _ _
        (Keeps-catch Failure G (delete_all_networks machine.launch (c ∷ run_id))
          (delete_all-Keeps (c ∷ run_id)))
        (λ r. tt)

  pub force_remove-Keeps : Keeps G (force_remove_foc_networks machine.launch machine.is_decimal)
  unfolding force_remove_foc_networks text_eq
  force_remove-Keeps =
      Keeps-bind G (docker_command machine.launch _) _
        (docker_command-Keeps machine docker m _ refl)
        λ o.
          Keeps-for_each G _ _
            (All-every _ _ (λ n. best_effort-Keeps machine docker m (rm_args n) refl))

  pub delete_current_run_id-Keeps : Keeps G (delete_current_run_id machine)
  unfolding delete_current_run_id
  delete_current_run_id-Keeps =
      Keeps-bind G (gets (machine.exists (current_run_id_file machine))) _ (λ x g. (g, tt))
        λ b.
          Keeps-if G b (locked (machine.remove_file (current_run_id_file machine))) (pure tt)
            (λ x g. (docker.remove_file_keeps (current_run_id_file machine) m x ∙ g, tt)) tt
