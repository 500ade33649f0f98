-- ===== src/Containers/Examples.antt =====
-- The names of one run.
use foc_devnet.Base.{arith, ◌∷◌, map}
use foc_devnet.Text.{Text, codes}
use foc_devnet.Containers.{
  lotus_container_name, lotus_miner_container_name, postgres_container_name, scylla_container_name,
  curio_container_name, portainer_container_name, builder_container_name, get_run_containers,
}
use foc_devnet.Containers.Names.{Apart, get_run_containers-Apart}
use foc_devnet.Containers.Listed.{Listed, get_run_containers-Listed}

abbrev run_id : Text
run_id = codes "20260603T1838_HonkyBean"

get_run_containers-Apart_example : Apart (
    portainer_container_name run_id
    ∷ builder_container_name run_id
    ∷ map (λ c. c.0) (get_run_containers run_id))
get_run_containers-Apart_example = get_run_containers-Apart run_id

get_run_containers-Listed_example :
    Listed (curio_container_name run_id 2) (get_run_containers run_id)
    × Listed (postgres_container_name run_id 2) (get_run_containers run_id)
    × Listed (scylla_container_name run_id 2) (get_run_containers run_id)
    × Listed (lotus_miner_container_name run_id) (get_run_containers run_id)
    × Listed (lotus_container_name run_id) (get_run_containers run_id)
get_run_containers-Listed_example = get_run_containers-Listed run_id 2 (omega arith) (omega arith)
