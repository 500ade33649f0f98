-- ===== src/Containers.antt =====
-- src/docker/containers.rs: the names of the containers of a run, and from src/commands/stop.rs the
-- list of those that a stop removes by name.
mod Examples
pub mod Names
pub mod Listed
use foc_devnet.Base.{ℕ, zero, suc, ◌+◌, List, [], ◌∷◌, ◌++◌, map}
use foc_devnet.Text.{Text, codes, to_string}
use foc_devnet.Config.{max_pdp_sp_count}

abbrev pub lotus_container_name : Text → Text
lotus_container_name run_id = codes "foc-" ++ (run_id ++ codes "-lotus")

abbrev pub lotus_miner_container_name : Text → Text
lotus_miner_container_name run_id = codes "foc-" ++ (run_id ++ codes "-lotus-miner")

abbrev pub builder_container_name : Text → Text
builder_container_name run_id = codes "foc-" ++ (run_id ++ codes "-builder")

abbrev pub portainer_container_name : Text → Text
portainer_container_name run_id = codes "foc-" ++ (run_id ++ codes "-portainer")

abbrev pub postgres_container_name : Text → ℕ → Text
postgres_container_name run_id sp_idx =
    codes "foc-" ++ (run_id ++ (codes "-postgres-" ++ to_string sp_idx))

abbrev pub scylla_container_name : Text → ℕ → Text
scylla_container_name run_id sp_idx =
    codes "foc-" ++ (run_id ++ (codes "-scylla-" ++ to_string sp_idx))

abbrev pub curio_container_name : Text → ℕ → Text
curio_container_name run_id sp_idx =
    codes "foc-" ++ (run_id ++ (codes "-curio-" ++ to_string sp_idx))

-- The names of `n` providers, the first of index `sp`.
abbrev pub curio_names : Text → ℕ → ℕ → List Text
curio_names run_id sp zero = []
curio_names run_id sp (suc n) = curio_container_name run_id sp ∷ curio_names run_id (sp + 1) n

abbrev pub database_names : Text → ℕ → ℕ → List Text
database_names run_id sp zero = []
database_names run_id sp (suc n) =
    postgres_container_name run_id sp
    ∷ scylla_container_name run_id sp
    ∷ database_names run_id (sp + 1) n

unfoldable pub db_container_names : Text → List Text
db_container_names run_id = database_names run_id 1 max_pdp_sp_count

abbrev pub with_service : Text → List Text → List (Text × Text)
with_service service = map (λ name. (name, service))

unfoldable pub get_run_containers : Text → List (Text × Text)
unfolding db_container_names
get_run_containers run_id =
    with_service (codes "Curio") (curio_names run_id 1 max_pdp_sp_count)
    ++ with_service (codes "Database") (db_container_names run_id)
    ++ (lotus_miner_container_name run_id, codes "Lotus-Miner")
      ∷ (lotus_container_name run_id, codes "Lotus")
      ∷ []
