-- ===== src/Network.antt =====
-- src/docker/network.rs: the Docker networks of a run.
mod Examples
pub mod Laws
pub mod Cleanup
pub mod Pattern
use foc_devnet.Base.{
  ℕ, zero, suc, ◌+◌, if◌then◌else◌, Bool, true, false, not, none, some, ◌==◌, ◌&&◌, ◌||◌, List, [],
  ◌∷◌, ◌++◌, map,
}
use foc_devnet.Text.{Text, codes, to_string, text_eq}
use foc_devnet.Text.Split.{strip_prefix}
use foc_devnet.Text.Search.{trim, contains_text, starts_with}
use foc_devnet.Program.{Program, ret, act, pure, ◌>>=◌, ◌>>◌}
use foc_devnet.Program.Loops.{range, for_each}
use foc_devnet.Config.{max_pdp_sp_count}
use foc_devnet.Shell.{Launch, Failure, Output, docker_command, exactly}

abbrev pub lotus_network_name : Text → Text
lotus_network_name run_id = codes "foc_" ++ (run_id ++ codes "_lot-net")

abbrev pub lotus_miner_network_name : Text → Text
lotus_miner_network_name run_id = codes "foc_" ++ (run_id ++ codes "_lot-m-net")

abbrev pub pdp_miner_network_name : Text → ℕ → Text
pdp_miner_network_name run_id sp_idx =
    codes "foc_" ++ (run_id ++ (codes "_cur-m-net-" ++ to_string sp_idx))

-- The arguments of the commands about one network.
abbrev pub ls_args : Text → List Text
ls_args name =
    codes "network"
    ∷ codes "ls"
    ∷ codes "--filter"
    ∷ exactly name
    ∷ codes "--format"
    ∷ codes "{{.Name}}"
    ∷ []

abbrev pub create_args : Text → List Text
create_args name = codes "network" ∷ codes "create" ∷ codes "--driver" ∷ codes "bridge" ∷ name ∷ []

abbrev pub rm_args : Text → List Text
rm_args name = codes "network" ∷ codes "rm" ∷ name ∷ []

module _ {X : Type 0} (launch : Launch X) where
  unfoldable pub network_exists : Text → Program X Failure Bool
  network_exists network_name = do
    output ← docker_command launch (ls_args network_name)
    pure (contains_text network_name (trim output.stdout))

  unfoldable pub create_network : Text → Program X Failure (Unit {0})
  create_network network_name = do
    exists ← network_exists network_name
    if exists then pure tt else docker_command launch (create_args network_name) >> pure tt

  unfoldable pub delete_network : Text → Program X Failure (Unit {0})
  delete_network network_name = do
    exists ← network_exists network_name
    if exists then docker_command launch (rm_args network_name) >> pure tt else pure tt

  unfoldable pub create_all_networks : Text → ℕ → Program X Failure (Unit {0})
  create_all_networks run_id active_pdp_sp_count = do
    create_network (lotus_network_name run_id)
    create_network (lotus_miner_network_name run_id)
    for_each (range 1 active_pdp_sp_count) λ i. create_network (pdp_miner_network_name run_id i)

  abbrev pub delete_if_there : Text → Program X Failure (Unit {0})
  delete_if_there net_name = do
    exists ← network_exists net_name
    if exists then delete_network net_name else pure tt

  unfoldable pub delete_all_networks : Text → Program X Failure (Unit {0})
  delete_all_networks run_id = do
    delete_network (lotus_network_name run_id)
    delete_network (lotus_miner_network_name run_id)
    for_each (range 1 max_pdp_sp_count) λ i. delete_if_there (pdp_miner_network_name run_id i)

  unfoldable pub connect_container_to_network : Text → Text → Program X Failure (Unit {0})
  connect_container_to_network container_name network_name =
      docker_command launch (codes "network" ∷ codes "connect" ∷ network_name ∷ container_name ∷ [])
      >> pure tt

-- The text begins with `p`, and the test holds of what is behind.
abbrev pub matches_behind : Text → (Text → Bool) → Text → Bool
matches_behind p test s = elim (strip_prefix p s) [ none ↦ false | some rest ↦ test rest ]

-- The regular expression `^foc_.+_(lot-net|lot-m-net|cur-m-net-\d+)$`. Which characters `\d` takes is
-- for the library of regular expressions to say.
module _ (is_decimal : ℕ → Bool) where
  abbrev pub all_decimal : Text → Bool
  all_decimal [] = true
  all_decimal (c ∷ s) = is_decimal c && all_decimal s

  abbrev pub some_decimal : Text → Bool
  some_decimal [] = false
  some_decimal (c ∷ s) = all_decimal (c ∷ s)

  -- `_(lot-net|lot-m-net|cur-m-net-\d+)$`
  abbrev pub is_known_suffix : Text → Bool
  is_known_suffix s =
      text_eq (codes "_lot-net") s
      || text_eq (codes "_lot-m-net") s
      || matches_behind (codes "_cur-m-net-") some_decimal s

  -- `.+` and a known suffix, of a text that is read from its first character on.
  pub suffix_later : Text → Bool
  suffix_later [] = false
  suffix_later (c ∷ s) = not (c == b'\n') && (is_known_suffix s || suffix_later s)

  unfoldable pub is_foc_devnet_network : Text → Bool
  is_foc_devnet_network name = matches_behind (codes "foc_") suffix_later name
