-- ===== src/Paths.antt =====
-- src/paths.rs: the paths of the files of a run, under the home directory that the environment gives.
use foc_devnet.Base.{ℕ, ◌∷◌, ◌++◌}
use foc_devnet.Text.{Text, codes, to_string}

-- `join` of a relative path
infixl 5 ◌/◌
abbrev pub ◌/◌ : Text → Text → Text
path / component = path ++ b'/' ∷ component

module _ (home : Text) where
  abbrev pub foc_devnet_runs : Text
  foc_devnet_runs = home / codes "run"

  abbrev pub foc_devnet_run_dir : Text → Text
  foc_devnet_run_dir run_id = foc_devnet_runs / run_id

  abbrev pub contract_addresses_file : Text → Text
  contract_addresses_file run_id = foc_devnet_run_dir run_id / codes "contract_addresses.json"

  abbrev pub devnet_info_file : Text → Text
  devnet_info_file run_id = foc_devnet_run_dir run_id / codes "devnet-info.json"

  abbrev pub foc_devnet_state : Text
  foc_devnet_state = home / codes "state"

  abbrev pub foc_devnet_state_latest : Text
  foc_devnet_state_latest = foc_devnet_state / codes "latest"

  abbrev pub foc_devnet_keys : Text
  foc_devnet_keys = home / codes "keys"

  abbrev pub foc_devnet_config : Text
  foc_devnet_config = home / codes "config.toml"

  abbrev pub foc_devnet_docker_volumes : Text
  foc_devnet_docker_volumes = home / codes "docker" / codes "volumes"

  abbrev pub foc_devnet_docker_volumes_run_specific_root : Text
  foc_devnet_docker_volumes_run_specific_root = foc_devnet_docker_volumes / codes "run-specific"

  abbrev pub foc_devnet_docker_volumes_run_specific : Text → Text
  foc_devnet_docker_volumes_run_specific run_id =
      foc_devnet_docker_volumes_run_specific_root / run_id

  abbrev pub foc_devnet_lotus_keys : Text → Text
  foc_devnet_lotus_keys run_id = foc_devnet_docker_volumes_run_specific run_id / codes "lotus-keys"

  abbrev pub pdp_sps_dir : Text → Text
  pdp_sps_dir run_id = foc_devnet_run_dir run_id / codes "pdp_sps"

  abbrev pub pdp_sp_provider_id_file : Text → ℕ → Text
  pdp_sp_provider_id_file run_id sp_idx =
      pdp_sps_dir run_id / (to_string sp_idx ++ codes ".provider_id.json")
