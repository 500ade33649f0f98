-- ===== src/Cluster.antt =====
-- src/commands/start/mod.rs: `start_cluster`, from the stop of the last cluster to the teardown behind
-- the steps. What it asks of the machine is a parameter, and so are the bodies of the steps.
mod Examples
pub mod RunFiles
pub mod Teardown
pub mod Start
pub mod Outcomes
pub mod Portainer
pub mod Granted
use foc_devnet.Base.{ℕ, Bool, Option, List, Outcome}
use foc_devnet.Text.{Text}
use foc_devnet.Program.{Program}
use foc_devnet.Config.{Config}
use foc_devnet.Context.{World}
use foc_devnet.Shell.{Failure}
use foc_devnet.Stop.{Machine}
use foc_devnet.Steps.{Step}
use foc_devnet.Plan.{StartStep}

-- `VersionInfo`, constants of the build; the timestamp is in seconds.
pub record VersionInfo : Type 0 where
  pub version : Text
  pub commit : Text
  pub branch : Text
  pub dirty : Text
  pub build_time_utc : Text
  pub build_time_local : Text
  pub build_timestamp : ℕ

-- The machine that a start acts on, beyond what a stop asks of it.
pub record Site (X : Type 0) : Type 0 where
  pub machine : Machine X
  pub create_dir_all : Text → X → Outcome Failure (Unit {0}) × X
  pub write : Text → Text → X → Outcome Failure (Unit {0}) × X
  pub remove_dir_all : Text → X → Outcome Failure (Unit {0}) × X
  pub symlink : Text → Text → X → Outcome Failure (Unit {0}) × X
  pub is_symlink : Text → X → Bool
  pub is_dir : Text → X → Bool
  -- Whether each address of `host.docker.internal` is a loopback; `none` if the name is not resolved.
  pub resolve : X → Option (List Bool)
  -- The time as RFC 3339, and in seconds
  pub now : X → Text
  pub timestamp : X → ℕ
  pub current_exe : X → Outcome Failure Text
  pub version_info : VersionInfo
  -- `serde_json` on the run ID and its time, and `toml` on the configuration
  pub print_run_id : Text → Text → Outcome Failure Text
  pub parse_config : Text → Outcome Failure Config

-- What a start calls and this library does not model: the genesis, the steps and the export.
pub record Bodies (X : Type 0) : Type 0 where
  pub ensure_genesis_prerequisites : ℕ → Text → Program X Failure (Unit {0})
  pub body : StartStep → Step X Failure
  pub export_devnet_info : Program (World X) Failure (Unit {0})
