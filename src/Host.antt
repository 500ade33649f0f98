-- ===== src/Host.antt =====
-- What the steps of a start ask of the machine: programs, files and the formats of the files. All of
-- it is a parameter; src/commands/start/foc_deploy/contract_addresses.rs,
-- src/commands/start/pdp_service_provider/provider_id.rs and src/commands/init/keys.rs say which files.
pub mod Files
pub mod Chain
pub mod Frame
pub mod Steady
pub mod Mounts
use foc_devnet.Base.{ℕ, Bool, Option, List, Outcome}
use foc_devnet.Text.{Text}
use foc_devnet.Dict.{Dict}
use foc_devnet.Shell.{Launch, Failure}

pub record ContractAddresses : Type 0 where
  pub contracts : Dict
  pub foc_contracts : Dict
  pub filbeam_controller : Option Text
  pub filbeam_beneficiary : Option Text

pub record ProviderIdInfo : Type 0 where
  pub provider_id : ℕ
  pub provider_address : Text
  pub payee_address : Text

pub record KeyInfo : Type 0 where
  pub name : Text
  pub private_key : Text
  pub filecoin_address : Option Text
  pub eth_address : Option Text

pub record Host (X : Type 0) : Type 0 where
  pub launch : Launch X
  pub home : Text
  pub exists : Text → X → Bool
  pub read_to_string : Text → X → Outcome Failure Text × X
  pub create_dir_all : Text → X → Outcome Failure (Unit {0}) × X
  pub write : Text → Text → X → Outcome Failure (Unit {0}) × X
  -- `serde_json` on the types of the files, and on the `status` of a receipt if that is a string
  pub parse_addresses : Text → Outcome Failure ContractAddresses
  pub parse_provider_id : Text → Outcome Failure ProviderIdInfo
  pub print_provider_id : ProviderIdInfo → Outcome Failure Text
  pub parse_keys : Text → Outcome Failure (List KeyInfo)
  pub receipt_status : Text → Outcome Failure (Option Text)
  -- `hex::encode`
  pub hex_encode : List ℕ → Text
