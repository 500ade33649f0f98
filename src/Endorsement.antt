-- ===== src/Endorsement.antt =====
-- src/commands/start/endorsement: the endorsement of approved providers.
mod Examples
pub mod Operations
pub mod Step
pub mod Listing
pub mod After
use foc_devnet.Base.{ℕ}
use foc_devnet.Text.{Text, codes}

abbrev pub endorsement_container_prefix : Text
endorsement_container_prefix = codes "foc-pdp-endorse"

abbrev pub endorsement_tx_wait_secs : ℕ
endorsement_tx_wait_secs = 10

abbrev pub endorsement_gas_limit : Text
endorsement_gas_limit = codes "10000000000"
