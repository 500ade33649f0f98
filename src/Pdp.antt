-- ===== src/Pdp.antt =====
-- src/commands/start/pdp_service_provider: the registration of the storage providers on the chain.
mod Examples
pub mod Capabilities
pub mod Encoding
pub mod Registration
pub mod Verify
pub mod Providers
pub mod Step
pub mod Laws
pub mod Entries
pub mod Loop
pub mod Approval
pub mod Registered
pub mod Stored
pub mod Matching
pub mod Executed
use foc_devnet.Base.{ℕ}
use foc_devnet.Text.{Text, codes}

abbrev pub registration_fee_fil : ℕ
registration_fee_fil = 5

abbrev pub transaction_confirmation_wait_secs : ℕ
transaction_confirmation_wait_secs = 8

abbrev pub min_piece_size_bytes : ℕ
min_piece_size_bytes = 1024

abbrev pub max_piece_size_bytes : ℕ
max_piece_size_bytes = 1073741824

abbrev pub storage_price_per_tib_per_day : ℕ
storage_price_per_tib_per_day = 1000000000000000000

abbrev pub min_proving_period_epochs : ℕ
min_proving_period_epochs = 2880

abbrev pub location : Text
location = codes "DevNet"

abbrev pub provider_description : Text
provider_description = codes "PDP Service Provider 0 for DevNet"
