-- ===== src/Tokens.antt =====
-- src/commands/start/usdfc_funding: the step that distributes the tokens of MockUSDFC, with the keys of
-- key_operations.rs. What it asks of the machine beyond `Host` is a parameter.
pub mod Operations
pub mod Batches
pub mod Nonces
pub mod Sent
pub mod Step
pub mod Executed
mod Examples
use foc_devnet.Base.{ℕ, ◌*◌, ◌^◌, ◌≡◌, if◌then◌else◌, List, [], ◌∷◌, ◌++◌, map, Outcome}
use foc_devnet.Text.{Text, codes, to_string}
use foc_devnet.Text.Keys.{indexed}
use foc_devnet.Program.{Program, ret, pure, raise, gets, locked, ◌>>=◌, ◌>>◌}
use foc_devnet.Program.Loops.{range}
use foc_devnet.Paths.{◌/◌, foc_devnet_keys}
use foc_devnet.Shell.{Failure, message}
use foc_devnet.Host.{Host, KeyInfo}
use foc_devnet.Host.Files.{find_key, ok_or}
use foc_devnet.Host.Mounts.{TempfileIn}
use foc_devnet.Funding.{named}

-- `project_root` walks up from the executable; `hex_decode` is `hex::decode`.
pub record Mint (X : Type 0) : Type 0 where
  pub host : Host X
  pub tempfile_in : TempfileIn X
  pub project_root : X → Outcome Failure Text × X
  pub hex_decode : Text → Outcome Failure (List ℕ)

-- The product is below 2 ^ 256 for every `u64`.
abbrev pub token_amount_to_wei : ℕ → ℕ
token_amount_to_wei tokens = tokens * 10 ^ 18

abbrev pub transaction_confirmation_wait_secs : ℕ
transaction_confirmation_wait_secs = 5

abbrev pub user_account_count : ℕ
user_account_count = 3

abbrev user : ℕ → Text × ℕ
user i = (indexed "USER_" i "", 100000)

abbrev provider : ℕ → Text × ℕ
provider i = (indexed "PDP_SP_" i "", 200000)

-- The accounts with their tokens: the users and the active providers
abbrev pub recipients : ℕ → List (Text × ℕ)
recipients active_pdp_sp_count =
    map user (range 1 user_account_count) ++ map provider (range 1 active_pdp_sp_count)

module _ {X : Type 0} (host : Host X) where
  unfoldable pub load_state_addresses : Program X Failure (List KeyInfo)
  load_state_addresses = do
    let state_file = foc_devnet_keys host.home / codes "addresses.json"
    exists ← gets (host.exists state_file)
    if exists
        then pure tt
        else raise (message "State addresses file not found: {}" (state_file ∷ []))
    content ← locked (host.read_to_string state_file)
    ret (host.parse_keys content)

  abbrev pub user_of : Text → List KeyInfo → Outcome Failure KeyInfo
  unfolding find_key
  user_of user_name addresses =
      ok_or (message "{} not found in state addresses" (user_name ∷ []))
        (find_key (named user_name) addresses)

  unfoldable pub get_user_eth_address : Text → Program X Failure Text
  unfolding load_state_addresses find_key
  get_user_eth_address user_name = do
    addresses ← load_state_addresses
    key ← ret (user_of user_name addresses)
    ret (ok_or (message "{} does not have an Ethereum address" (user_name ∷ [])) key.eth_address)

  unfoldable pub get_user_private_key : Text → Program X Failure Text
  unfolding load_state_addresses find_key
  get_user_private_key user_name = do
    addresses ← load_state_addresses
    key ← ret (user_of user_name addresses)
    pure key.private_key
