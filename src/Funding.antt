-- ===== src/Funding.antt =====
-- src/commands/start/eth_acc_funding: the step that funds the accounts of a run from the faucet, and
-- src/commands/start/lotus_utils/account_readiness.rs. What the step asks of the machine beyond
-- `Host`, floating-point numbers included, is a parameter.
pub mod Faucet
pub mod Transfers
pub mod Balances
pub mod Step
pub mod Sent
pub mod Kept
pub mod Executed
mod Examples
use foc_devnet.Base.{
  ℕ, leb, if◌then◌else◌, Bool, true, false, Option, none, some, List, [], ◌∷◌, ◌++◌, map, Outcome,
}
use foc_devnet.Text.{Text, codes, text_eq, parse_uint, max_u64}
use foc_devnet.Text.Split.{strip_prefix}
use foc_devnet.Shell.{Failure}
use foc_devnet.Host.{Host, KeyInfo}
use foc_devnet.Host.Files.{lower, find_key}

-- `read_dir` gives no name for an entry that it cannot read or whose name is no UTF-8; `F` is `f64`.
pub record Node (X F : Type 0) : Type 0 where
  pub host : Host X
  pub read_dir : Text → X → Outcome Failure (List (Option Text)) × X
  pub remove_file : Text → X → Outcome Failure (Unit {0}) × X
  -- `hex::encode` on a text
  pub hex_encode_text : Text → Text
  pub parse_f64 : Text → Outcome Failure F
  pub print_f64 : F → Text
  pub at_least : F → ℕ → Bool

abbrev pub global_fil_faucet_key : Text
global_fil_faucet_key = codes "GLOBAL_FIL_FAUCET"

abbrev pub transaction_confirmation_wait_secs : ℕ
transaction_confirmation_wait_secs = 6

abbrev pub fevm_accounts_prefunded : List (Text × ℕ)
fevm_accounts_prefunded =
    (codes "DEPLOYER_MOCKUSDFC", 10)
    ∷ (codes "DEPLOYER_FOC", 10)
    ∷ (codes "DEPLOYER_MULTICALL3", 10)
    ∷ (codes "PDP_SP_1", 1000)
    ∷ (codes "PDP_SP_2", 1000)
    ∷ (codes "PDP_SP_3", 1000)
    ∷ (codes "PDP_SP_4", 1000)
    ∷ (codes "PDP_SP_5", 1000)
    ∷ (codes "USER_1", 1000)
    ∷ (codes "USER_2", 1000)
    ∷ (codes "USER_3", 1000)
    ∷ []

-- `parse().unwrap_or(0)`
abbrev or_zero : Option ℕ → ℕ
or_zero none = 0
or_zero (some n) = n

abbrev pub sp_within : ℕ → Option Text → Bool
sp_within count none = true
sp_within count (some number) = leb (or_zero (parse_uint max_u64 number)) count

-- The accounts of the providers that are not active are left out.
unfoldable pub is_active : ℕ → Text → Bool
unfolding strip_prefix parse_uint
is_active count name = sp_within count (strip_prefix (codes "PDP_SP_") name)

-- The accounts that the loops do not skip
unfoldable pub active_accounts : ℕ → List (Text × ℕ) → List (Text × ℕ)
unfolding is_active
active_accounts count [] = []
active_accounts count ((name, amount) ∷ accounts) =
    if is_active count name
    then (name, amount) ∷ active_accounts count accounts
    else active_accounts count accounts

abbrev pub address_key : Text → Text
address_key name = map lower name ++ codes "_address"

abbrev pub eth_address_key : Text → Text
eth_address_key name = map lower name ++ codes "_eth_address"

abbrev pub named : Text → KeyInfo → Bool
named name k = text_eq k.name name
