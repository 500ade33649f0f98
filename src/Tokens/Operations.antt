-- ===== src/Tokens/Operations.antt =====
-- src/commands/start/usdfc_funding/funding_operations.rs: a transfer of tokens and the check of a balance,
-- each a command of Foundry in a container.
use foc_devnet.Base.{
  ℕ, ◌+◌, ◌-◌, ◌*◌, ◌==◌, leb, ◌||◌, if◌then◌else◌, Option, none, some, List, [], ◌∷◌, ◌++◌, length,
  Outcome, ok, panic, map_err,
}
use foc_devnet.Text.{Text, codes, to_string, text_eq}
use foc_devnet.Text.Bytes.{utf8_length}
use foc_devnet.Text.Search.{trim}
use foc_devnet.Text.Split.{strip_prefix}
use foc_devnet.Paths.{◌/◌}
use foc_devnet.Program.{Program, ret, pure, raise, locked, ◌>>=◌, ◌>>◌}
use foc_devnet.Program.Catch.{retry_program}
use foc_devnet.Retry.{default_max_retries, default_retry_delay_secs}
use foc_devnet.Context.{World}
use foc_devnet.Shell.{Failure, Output, message, about}
use foc_devnet.Shell.Log.{on_outside, run_and_log_command_strings}
use foc_devnet.Host.Chain.{concat, sleep, get_run_id}
use foc_devnet.Host.Mounts.{bind_mount}
use foc_devnet.Tokens.{Mint}

pub record UsdfcTransferParams : Type 0 where
  pub from_private_key : Text
  pub to_eth_address : Text
  pub amount : Text
  pub token_address : Text
  pub description : Text
  pub nonce : Option ℕ
  pub lotus_rpc_url : Text

-- `replace` of a character; 8594 is that of the arrow.
abbrev pub replace : ℕ → Text → Text → Text
replace c by [] = []
replace c by (d ∷ s) = if d == c then by ++ replace c by s else d ∷ replace c by s

abbrev pub nonce_option : Option ℕ → Text
nonce_option none = []
nonce_option (some nonce_val) = codes " --nonce " ++ to_string nonce_val

abbrev pub cast_send : UsdfcTransferParams → Text
cast_send params = concat (
    codes "cd /workspace && cast send "
    ∷ params.token_address
    ∷ codes " --private-key "
    ∷ params.from_private_key
    ∷ codes " --rpc-url "
    ∷ params.lotus_rpc_url
    ∷ codes " 'transfer(address,uint256)' "
    ∷ params.to_eth_address
    ∷ codes " "
    ∷ params.amount
    ∷ codes " --gas-limit 100000000"
    ∷ nonce_option params.nonce
    ∷ [])

abbrev pub transfer_args : Text → Text → UsdfcTransferParams → List Text
transfer_args run_id workspace_mount params =
    codes "run"
    ∷ codes "--name"
    ∷ concat (
        codes "foc-"
        ∷ run_id
        ∷ codes "-usdfc-transfer-"
        ∷ replace 8594 (codes "to") (replace b' ' (codes "-") params.description)
        ∷ [])
    ∷ codes "--network"
    ∷ codes "host"
    ∷ codes "--mount"
    ∷ workspace_mount
    ∷ codes "foc-builder"
    ∷ codes "bash"
    ∷ codes "-c"
    ∷ cast_send params
    ∷ []

-- `eth_address` is cut to eight bytes.
abbrev balance_args : Text → Text → Text → Text → Text → Text → List Text
balance_args run_id short workspace_mount eth_address token_address lotus_rpc_url =
    codes "run"
    ∷ codes "--rm"
    ∷ codes "--name"
    ∷ concat (codes "foc-" ∷ run_id ∷ codes "-usdfc-balance-check-" ∷ short ∷ [])
    ∷ codes "--network"
    ∷ codes "host"
    ∷ codes "--mount"
    ∷ workspace_mount
    ∷ codes "foc-builder"
    ∷ codes "bash"
    ∷ codes "-c"
    ∷ concat (
        codes "cd /workspace && cast call "
        ∷ token_address
        ∷ codes " --rpc-url "
        ∷ lotus_rpc_url
        ∷ codes " 'balanceOf(address)' "
        ∷ eth_address
        ∷ [])
    ∷ []

-- `U256::from_big_endian`, which panics on more than 32 bytes
abbrev big_endian : ℕ → List ℕ → ℕ
big_endian n [] = n
big_endian n (b ∷ bytes) = big_endian (n * 256 + b) bytes

abbrev from_big_endian : List ℕ → Outcome Failure ℕ
from_big_endian bytes = if leb (length bytes) 32 then ok (big_endian 0 bytes) else panic

-- `strip_prefix(prefix).unwrap_or(s)`
abbrev without_prefix : Text → Option Text → Text
without_prefix s none = s
without_prefix s (some rest) = rest

abbrev after_char : ℕ → Option Text → Option Text
after_char c none = none
after_char c (some s) = some (c ∷ s)

-- `&s[..n]`, `none` where the slice panics
unfoldable pub to_byte : ℕ → Text → Option Text
to_byte n [] = if n == 0 then some [] else none
to_byte n (c ∷ s) =
    let rest = to_byte (n - utf8_length c) s in
    if n == 0 then some [] else if leb (utf8_length c) n then after_char c rest else none

abbrev slice : Option Text → Outcome Failure Text
slice none = panic
slice (some s) = ok s

module _ {X : Type 0} (mint : Mint X) where
  abbrev pub mount_workspace : Program (World X) Failure Text
  mount_workspace =
      on_outside (bind_mount mint.host mint.tempfile_in (codes "/tmp") (codes "/workspace"))

  abbrev pub transfer_key : UsdfcTransferParams → Text
  transfer_key params = codes "usdfc_transfer_" ++ replace b' ' (codes "_") params.description

  abbrev pub after_transfer : Output → Program (World X) Failure (Unit {0})
  after_transfer output =
      if output.success
      then pure tt
      else raise (message "Failed to transfer MockUSDFC: {}" (output.stderr ∷ []))

  abbrev pub run_transfer : UsdfcTransferParams → Text → Text → Program (World X) Failure (Unit {0})
  run_transfer params run_id workspace_mount = do
    output ←
        run_and_log_command_strings mint.host.launch (codes "docker")
          (transfer_args run_id workspace_mount params) (transfer_key params)
    after_transfer output

  unfoldable pub transfer_mock_usdfc : UsdfcTransferParams → Program (World X) Failure (Unit {0})
  unfolding on_outside run_and_log_command_strings bind_mount get_run_id
  transfer_mock_usdfc params = do
    run_id ← get_run_id
    workspace_mount ← mount_workspace
    run_transfer params run_id workspace_mount

  abbrev decode_hex : Text → Outcome Failure (List ℕ)
  decode_hex hex_str =
      map_err (about "Failed to decode hex string: {}: {}" (hex_str ∷ [])) (mint.hex_decode hex_str)

  abbrev read_balance : Text → Program (World X) Failure ℕ
  unfolding strip_prefix
  read_balance balance_hex =
      if text_eq balance_hex [] || text_eq balance_hex (codes "0x") then pure 0 else do
        bytes ←
            ret (decode_hex (without_prefix balance_hex (strip_prefix (codes "0x") balance_hex)))
        ret (from_big_endian bytes)

  -- One attempt
  unfoldable pub query_balance : Text → Text → Text → Program (World X) Failure ℕ
  unfolding on_outside run_and_log_command_strings bind_mount get_run_id to_byte strip_prefix trim
  query_balance eth_address token_address lotus_rpc_url = do
    run_id ← get_run_id
    short ← ret (slice (to_byte 8 eth_address))
    root ← on_outside (locked mint.project_root)
    workspace_mount ← on_outside (
        bind_mount mint.host mint.tempfile_in (root / codes "contracts/MockUSDFC")
          (codes "/workspace"))
    output ←
        run_and_log_command_strings mint.host.launch (codes "docker")
          (balance_args run_id short workspace_mount eth_address token_address lotus_rpc_url)
          (codes "usdfc_balance_check_" ++ eth_address)
    if output.success
        then pure tt
        else raise (message "Failed to check balance for {}: {}" (eth_address ∷ output.stderr ∷ []))
    read_balance (trim output.stdout)

  abbrev no_error : Failure
  no_error = message "Operation failed with no error" []

  unfoldable pub check_mock_usdfc_balance : Text → Text → Text → Program (World X) Failure ℕ
  unfolding query_balance retry_program
  check_mock_usdfc_balance eth_address token_address lotus_rpc_url =
      retry_program sleep no_error (query_balance eth_address token_address lotus_rpc_url)
        default_max_retries default_retry_delay_secs
