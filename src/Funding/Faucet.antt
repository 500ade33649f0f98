-- ===== src/Funding/Faucet.antt =====
-- src/commands/start/eth_acc_funding/lotus_checks.rs and key_operations.rs, and
-- `import_global_faucet_key` of eth_acc_funding_step.rs: the faucet's key among the files of the run.
use foc_devnet.Base.{
  ◌&&◌, if◌then◌else◌, Bool, true, false, Option, none, some, List, [], ◌∷◌, ◌++◌, Outcome, ok, err,
}
use foc_devnet.Text.{Text, codes}
use foc_devnet.Text.Split.{strip_prefix}
use foc_devnet.Text.Search.{trim, contains_text, starts_with, lines, split_whitespace}
use foc_devnet.Program.{Program, ret, pure, raise, gets, locked, map_error, ◌>>=◌, ◌>>◌}
use foc_devnet.Program.Catch.{catch}
use foc_devnet.Context.{World}
use foc_devnet.Containers.{lotus_container_name}
use foc_devnet.Paths.{◌/◌, foc_devnet_lotus_keys}
use foc_devnet.Shell.{Failure, Output, message, about, exactly}
use foc_devnet.Shell.Log.{on_outside, run_and_log_command_strings}
use foc_devnet.Host.Files.{ok_or}
use foc_devnet.Host.Chain.{get_run_id}
use foc_devnet.Funding.{Node, global_fil_faucet_key}

-- `strip_suffix`
unfoldable pub strip_suffix : Text → Text → Option Text
unfolding strip_prefix
strip_suffix p [] = elim (strip_prefix p []) [ some [] ↦ some [] | _ ↦ none ]
strip_suffix p (c ∷ s) = elim (strip_prefix p (c ∷ s)) [
  | some [] ↦ some []
  | _ ↦ elim (strip_suffix p s) [ none ↦ none | some front ↦ some (c ∷ front) ]
]

-- A file name `bls-<address>.keyinfo`
unfoldable pub is_bls_keyinfo : Text → Bool
unfolding starts_with strip_suffix
is_bls_keyinfo name =
    starts_with (codes "bls-") name
    && elim (strip_suffix (codes ".keyinfo") name) [ none ↦ false | some front ↦ true ]

unfoldable pub keyinfo_names : List (Option Text) → List Text
unfolding is_bls_keyinfo
keyinfo_names [] = []
keyinfo_names (none ∷ entries) = keyinfo_names entries
keyinfo_names (some name ∷ entries) =
    if is_bls_keyinfo name then name ∷ keyinfo_names entries else keyinfo_names entries

-- The first name; the error is for none.
abbrev first_name : Failure → List Text → Outcome Failure Text
first_name error [] = err error
first_name error (name ∷ names) = ok name

-- The text before the first occurrence of the separator, and the text behind it.
unfoldable pub cut_at : Text → Text → Text × Option Text
unfolding strip_prefix
cut_at sep [] = ([], none)
cut_at sep (c ∷ s) = elim (strip_prefix sep (c ∷ s)) [
  | some rest ↦ ([], some rest)
  | none ↦ let (front, rest) = cut_at sep s in (c ∷ front, rest)
]

-- `split("wallet-").nth(1)`, then `split('\'').next()`
unfoldable pub existing_address : Text → Option Text
unfolding cut_at
existing_address stderr = elim (cut_at (codes "wallet-") stderr).1 [
  | none ↦ none
  | some rest ↦ some (cut_at (codes "'") (cut_at (codes "wallet-") rest).0).0
]

-- `nth(2)`
abbrev third : List Text → Option Text
third [] = none
third (a ∷ []) = none
third (a ∷ b ∷ []) = none
third (a ∷ b ∷ c ∷ rest) = some c

-- `find(|line| line.starts_with("imported key"))`, then `split_whitespace().nth(2)`
unfoldable pub imported_address : List Text → Option Text
unfolding starts_with split_whitespace
imported_address [] = none
imported_address (line ∷ rest) =
    if starts_with (codes "imported key") line
    then third (split_whitespace line)
    else imported_address rest

-- What `lotus wallet import` came to.
abbrev pub imported : Output → Outcome Failure Text
imported output =
    if output.success
    then ok_or (message "Failed to extract imported address" [])
        (imported_address (lines output.stdout))
    else if contains_text (codes "key already exists") output.stderr
    then ok_or (message "Failed to extract existing address from error" [])
        (existing_address output.stderr)
    else err (message "Failed to import GLOBAL_FIL_FAUCET key: {}" (output.stderr ∷ []))

module _ {X F : Type 0} (node : Node X F) where
  abbrev pub faucet_key_dir : Text → Text
  faucet_key_dir run_id = foc_devnet_lotus_keys node.host.home run_id / global_fil_faucet_key

  -- `check_lotus_running`; the command may fail, and is not asked whether it succeeded.
  unfoldable pub check_lotus_running : Program (World X) Failure (Unit {0})
  unfolding run_and_log_command_strings trim contains_text
  check_lotus_running = do
    run_id ← get_run_id
    let container_name = lotus_container_name run_id
    output ←
        run_and_log_command_strings node.host.launch (codes "docker")
          (codes "ps"
            ∷ codes "--filter"
            ∷ exactly container_name
            ∷ codes "--format"
            ∷ codes "{{.Names}}"
            ∷ [])
          (codes "eth_acc_lotus_check_" ++ container_name)
    if contains_text container_name (trim output.stdout)
        then pure tt
        else raise (
            message
              "Lotus container '{}' is not running. ETH account funding requires Lotus to be running with FEVM enabled."
              (container_name ∷ []))

  unfoldable pub get_global_faucet_address : Text → Program X Failure Text
  unfolding keyinfo_names strip_suffix
  get_global_faucet_address run_id = do
    let dir = faucet_key_dir run_id
    exists ← gets (node.host.exists dir)
    if exists
        then pure tt
        else raise (
            message
              "GLOBAL_FIL_FAUCET key directory not found at {}. Ensure genesis preparation has created this key."
              (dir ∷ []))
    entries ← locked (node.read_dir dir)
    filename ←
        ret (
          first_name (message "No BLS keyinfo file found in {}" (dir ∷ [])) (keyinfo_names entries))
    let invalid = message "Invalid keyinfo filename format" []
    address ← ret (ok_or invalid (strip_prefix (codes "bls-") filename))
    ret (ok_or invalid (strip_suffix (codes ".keyinfo") address))

  -- `with_extension("keyinfo.hex")` of a path that ends in `.keyinfo`
  abbrev temp_key_file : Text → Text
  temp_key_file keyinfo_path = keyinfo_path ++ codes ".hex"

  abbrev import_args : Text → Text → List Text
  import_args container_name container_path =
      codes "exec"
      ∷ container_name
      ∷ codes "/usr/local/bin/lotus-bins/lotus"
      ∷ codes "wallet"
      ∷ codes "import"
      ∷ container_path
      ∷ []

  unfoldable pub import_faucet_key : Text → Program (World X) Failure Text
  unfolding run_and_log_command_strings imported_address existing_address on_outside
  import_faucet_key keyinfo_path = do
    run_id ← get_run_id
    let container_name = lotus_container_name run_id
    json_content ←
        map_error (about "Failed to read keyinfo file: {}" [])
          (on_outside (locked (node.host.read_to_string keyinfo_path)))
    let temp = temp_key_file keyinfo_path
    map_error (about "Failed to write hex key file: {}" [])
        (on_outside (locked (node.host.write temp (node.hex_encode_text json_content))))
    relative_path ← ret (
        ok_or (message "Failed to get relative path for hex key file" [])
          (strip_prefix (foc_devnet_lotus_keys node.host.home run_id / []) temp))
    output ←
        run_and_log_command_strings node.host.launch (codes "docker")
          (import_args container_name (codes "/keys/" ++ relative_path))
          (codes "eth_acc_import_key_" ++ container_name)
    catch {D = Failure} (on_outside (locked (node.remove_file temp)))
    ret (imported output)

  unfoldable pub import_global_faucet_key : Program (World X) Failure Text
  unfolding import_faucet_key keyinfo_names on_outside
  import_global_faucet_key = do
    run_id ← get_run_id
    entries ← on_outside (locked (node.read_dir (faucet_key_dir run_id)))
    filename ← ret (
        first_name (message "No keyinfo file found for GLOBAL_FIL_FAUCET" [])
          (keyinfo_names entries))
    import_faucet_key (faucet_key_dir run_id / filename)
