-- ===== src/Host/Files.antt =====
-- The files of a run: src/commands/start/foc_deploy/contract_addresses.rs, src/commands/init/keys.rs,
-- src/commands/start/pdp_service_provider/provider_id.rs; and `get_private_key` of
-- src/commands/start/foc_deployer/mod.rs, over the keys.
use foc_devnet.Base.{
  ℕ, ◌+◌, ◌==◌, ◌&&◌, ◌||◌, leb, if◌then◌else◌, Bool, true, false, Option, none, some, List, [],
  ◌∷◌, ◌++◌, Outcome, ok, err,
}
use foc_devnet.Text.{Text, codes, text_eq}
use foc_devnet.Text.Search.{starts_with}
use foc_devnet.Program.{Program, ret, pure, raise, gets, locked, ◌>>=◌, ◌>>◌}
use foc_devnet.Shell.{Failure, message}
use foc_devnet.Host.{Host, ContractAddresses, ProviderIdInfo, KeyInfo}
use foc_devnet.Paths.{
  contract_addresses_file, pdp_sps_dir, pdp_sp_provider_id_file, foc_devnet_keys, ◌/◌,
}

abbrev pub lower : ℕ → ℕ
lower c = if leb b'A' c && leb c b'Z' then c + 32 else c

-- `eq_ignore_ascii_case`
unfoldable pub eq_ignore_case : Text → Text → Bool
eq_ignore_case [] [] = true
eq_ignore_case [] (d ∷ t) = false
eq_ignore_case (c ∷ s) [] = false
eq_ignore_case (c ∷ s) (d ∷ t) = (lower c == lower d) && eq_ignore_case s t

abbrev holds_text : (Text → Bool) → Option Text → Bool
holds_text test none = false
holds_text test (some s) = test s

-- `find`
unfoldable pub find_key : (KeyInfo → Bool) → List KeyInfo → Option KeyInfo
find_key test [] = none
find_key test (k ∷ keys) = if test k then some k else find_key test keys

abbrev pub is_eth_address : Text → Bool
is_eth_address address = starts_with (codes "0x") address || starts_with (codes "0X") address

abbrev pub key_of : Text → KeyInfo → Bool
key_of address k =
    if is_eth_address address
    then holds_text (λ eth. eq_ignore_case eth address) k.eth_address
    else holds_text (λ fil. text_eq fil address) k.filecoin_address

module _ {E A : Type 0} where
  abbrev pub ok_or : E → Option A → Outcome E A
  ok_or e none = err e
  ok_or e (some a) = ok a

module _ {X : Type 0} (host : Host X) where
  -- `ContractAddresses::load`
  unfoldable pub load_addresses : Text → Program X Failure ContractAddresses
  load_addresses run_id = do
    let path = contract_addresses_file host.home run_id
    exists ← gets (host.exists path)
    if exists then pure tt else raise (message "Contract addresses file not found" [])
    content ← locked (host.read_to_string path)
    ret (host.parse_addresses content)

  -- `ProviderIdInfo::load`
  unfoldable pub load_provider_id : Text → ℕ → Program X Failure ProviderIdInfo
  load_provider_id run_id sp_idx = do
    let path = pdp_sp_provider_id_file host.home run_id sp_idx
    exists ← gets (host.exists path)
    if exists then pure tt else raise (message "Provider ID file not found" [])
    content ← locked (host.read_to_string path)
    ret (host.parse_provider_id content)

  -- `ProviderIdInfo::save`
  unfoldable pub save_provider_id : ProviderIdInfo → Text → ℕ → Program X Failure (Unit {0})
  save_provider_id info run_id sp_idx = do
    locked (host.create_dir_all (pdp_sps_dir host.home run_id))
    json ← ret (host.print_provider_id info)
    locked (host.write (pdp_sp_provider_id_file host.home run_id sp_idx) json)

  unfoldable pub load_keys : Program X Failure (List KeyInfo)
  load_keys = do
    json ← locked (host.read_to_string (foc_devnet_keys host.home / codes "addresses.json"))
    ret (host.parse_keys json)

  unfoldable pub get_private_key : Text → Program X Failure Text
  unfolding find_key
  get_private_key address = do
    keys ← load_keys
    let error =
        if is_eth_address address
        then message "Private key not found for Ethereum address: {}" (address ∷ [])
        else message "Private key not found for Filecoin address: {}" (address ∷ [])
    key_info ← ret (ok_or error (find_key (key_of address) keys))
    pure (codes "0x" ++ key_info.private_key)
