-- ===== src/Tokens/Executed.antt =====
-- src/commands/start/usdfc_funding/usdfc_funding_step.rs: an execution of the step that succeeds.
use foc_devnet.Base.{◌≡◌, ℕ, Option, none, some, ok, List, []}
use foc_devnet.Text.{Text, codes}
use foc_devnet.Paths.{◌/◌, foc_devnet_keys}
use foc_devnet.Host.{KeyInfo}
use foc_devnet.Host.Files.{find_key}
use foc_devnet.Funding.{named}
use foc_devnet.Program.{Program, ret, locked, ◌>>=◌}
use foc_devnet.Shell.{Failure}
use foc_devnet.Tokens.{Mint}
use foc_devnet.Tokens.Batches.{TokenTransfer, Distribution}
use foc_devnet.Tokens.Sent.{Sent}

abbrev transfers_of : Option (Distribution × List TokenTransfer) → List TokenTransfer
transfers_of none = []
transfers_of (some p) = p.1

abbrev pub account_of : TokenTransfer → Text × ℕ
account_of t = (t.account_name, t.amount_tokens)

module _ {X : Type 0} (mint : Mint X) where
  -- The file of the keys was read, and the first key in it with the account's name has the Ethereum
  -- address.
  abbrev pub AddressRead : TokenTransfer → Type 0
  AddressRead t =
      (json : Text) × (keys : List KeyInfo) × (k : KeyInfo) × (x : X) × (y : X)
      × (mint.host.read_to_string (foc_devnet_keys mint.host.home / codes "addresses.json") x
          ≡ (ok json, y))
      × (mint.host.parse_keys json ≡ ok keys)
      × (find_key (named t.account_name) keys ≡ some k)
      × (k.eth_address ≡ some t.eth_address)

  abbrev state_file : Text
  state_file = foc_devnet_keys mint.host.home / codes "addresses.json"

  abbrev read_keys : Program X Failure (List KeyInfo)
  read_keys =
      locked (mint.host.read_to_string state_file) >>= λ json. ret (mint.host.parse_keys json)

  abbrev KeysRead : List KeyInfo → Type 0
  KeysRead keys =
      (json : Text) × (x : X) × (y : X) × (mint.host.read_to_string state_file x ≡ (ok json, y))
      × (mint.host.parse_keys json ≡ ok keys)
