-- ===== src/Pdp/Capabilities.antt =====
-- src/commands/start/pdp_service_provider/registration.rs: the capabilities that a provider registers.
use foc_devnet.Base.{
  ℕ, zero, suc, ◌+◌, ◌*◌, ◌/◌, ◌%◌, ◌==◌, if◌then◌else◌, none, some, List, [], ◌∷◌, ◌++◌, Outcome,
  ok, panic,
}
use foc_devnet.Text.{Text, codes}
use foc_devnet.Text.Bytes.{as_bytes, from_byte}
use foc_devnet.Shell.{Failure}
use foc_devnet.Host.Chain.{concat}
use foc_devnet.Pdp.{
  location, min_piece_size_bytes, max_piece_size_bytes, storage_price_per_tib_per_day,
  min_proving_period_epochs,
}

-- `to_be_bytes` of `n` bytes
unfoldable pub to_be_bytes : ℕ → ℕ → List ℕ
to_be_bytes zero value = []
to_be_bytes (suc n) value = to_be_bytes n (value / 256) ++ value % 256 ∷ []

-- The bytes from the first that is not zero on; of zeros alone, the last.
unfoldable pub skip_zeros : List ℕ → List ℕ
skip_zeros [] = []
skip_zeros (b ∷ []) = b ∷ []
skip_zeros (b ∷ c ∷ bytes) =
    let rest = skip_zeros (c ∷ bytes) in if b == 0 then rest else b ∷ c ∷ bytes

-- What `encode_uint_minimal` gives to `hex::encode`
unfoldable pub minimal_bytes : ℕ → List ℕ
unfolding to_be_bytes skip_zeros
minimal_bytes value = skip_zeros (to_be_bytes 8 value)

module _ (hex_encode : List ℕ → Text) where
  pub encode_uint_minimal : ℕ → Text
  unfolding minimal_bytes
  encode_uint_minimal value = if value == 0 then codes "00" else hex_encode (minimal_bytes value)

  -- The slice of the address panics if the address does not have two bytes, or one within a character.
  unfoldable pub build_capability_values_with_url : Text → Text → Outcome Failure Text
  unfolding encode_uint_minimal as_bytes from_byte
  build_capability_values_with_url mock_usdfc_address service_url =
      elim (from_byte 2 mock_usdfc_address) [
        | none ↦ panic
        | some payment_token_bytes ↦ ok (
            concat (
              codes "[0x"
              ∷ hex_encode (as_bytes service_url)
              ∷ codes ",0x"
              ∷ encode_uint_minimal min_piece_size_bytes
              ∷ codes ",0x"
              ∷ encode_uint_minimal max_piece_size_bytes
              ∷ codes ",0x"
              ∷ encode_uint_minimal storage_price_per_tib_per_day
              ∷ codes ",0x"
              ∷ encode_uint_minimal min_proving_period_epochs
              ∷ codes ",0x"
              ∷ hex_encode (as_bytes location)
              ∷ codes ",0x"
              ∷ payment_token_bytes
              ∷ codes "]"
              ∷ []))
      ]

abbrev pub build_capability_keys : Text
build_capability_keys =
    codes
      "[serviceURL,minPieceSizeInBytes,maxPieceSizeInBytes,storagePricePerTibPerDay,minProvingPeriodInEpochs,location,paymentTokenAddress]"

-- `from_be_bytes`
unfoldable pub from_be_bytes : List ℕ → ℕ → ℕ
from_be_bytes [] n = n
from_be_bytes (b ∷ bytes) n = from_be_bytes bytes (n * 256 + b)
