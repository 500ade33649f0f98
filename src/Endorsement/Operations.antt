-- ===== src/Endorsement/Operations.antt =====
-- src/commands/start/endorsement/operations.rs: the transaction that endorses a provider, and the list
-- of the endorsed ones.
use foc_devnet.Base.{ℕ, if◌then◌else◌, Option, none, some, List, [], ◌∷◌, Outcome, ok}
use foc_devnet.Base.Results
use foc_devnet.Text.{Text, codes, to_string, text_eq, max_u64}
use foc_devnet.Text.Keys.{indexed}
use foc_devnet.Text.Search.{
  trim, trim_start_matches, trim_end_matches, split_on, split_whitespace, last, lines,
  contains_text,
}
use foc_devnet.Program.{Program, ret, pure, raise, ◌>>=◌, ◌>>◌}
use foc_devnet.Context.{World}
use foc_devnet.Shell.{Failure, message, about}
use foc_devnet.Host.{Host}
use foc_devnet.Host.Files.{ok_or}
use foc_devnet.Host.Chain.{sleep, in_builder, concat, number}
use foc_devnet.Endorsement.{
  endorsement_container_prefix, endorsement_tx_wait_secs, endorsement_gas_limit,
}

pub record EndorseParams : Type 0 where
  pub run_id : Text
  pub provider_id : ℕ
  pub endorsements_contract_address : Text
  pub deployer_private_key : Text
  pub lotus_rpc_url : Text

pub record GetProviderIdsParams : Type 0 where
  pub endorsements_contract_address : Text
  pub lotus_rpc_url : Text

abbrev tx_hash_of : List Text → Option Text
tx_hash_of [] = none
tx_hash_of (line ∷ rest) =
    let later = tx_hash_of rest in
    if contains_text (codes "transactionHash") line
    then elim (last (split_whitespace line)) [ none ↦ later | some hash ↦ some hash ]
    else later

pub extract_tx_hash : Text → Option Text
unfolding lines split_whitespace contains_text
extract_tx_hash output = tx_hash_of (lines output)

abbrev pub bash_command : Text → List Text
bash_command cast_cmd = codes "bash" ∷ codes "-c" ∷ cast_cmd ∷ []

abbrev next_line : Text
next_line = codes " \\\n        "

module _ {X : Type 0} (host : Host X) where
  unfoldable pub verify_transaction_status : Text → Text → ℕ → Program (World X) Failure (Unit {0})
  verify_transaction_status rpc_url tx_hash provider_id = do
    stdout ←
        in_builder host (indexed "foc-verify-endorse-" provider_id "")
          (bash_command (
            concat (
              codes "cast receipt "
              ∷ tx_hash
              ∷ codes " --rpc-url "
              ∷ rpc_url
              ∷ codes " --json"
              ∷ [])))
          (indexed "pdp_verify_endorse_tx_" provider_id "")
          (λ stderr. message "Failed to get transaction receipt" [])
    found ← ret (host.receipt_status stdout)
    status ← ret (ok_or (message "Transaction status not found in receipt" []) found)
    if text_eq status (codes "0x1")
        then pure tt
        else raise (
            message
              "Endorsement transaction failed with status {}. Expected 0x1 (success). Provider {} not endorsed."
              (status ∷ to_string provider_id ∷ []))

  unfoldable pub endorse_provider : EndorseParams → Program (World X) Failure Text
  endorse_provider params = do
    stdout ←
        in_builder host
          (concat (
            endorsement_container_prefix
            ∷ codes "-"
            ∷ params.run_id
            ∷ codes "-"
            ∷ to_string params.provider_id
            ∷ []))
          (bash_command (
            concat (
              codes "cast send "
              ∷ params.endorsements_contract_address
              ∷ codes " \"addProviderId(uint256)\" "
              ∷ to_string params.provider_id
              ∷ next_line
              ∷ codes "--rpc-url "
              ∷ params.lotus_rpc_url
              ∷ next_line
              ∷ codes "--private-key "
              ∷ params.deployer_private_key
              ∷ next_line
              ∷ codes "--gas-limit "
              ∷ endorsement_gas_limit
              ∷ [])))
          (indexed "pdp_endorse_" params.provider_id "")
          (λ stderr. message "Failed to endorse provider: {}" (stderr ∷ []))
    tx_hash ← ret (
        ok_or (message "Failed to extract transaction hash from endorsement output" [])
          (extract_tx_hash stdout))
    sleep endorsement_tx_wait_secs
    verify_transaction_status params.lotus_rpc_url tx_hash params.provider_id
    pure tx_hash

pub parse_id : Text → Outcome Failure ℕ
parse_id s =
    Results.map_err (about "Failed to parse provider ID '{}': {}" (s ∷ []))
      (number max_u64 (trim s))

pub parse_ids : List Text → Outcome Failure (List ℕ)
unfolding parse_id
parse_ids [] = ok []
parse_ids (s ∷ texts) =
    Results.◌>>=◌ (parse_id s) λ id. Results.◌>>=◌ (parse_ids texts) λ ids. ok (id ∷ ids)

-- No text at all lists no provider.
abbrev pub parse_inner : Text → Outcome Failure (List ℕ)
parse_inner [] = ok []
parse_inner (c ∷ s) = parse_ids (split_on b',' (c ∷ s))

pub parse_provider_ids : Text → Outcome Failure (List ℕ)
unfolding parse_ids
parse_provider_ids output =
    parse_inner (trim (trim_end_matches b']' (trim_start_matches b'[' (trim output))))

module _ {X : Type 0} (host : Host X) where
  unfoldable pub get_all_provider_ids : GetProviderIdsParams → Program (World X) Failure (List ℕ)
  unfolding parse_provider_ids
  get_all_provider_ids params = do
    stdout ←
        in_builder host (codes "foc-get-provider-ids")
          (bash_command (
            concat (
              codes "cast call "
              ∷ params.endorsements_contract_address
              ∷ codes " \"getProviderIds()(uint256[])\" --rpc-url "
              ∷ params.lotus_rpc_url
              ∷ [])))
          (codes "pdp_get_all_provider_ids")
          (λ stderr. message "Failed to get provider IDs: {}" (stderr ∷ []))
    ret (parse_provider_ids stdout)
