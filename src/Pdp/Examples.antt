-- ===== src/Pdp/Examples.antt =====
-- A host on which every program succeeds and prints `7`, and the encoding of a price.
use foc_devnet.Base.{ℕ, ◌≡◌, ◌≢◌, refl, arith, true, none, some, List, [], ◌∷◌, ok}
use foc_devnet.Text.{codes}
use foc_devnet.Shell.Simulated.{printing}
use foc_devnet.Host.{Host, ProviderIdInfo}
use foc_devnet.Pdp.Capabilities.{minimal_bytes, from_be_bytes, to_be_bytes, skip_zeros}
use foc_devnet.Pdp.Encoding.{minimal_bytes_lem}

abbrev info : ProviderIdInfo
info = record { provider_id = 7; provider_address = codes "0xa"; payee_address = codes "0xa" }

abbrev host : Host (Unit {0})
host = record {
  launch = λ program args x. (ok (printing (codes "7")), x);
  home = codes "h";
  exists = λ path x. true;
  read_to_string = λ path x. (ok [], x);
  create_dir_all = λ path x. (ok tt, x);
  write = λ path s x. (ok tt, x);
  parse_addresses = λ s. ok record {
    contracts = [];
    foc_contracts = [];
    filbeam_controller = none;
    filbeam_beneficiary = none;
  };
  parse_provider_id = λ s. ok info;
  print_provider_id = λ i. ok [];
  parse_keys = λ s. ok [];
  receipt_status = λ s. ok (some (codes "0x1"));
  hex_encode = λ bytes. [];
}

minimal_bytes_lem_example :
    (from_be_bytes (minimal_bytes 1024) 0 ≡ 1024)
    × ((b : ℕ) × (bytes : List ℕ) × (minimal_bytes 1024 ≡ b ∷ bytes) × (b ≢ 0))
minimal_bytes_lem_example = minimal_bytes_lem 1024 (omega arith) (λ e. omega arith)

minimal_bytes_1024 : minimal_bytes 1024 ≡ 4 ∷ 0 ∷ []
unfolding minimal_bytes to_be_bytes skip_zeros
minimal_bytes_1024 = refl
