-- ===== src/Config/Examples.antt =====
-- Configurations.
use foc_devnet.Base.{◌≡◌, ◌↔◌, refl, [], Bool, true, Option, none, some, Outcome, ok, err}
use foc_devnet.Text.{Text, codes, text_eq}
use foc_devnet.Text.Split.{split_once, split_last}
use foc_devnet.Location.{
  LocationError, git_tag, ls_remote_failed, resolve_with_default, canonicalize_location,
}
use foc_devnet.Config.{
  Config, default, validate, LocationOptions, apply_overrides, apply_location_override, Disk,
}
use foc_devnet.Config.Valid.{IsValid, validate_iff}

-- More providers approved than active
abbrev too_few_active : Config
too_few_active = record default { active_pdp_sp_count = 1 }

validate_test : validate default ≡ ok tt
unfolding validate
validate_test = refl

abbrev no_remote : Text → Text → Outcome LocationError Text
no_remote url selector = err (ls_remote_failed url)

abbrev lotus_only : LocationOptions
lotus_only = record {
  curio_location = none;
  lotus_location = some (codes "gittag:v2");
  filecoin_services_location = none;
  pdp_location = none;
}

abbrev lotus_v2 : Config
lotus_v2 = record default {
  lotus = git_tag (codes "https://github.com/filecoin-project/lotus.git") (codes "v2");
}

lotus_v2_lem : apply_overrides no_remote default lotus_only ≡ ok lotus_v2
unfolding apply_overrides apply_location_override resolve_with_default canonicalize_location
    split_once split_last text_eq
lotus_v2_lem = refl

validate_iff_example : (validate too_few_active ≡ ok tt) ↔ IsValid too_few_active
validate_iff_example = validate_iff too_few_active

-- A format that knows the texts of two configurations.
abbrev from_format : Text → Option Config
from_format [] = some default
from_format _ = none

abbrev to_format : Config → Option Text
to_format c = some (codes "lotus")

abbrev disk : Bool → Disk
disk writable = record { readable = true; writable = writable }
