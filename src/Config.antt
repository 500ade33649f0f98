-- ===== src/Config.antt =====
-- src/config.rs, `Config`, and commands/init/config.rs: the settings, their defaults and their
-- validation, and the locations given on the command line of `init`.
mod Examples
pub mod Valid
pub mod Overrides
use foc_devnet.Base.{
  ℕ, ◌≡◌, refl, arith, ltb, if◌then◌else◌, Bool, true, false, ◌||◌, Option, none, some, List, [],
  ◌∷◌, Outcome, ok, err, panic, ◌>>=◌, ◌>>◌, map_err,
}
use foc_devnet.Base.Exec
use foc_devnet.Base.Exec.{Exec}
use foc_devnet.Text.{Text, codes}
use foc_devnet.Location.{
  Location, local_source, git_commit, git_tag, git_branch, LocationError, resolve_with_default,
}

pub record Config : Type 0 where
  pub port_range_start : ℕ
  pub port_range_count : ℕ
  pub lotus : Location
  pub curio : Location
  pub filecoin_services : Location
  pub pdp : Option Location
  pub multicall3 : Location
  pub approved_pdp_sp_count : ℕ
  pub endorsed_pdp_sp_count : ℕ
  pub active_pdp_sp_count : ℕ

-- `Config::default`
abbrev pub default : Config
default = record {
  port_range_start = 5700;
  port_range_count = 100;
  lotus = git_tag (codes "https://github.com/filecoin-project/lotus.git") (codes "v1.37.0");
  curio = git_tag (codes "https://github.com/filecoin-project/curio.git") (codes "v1.29.0");
  filecoin_services =
      git_tag (codes "https://github.com/FilOzone/filecoin-services.git") (codes "v1.4.0");
  pdp = none;
  multicall3 = git_tag (codes "https://github.com/mds1/multicall3.git") (codes "v3.1.0");
  approved_pdp_sp_count = 2;
  endorsed_pdp_sp_count = 1;
  active_pdp_sp_count = 2;
}

-- constants.rs
abbrev pub max_pdp_sp_count : ℕ
max_pdp_sp_count = 5

pub data ConfigError : Type 0 where
  endorsed_exceeds_approved : ℕ → ℕ → ConfigError
  approved_exceeds_active : ℕ → ℕ → ConfigError
  active_exceeds_max : ℕ → ℕ → ConfigError
  invalid_location : LocationError → ConfigError
  unreadable unwritable : ConfigError
  parse_failed serialize_failed : ConfigError

unfoldable pub validate : Config → Outcome ConfigError (Unit {0})
validate c =
    if ltb c.approved_pdp_sp_count c.endorsed_pdp_sp_count
    then err (endorsed_exceeds_approved c.endorsed_pdp_sp_count c.approved_pdp_sp_count)
    else if ltb c.active_pdp_sp_count c.approved_pdp_sp_count
    then err (approved_exceeds_active c.approved_pdp_sp_count c.active_pdp_sp_count)
    else if ltb max_pdp_sp_count c.active_pdp_sp_count
    then err (active_exceeds_max c.active_pdp_sp_count max_pdp_sp_count)
    else ok tt

-- The URL that a location keeps when only its tag, commit or branch is given anew.
url_or : Text → Location → Text
url_or default_url (git_tag url tag) = url
url_or default_url (git_commit url commit) = url
url_or default_url (git_branch url branch) = url
url_or default_url (local_source dir) = default_url

abbrev pub lotus_url : Text
lotus_url = codes "https://github.com/filecoin-project/lotus.git"

abbrev pub curio_url : Text
curio_url = codes "https://github.com/filecoin-project/curio.git"

abbrev pub filecoin_services_url : Text
filecoin_services_url = codes "https://github.com/FilOzone/filecoin-services.git"

abbrev pub pdp_url : Text
pdp_url = codes "https://github.com/FilOzone/pdp.git"

abbrev pub or_pdp_default : Option Location → Location
or_pdp_default none = git_branch pdp_url (codes "main")
or_pdp_default (some l) = l

-- `InitOptions`, the part with the locations
pub record LocationOptions : Type 0 where
  pub curio_location : Option Text
  pub lotus_location : Option Text
  pub filecoin_services_location : Option Text
  pub pdp_location : Option Text

abbrev is_some : Option Text → Bool
is_some none = false
is_some (some s) = true

abbrev pub any_location : LocationOptions → Bool
any_location o =
    is_some o.curio_location
    || is_some o.lotus_location
    || is_some o.filecoin_services_location
    || is_some o.pdp_location

module _ (ls_remote : Text → Text → Outcome LocationError Text) where
  unfoldable pub apply_location_override :
      Location → Option Text → Text → Outcome ConfigError Location
  unfolding url_or
  apply_location_override l none default_url = ok l
  apply_location_override l (some s) default_url =
      map_err invalid_location (resolve_with_default ls_remote s (url_or default_url l))

  apply_pdp_override : Config → Option Text → Outcome ConfigError Config
  apply_pdp_override c none = ok c
  apply_pdp_override c (some s) = do
    pdp ← apply_location_override (or_pdp_default c.pdp) (some s) pdp_url
    ok (record c { pdp = some pdp })

  unfoldable pub apply_overrides : Config → LocationOptions → Outcome ConfigError Config
  unfolding apply_pdp_override
  apply_overrides c o = do
    lotus ← apply_location_override c.lotus o.lotus_location lotus_url
    curio ← apply_location_override c.curio o.curio_location curio_url
    services ←
        apply_location_override c.filecoin_services o.filecoin_services_location
          filecoin_services_url
    apply_pdp_override (record c { lotus = lotus; curio = curio; filecoin_services = services })
        o.pdp_location

-- Whether config.toml can be opened and read, and whether it can be opened for writing. A write that
-- breaks off in the middle is not modelled.
pub record Disk : Type 0 where
  pub readable : Bool
  pub writable : Bool

-- The TOML reader and writer are parameters.
module _ (ls_remote : Text → Text → Outcome LocationError Text) (from_toml : Text → Option Config)
    (to_toml : Config → Option Text) where
  abbrev or_error {ℓ} : {A : Type ℓ} → Option A → ConfigError → Outcome ConfigError A
  or_error none e = err e
  or_error (some a) e = ok a

  write_config : Disk → Config → Option Text → Outcome ConfigError (Unit {0}) × Option Text
  write_config d c file = elim (to_toml c) [
    | none ↦ (err serialize_failed, file)
    | some text ↦ if d.writable then (ok tt, some text) else (err unwritable, file)
  ]

  write_outcome :
      Disk → Outcome ConfigError Config → Option Text → Outcome ConfigError (Unit {0}) × Option Text
  unfolding write_config
  write_outcome d (ok c) file = write_config d c file
  write_outcome d (err e) file = (err e, file)
  write_outcome d panic file = (panic, file)

  read_config : Disk → Text → Outcome ConfigError Config
  read_config d text = if d.readable then or_error (from_toml text) parse_failed else err unreadable

  -- The state is the text of config.toml, `none` where there is no such file.
  pub generate_default_config :
      Disk → LocationOptions → Option Text → Outcome ConfigError (Unit {0}) × Option Text
  unfolding write_outcome read_config
  generate_default_config d o none = write_outcome d (apply_overrides ls_remote default o) none
  generate_default_config d o (some text) =
      if any_location o
      then write_outcome d (do c ← read_config d text; apply_overrides ls_remote c o) (some text)
      else (ok tt, some text)
