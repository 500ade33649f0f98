-- ===== src/Config/Overrides.antt =====
-- What the locations of the command line change in a configuration, and in config.toml.
use foc_devnet.Base.{
  ◌≡◌, refl, sym, ap, ◌∙◌, arith, true, Outcome, ok, err, panic, Option, none, some, ◌>>=◌, bind-ok,
}
use foc_devnet.Text.{Text}
use foc_devnet.Location.{Location, LocationError}
use foc_devnet.Config.{
  Config, ConfigError, LocationOptions, Disk, default, validate, apply_location_override,
  apply_pdp_override, apply_overrides, any_location, lotus_url, curio_url, filecoin_services_url,
  pdp_url, or_pdp_default, generate_default_config, write_outcome, write_config, read_config,
}

module _ (ls_remote : Text → Text → Outcome LocationError Text) where
  -- The location of pdp, by what is given for it: the given one is read with the URL of the old one, or
  -- with the default URL where there is none.
  abbrev pub PdpOverridden : Option Text → Option Location → Option Location → Type 0
  PdpOverridden none old new = new ≡ old
  PdpOverridden (some s) old new =
      (l : Location) × (apply_location_override ls_remote (or_pdp_default old) (some s) pdp_url
        ≡ ok l)
      × (new ≡ some l)

  -- What a successful `apply_overrides` makes of a configuration.
  pub record Overridden (c : Config) (o : LocationOptions) (d : Config) : Type 0 where
    pub lotus : apply_location_override ls_remote c.lotus o.lotus_location lotus_url ≡ ok d.lotus
    pub curio : apply_location_override ls_remote c.curio o.curio_location curio_url ≡ ok d.curio
    pub filecoin_services :
        apply_location_override ls_remote c.filecoin_services o.filecoin_services_location
          filecoin_services_url
        ≡ ok d.filecoin_services
    pub pdp : PdpOverridden o.pdp_location c.pdp d.pdp
    pub multicall3 : d.multicall3 ≡ c.multicall3
    pub start : d.port_range_start ≡ c.port_range_start
    pub count : d.port_range_count ≡ c.port_range_count
    pub approved : d.approved_pdp_sp_count ≡ c.approved_pdp_sp_count
    pub endorsed : d.endorsed_pdp_sp_count ≡ c.endorsed_pdp_sp_count
    pub active : d.active_pdp_sp_count ≡ c.active_pdp_sp_count
    pub validity : validate d ≡ validate c

  pdp_lem :
      (c d : Config) (o : Option Text)
      → apply_pdp_override ls_remote c o ≡ ok d
      → (d ≡ record c { pdp = d.pdp }) × PdpOverridden o c.pdp d.pdp
  unfolding apply_pdp_override
  pdp_lem c d none h = (cc, cc)
  pdp_lem c d (some s) h =
      let (pdp, read, e) =
        bind-ok (apply_location_override ls_remote (or_pdp_default c.pdp) (some s) pdp_url) _ h in
      (cc, (pdp, read, cc))

  -- If the locations of the command line can all be read, those of lotus, curio, filecoin-services and
  -- pdp are the ones given, or the old ones where none is given; the location of multicall3, the port
  -- range, the provider counts and so the verdict of `validate` stay as they were.
  pub apply_overrides-Overridden :
      (c d : Config) (o : LocationOptions) → apply_overrides ls_remote c o ≡ ok d → Overridden c o d
  unfolding apply_overrides validate
  apply_overrides-Overridden c d o h =
      let (lotus, e₁, h₁) =
        bind-ok (apply_location_override ls_remote c.lotus o.lotus_location lotus_url) _ h in
      let (curio, e₂, h₂) =
        bind-ok (apply_location_override ls_remote c.curio o.curio_location curio_url) _ h₁ in
      let (services, e₃, h₃) =
        bind-ok
          (apply_location_override ls_remote c.filecoin_services o.filecoin_services_location
            filecoin_services_url)
          _ h₂ in
      let (same, kept) =
        pdp_lem (record c { lotus = lotus; curio = curio; filecoin_services = services }) d
          o.pdp_location h₃ in
      record {
        lotus = e₁ ∙ ap ok (sym (ap (λ k. k.lotus) same));
        curio = e₂ ∙ ap ok (sym (ap (λ k. k.curio) same));
        filecoin_services = e₃ ∙ ap ok (sym (ap (λ k. k.filecoin_services) same));
        pdp = kept;
        multicall3 = ap (λ k. k.multicall3) same;
        start = ap (λ k. k.port_range_start) same;
        count = ap (λ k. k.port_range_count) same;
        approved = ap (λ k. k.approved_pdp_sp_count) same;
        endorsed = ap (λ k. k.endorsed_pdp_sp_count) same;
        active = ap (λ k. k.active_pdp_sp_count) same;
        validity = ap validate same;
      }

module _ (ls_remote : Text → Text → Outcome LocationError Text) (from_toml : Text → Option Config)
    (to_toml : Config → Option Text) where
  write_outcome-err :
      (d : Disk) (r : Outcome ConfigError Config) (file : Option Text) (e : ConfigError)
      → (write_outcome ls_remote from_toml to_toml d r file).0 ≡ err e
      → (write_outcome ls_remote from_toml to_toml d r file).1 ≡ file
  unfolding write_outcome write_config
  write_outcome-err d (ok c) file e h = ground arith
  write_outcome-err d (err x) file e h = refl
  write_outcome-err d panic file e h = refl

  write_outcome-ok :
      (d : Disk) (c : Config) (text : Text) (file : Option Text)
      → to_toml c ≡ some text
      → d.writable ≡ true
      → write_outcome ls_remote from_toml to_toml d (ok c) file ≡ (ok tt, some text)
  unfolding write_outcome write_config
  write_outcome-ok d c text file k w = ground arith

  read_config-ok :
      (d : Disk) (text : Text) (c : Config)
      → d.readable ≡ true
      → from_toml text ≡ some c
      → read_config ls_remote from_toml to_toml d text ≡ ok c
  unfolding read_config
  read_config-ok d text c r p = ground arith

  -- A `generate_default_config` that returns an error leaves config.toml as it was, where a write that
  -- breaks off in the middle is left out of account.
  generate_default_config-err :
      (d : Disk) (o : LocationOptions) (file : Option Text) (e : ConfigError)
      → (generate_default_config ls_remote from_toml to_toml d o file).0 ≡ err e
      → (generate_default_config ls_remote from_toml to_toml d o file).1 ≡ file
  unfolding generate_default_config
  generate_default_config-err d o none e h =
      write_outcome-err d (apply_overrides ls_remote default o) none e h
  generate_default_config-err d o (some text) e h = ground (
    arith,
    write_outcome-err d
        (read_config ls_remote from_toml to_toml d text >>= λ c. apply_overrides ls_remote c o)
        (some text) e,
  )

  -- An existing config.toml that can be read and parsed gets the locations of the command line, if some
  -- are given, all of them can be read, the result can be printed and the file can be written.
  generate_default_config-some :
      (d : Disk) (o : LocationOptions) (old c : Config) (before text : Text)
      → any_location o ≡ true
      → d.readable ≡ true
      → from_toml before ≡ some old
      → apply_overrides ls_remote old o ≡ ok c
      → to_toml c ≡ some text
      → d.writable ≡ true
      → generate_default_config ls_remote from_toml to_toml d o (some before) ≡ (ok tt, some text)
  unfolding generate_default_config
  generate_default_config-some d o old c before text some_given r p h k w = rw some_given (
      rw (ap (λ o'. o' >>= λ c'. apply_overrides ls_remote c' o) (read_config-ok d before old r p))
        (rw h (write_outcome-ok d c text (some before) k w)))
