-- ===== src/Cluster/Granted.antt =====
-- src/commands/start/mod.rs with the allocators of a start: the port of Portainer and those of the steps.
use mathlib.Core.Path.{subst}
use foc_devnet.Base.{
  ◌≡◌, sym, ◌∙◌, arith, ℕ, ◌+◌, ◌<◌, Bool, false, List, InRange, contains, ok, map_err,
}
use foc_devnet.Base.Results.{bind-ok, map_err-ok, ok-injective}
use foc_devnet.Text.{Text}
use foc_devnet.Words.{Profile, u16_mod}
use foc_devnet.Ports.{PortAllocator, new, allocated_count}
use foc_devnet.Ports.Invariant.{new-IsValid}
use foc_devnet.Ports.Contract.{allocate-Grants}
use foc_devnet.Ports.Sessions.{Request, serve, serve-Extends, not-contains}
use foc_devnet.Program.{run, ret, locked, map_error}
use foc_devnet.Program.Success.{map_error-Agrees}
use foc_devnet.Cluster.Portainer.{Listening, start_portainer-Listening}
use foc_devnet.Program.Loops.{run_bind-ok, run-pure-ok, run-ret}
use foc_devnet.Config.{Config, validate}
use foc_devnet.Steps.{prepare}
use foc_devnet.Steps.Setup.{prepare-Prepared}
use foc_devnet.Shell.{Failure}
use foc_devnet.Shell.Containers.{start_portainer}
use foc_devnet.Network.{create_all_networks}
use foc_devnet.Cluster.{Site}
use foc_devnet.Cluster.Start.{
  no_port, invalid_config, failed, check_host_docker_internal, stop_existing_cluster,
  setup_directories_and_run_id, stop_running_containers, portainer_port_of, prepare_cluster,
  step_config, load_and_validate_config,
}

module _ (p : Profile) (config : Config)
    (fits : config.port_range_start + config.port_range_count < u16_mod) where
  -- The port of Portainer is one of the range.
  portainer_port_of-InRange :
      (port : ℕ)
      → portainer_port_of p config ≡ ok port
      → InRange config.port_range_start config.port_range_count port
  unfolding portainer_port_of allocated_count
  portainer_port_of-InRange port h =
      let (a, made, granted) =
        bind-ok (new config.port_range_start config.port_range_count) _ (map_err-ok no_port _ h) in
      let (v, start, count, fresh, next) =
        new-IsValid config.port_range_start config.port_range_count a made fits in
      let nonempty = v.nonempty in
      let g = allocate-Grants p a v (rw fresh nonempty) in
      let same = ok-injective (sym g.result ∙ granted) in
      let within = g.within in (omega arith, omega arith)

  module _ {E : Type 0} (free : ℕ → Bool) (home run_id : Text) (port : ℕ)
      (own : portainer_port_of p config ≡ ok port) where
    -- Whatever the steps request of the allocator that a start hands to them, they are not granted it.
    never_granted :
        (guarded : Bool) (a : PortAllocator)
        → prepare {E = E} p free guarded (step_config home run_id config port) ≡ ok a
        → (rs : List Request) → contains port (serve p rs a).0 ≡ false
    never_granted guarded a h rs =
        let prepared =
          prepare-Prepared p free guarded (step_config home run_id config port) a h fits in
        let taken = prepared.portainer_taken port (portainer_port_of-InRange port own) in
        not-contains port (serve p rs a).0 a.allocated (taken ∙ ground arith)
          (serve-Extends p rs a prepared.valid).free

module _ {X : Type 0} (site : Site X) (p : Profile) where
  load_and_validate_config_lem :
      (config : Config) (x y : X)
      → run (load_and_validate_config site) x ≡ (ok config, y)
      → validate config ≡ ok tt
  unfolding load_and_validate_config
  load_and_validate_config_lem config x y h =
      let (content, x₁, e₁, h₁) =
        run_bind-ok (map_error _ (locked (site.machine.read_to_string _))) _ x y h in
      let (c, x₂, e₂, h₂) = run_bind-ok (ret (map_err _ (site.parse_config content))) _ x₁ y h₁ in
      let (u, x₃, e₃, h₃) = run_bind-ok (ret (map_err invalid_config (validate c))) _ x₂ y h₂ in
      subst (λ c. validate c ≡ ok tt) (run-pure-ok x₃ y h₃).0
        (map_err-ok invalid_config (validate c)
          (run-ret (map_err invalid_config (validate c)) x₂ x₃ e₃))

  -- Portainer was there on the port, and behind it only the networks of the run were made.
  abbrev pub Behind : Text → Config → ℕ → X → Type 0
  Behind run_id config port y =
      (x : X) × Listening site.machine.launch run_id port x
      × (run (create_all_networks site.machine.launch run_id config.active_pdp_sp_count) x
          ≡ (ok tt, y))

  -- What a start has prepared before its steps.
  prepare_cluster_lem :
      (run_id : Text) (config : Config) (port : ℕ) (x y : X)
      → run (prepare_cluster site p run_id) x ≡ (ok (config, port), y)
      → (validate config ≡ ok tt)
        × (portainer_port_of p config ≡ ok port)
        × Behind run_id config port y
  unfolding prepare_cluster
  prepare_cluster_lem run_id config port x y h =
      let (u₁, x₁, e₁, h₁) =
        run_bind-ok (map_error failed (check_host_docker_internal site)) _ x y h in
      let (u₂, x₂, e₂, h₂) =
        run_bind-ok (map_error failed (stop_existing_cluster site)) _ x₁ y h₁ in
      let (u₃, x₃, e₃, h₃) =
        run_bind-ok (map_error failed (setup_directories_and_run_id site run_id)) _ x₂ y h₂ in
      let (u₄, x₄, e₄, h₄) =
        run_bind-ok (map_error failed (stop_running_containers site)) _ x₃ y h₃ in
      let (c, x₅, e₅, h₅) = run_bind-ok (load_and_validate_config site) _ x₄ y h₄ in
      let (q, x₆, e₆, h₆) = run_bind-ok (ret (portainer_port_of p c)) _ x₅ y h₅ in
      let (u₇, x₇, e₇, h₇) =
        run_bind-ok (map_error failed (start_portainer site.machine.launch run_id q)) _ x₆ y h₆ in
      let (u₈, x₈, e₈, h₈) =
        run_bind-ok
          (map_error failed (create_all_networks site.machine.launch run_id c.active_pdp_sp_count))
          _ x₇ y h₇ in
      let same = (run-pure-ok x₈ y h₈).0 in
      let started =
        map_error-Agrees failed (start_portainer site.machine.launch run_id q) x₆ x₇ u₇ e₇ in
      let networks =
        map_error-Agrees failed
          (create_all_networks site.machine.launch run_id c.active_pdp_sp_count) x₇ x₈ u₈ e₈ in
      subst
        (λ s. (validate s.0 ≡ ok tt) × (portainer_port_of p s.0 ≡ ok s.1) × Behind run_id s.0 s.1 y)
        same
        (
          load_and_validate_config_lem c x₄ x₅ e₅,
          run-ret (portainer_port_of p c) x₅ x₆ e₆,
          (
            x₇,
            start_portainer-Listening site.machine.launch run_id q x₆ x₇ started,
            subst
                (λ z.
                  run (create_all_networks site.machine.launch run_id c.active_pdp_sp_count) x₇
                  ≡ (ok tt, z))
                (run-pure-ok x₈ y h₈).1 networks,
          ),
        )

  -- If a start has come to its steps, over a range whose end is a `u16`, then its configuration is valid,
  -- the port is one of the range, and it is the one that Portainer was made with by `docker run -p`, unless
  -- a Portainer of the same run was running; only the networks of the run were made behind that. And
  -- whatever is requested of the allocator that either executor of the steps prepares, in whatever order,
  -- that port is never granted.
  pub prepare_cluster-granted :
      (run_id : Text) (config : Config) (port : ℕ) (x y : X)
      → run (prepare_cluster site p run_id) x ≡ (ok (config, port), y)
      → config.port_range_start + config.port_range_count < u16_mod
      → (free : ℕ → Bool) (guarded : Bool) (a : PortAllocator)
      → prepare {E = Failure} p free guarded (step_config site.machine.home run_id config port)
        ≡ ok a
      → (rs : List Request)
      → (validate config ≡ ok tt)
        × InRange config.port_range_start config.port_range_count port
        × Behind run_id config port y
        × (contains port (serve p rs a).0 ≡ false)
  prepare_cluster-granted run_id config port x y h fits free guarded a prepared rs =
      let (valid, own, behind) = prepare_cluster_lem run_id config port x y h in
      (
        valid,
        portainer_port_of-InRange p config fits port own,
        behind,
        never_granted p config fits free site.machine.home run_id port own guarded a prepared rs,
      )
