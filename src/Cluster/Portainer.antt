-- ===== src/Cluster/Portainer.antt =====
-- src/docker/portainer.rs: how a start leaves Portainer.
use mathlib.Core.Path.{subst}
use foc_devnet.Base.{
  ◌≡◌, ◌⊎◌, inl, inr, ℕ, Bool, true, false, List, [], ◌∷◌, ◌++◌, if◌then◌else◌, ok,
}
use foc_devnet.Text.{Text, codes, to_string}
use foc_devnet.Program.{run, pure}
use foc_devnet.Program.Loops.{run_bind-elim, run-pure-ok}
use foc_devnet.Containers.{portainer_container_name}
use foc_devnet.Shell.{
  Launch, Output, docker_command, container_exists, container_is_running, stop_and_remove_container,
}
use foc_devnet.Shell.Containers.{
  find_existing_portainer, start_portainer, remove_other, create_portainer,
}

-- The command that makes the container, which listens on the port of the host
abbrev pub listening : Text → ℕ → List Text
listening run_id port =
    codes "run"
    ∷ codes "-d"
    ∷ codes "--name"
    ∷ portainer_container_name run_id
    ∷ codes "-p"
    ∷ (to_string port ++ codes ":9000")
    ∷ codes "--mount"
    ∷ codes "type=bind,source=/var/run/docker.sock,target=/var/run/docker.sock"
    ∷ codes "--mount"
    ∷ codes "type=volume,source=portainer_data,target=/data"
    ∷ codes "--restart"
    ∷ codes "unless-stopped"
    ∷ codes "portainer/portainer-ce:latest"
    ∷ []

module _ {X : Type 0} (launch : Launch X) where
  -- The world `y` is that behind the question whether a Portainer of the run is running already, which it
  -- is, or behind the command that makes it on the port.
  abbrev pub Listening : Text → ℕ → X → Type 0
  Listening run_id port y =
      ((x : X) × (run (container_is_running launch (portainer_container_name run_id)) x
          ≡ (ok true, y)))
      ⊎ ((x : X) × (o : Output) × (run (docker_command launch (listening run_id port)) x
            ≡ (ok o, y)))

  created-Listening :
      (run_id : Text) (port : ℕ) (x y : X) {u : Unit {0}}
      → run (create_portainer launch (portainer_container_name run_id) port) x ≡ (ok u, y)
      → Listening run_id port y
  created-Listening run_id port x y {u} h =
      run_bind-elim (container_exists launch (portainer_container_name run_id)) _ u x y h
        λ e x₁ r₁ h₁.
          run_bind-elim
            (if e
              then stop_and_remove_container launch (portainer_container_name run_id)
              else pure tt)
            _ u x₁ y h₁
            λ v x₂ r₂ h₂.
              run_bind-elim
                (docker_command launch (codes "pull" ∷ codes "portainer/portainer-ce:latest" ∷ []))
                _ u x₂ y h₂
                λ o x₃ r₃ h₃.
                  run_bind-elim (docker_command launch (listening run_id port)) _ u x₃ y h₃
                    λ p x₄ r₄ h₄. inr (
                      x₃,
                      p,
                      subst
                          (λ z. run (docker_command launch (listening run_id port)) x₃ ≡ (ok p, z))
                          (run-pure-ok x₄ y h₄).1 r₄,
                    )

  unless_running :
      (run_id : Text) (port : ℕ) (running : Bool) (x x₁ y : X) {u : Unit {0}}
      → run (container_is_running launch (portainer_container_name run_id)) x ≡ (ok running, x₁)
      → run
          (if running
            then pure tt
            else create_portainer launch (portainer_container_name run_id) port)
          x₁
        ≡ (ok u, y)
      → Listening run_id port y
  unless_running run_id port true x x₁ y asked h = inl (
    x,
    subst
        (λ z. run (container_is_running launch (portainer_container_name run_id)) x ≡ (ok true, z))
        (run-pure-ok x₁ y h).1 asked,
  )
  unless_running run_id port false x x₁ y asked h = created-Listening run_id port x₁ y h

  pub start_portainer-Listening :
      (run_id : Text) (port : ℕ) (x y : X) {u : Unit {0}}
      → run (start_portainer launch run_id port) x ≡ (ok u, y)
      → Listening run_id port y
  unfolding start_portainer
  start_portainer-Listening run_id port x y {u} h =
      run_bind-elim (find_existing_portainer launch) _ u x y h λ existing x₁ r₁ h₁.
        run_bind-elim (remove_other launch (portainer_container_name run_id) existing) _ u x₁ y h₁
          λ v x₂ r₂ h₂.
            run_bind-elim (container_is_running launch (portainer_container_name run_id)) _ u x₂ y
              h₂ λ running x₃ r₃ h₃. unless_running run_id port running x₂ x₃ y r₃ h₃
