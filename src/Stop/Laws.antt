-- ===== src/Stop/Laws.antt =====
-- src/commands/stop.rs: what Docker documents of the commands that a stop gives, and what each part of
-- a stop keeps of it.
use foc_devnet.Base.{◌≡◌, refl, ◌||◌, Bool, true, false, List, [], ◌∷◌}
use foc_devnet.Text.{Text, codes, text_eq}
use foc_devnet.Program.{locked, Keeps, Keeps-bind}
use foc_devnet.Program.Caught.{Keeps-if, Keeps-catch}
use foc_devnet.Shell.{
  Output, Failure, exactly, docker_command, run_command, container_exists, container_is_running,
  cannot_show,
}
use foc_devnet.Shell.Success.{Launched}
use foc_devnet.Shell.Containers.{best_effort}
use foc_devnet.Network.Laws.{printed}
use foc_devnet.Stop.{Machine, stop_running, check_success, stop_args}

abbrev pub ps_args : Text → List Text
ps_args name =
    codes "ps"
    ∷ codes "-a"
    ∷ codes "--filter"
    ∷ exactly name
    ∷ codes "--format"
    ∷ codes "{{.Names}}"
    ∷ []

-- A command of `docker` that makes no container.
abbrev pub makes_none : List Text → Bool
makes_none [] = false
makes_none (c ∷ args) =
    text_eq c (codes "ps")
    || text_eq c (codes "stop")
    || text_eq c (codes "rm")
    || text_eq c (codes "network")

-- What is documented of the machine's containers: `ps -a` with the filter of one name prints that name
-- if there is such a container, `ps`, `stop`, `rm` and `network` make none, and no file is one.
pub record Containers {X : Type 0} (machine : Machine X) (there : Text → X → Bool) : Type 0 where
  pub ps_prints :
      (n : Text) (o : Output) (x y : X)
      → Launched machine.launch (codes "docker") (ps_args n) o x y
      → (o.stdout ≡ printed n (there n x)) × (there n y ≡ there n x)
  pub adds_none :
      (args : List Text) (m : Text) (x : X)
      → makes_none args ≡ true
      → there m x ≡ false
      → there m (machine.launch (codes "docker") args x).1 ≡ false
  pub remove_file_keeps :
      (path m : Text) (x : X) → there m (machine.remove_file path x).1 ≡ there m x

module _ {X : Type 0} (machine : Machine X) {there : Text → X → Bool}
    (docker : Containers machine there) (m : Text) where
  abbrev pub Gone : X → Type 0
  Gone x = there m x ≡ false

  pub docker_command-Keeps :
      (args : List Text) → makes_none args ≡ true → Keeps Gone (docker_command machine.launch args)
  unfolding docker_command run_command
  docker_command-Keeps args h =
      Keeps-bind Gone (locked (machine.launch (codes "docker") args)) _
        (λ x g. (docker.adds_none args m x h g, tt))
        (λ output. Keeps-if Gone output.success _ _ tt (Keeps-if Gone (cannot_show _) _ _ tt tt))

  pub best_effort-Keeps :
      (args : List Text) → makes_none args ≡ true → Keeps Gone (best_effort machine.launch args)
  best_effort-Keeps args h =
      Keeps-bind Gone _ _
        (Keeps-catch Failure Gone (docker_command machine.launch args)
          (docker_command-Keeps args h))
        (λ r. tt)

  pub container_exists-Keeps : (n : Text) → Keeps Gone (container_exists machine.launch n)
  unfolding container_exists text_eq
  container_exists-Keeps n =
      Keeps-bind Gone (docker_command machine.launch _) _ (docker_command-Keeps _ refl) (λ o. tt)

  pub container_is_running-Keeps : (n : Text) → Keeps Gone (container_is_running machine.launch n)
  unfolding container_is_running text_eq
  container_is_running-Keeps n =
      Keeps-bind Gone (docker_command machine.launch _) _ (docker_command-Keeps _ refl) (λ o. tt)

  pub stop_running-Keeps : (n : Text) → Keeps Gone (stop_running machine.launch n)
  unfolding text_eq
  stop_running-Keeps n =
      Keeps-bind Gone (docker_command machine.launch (stop_args n)) _ (docker_command-Keeps _ refl)
        (λ o.
          Keeps-bind Gone (check_success machine.launch _ n o) _ (Keeps-if Gone o.success _ _ tt tt)
            (λ u.
              Keeps-bind Gone (container_is_running machine.launch n) _
                (container_is_running-Keeps n) (λ still. Keeps-if Gone still _ _ tt tt)))
