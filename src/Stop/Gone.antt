-- ===== src/Stop/Gone.antt =====
-- src/commands/stop.rs: the containers that a stop names.
use mathlib.Core.Path.{subst}
use foc_devnet.Base.{◌≡◌, sym, ap, ◌∙◌, if◌then◌else◌, Bool, true, false, List, [], ◌∷◌, All, ok}
use foc_devnet.Text.{Text}
use foc_devnet.Text.Search.{trim, contains_text}
use foc_devnet.Program.{Program, run, pure, raise, Keeps}
use foc_devnet.Program.Success.{run-Keeps}
use foc_devnet.Program.Loops.{for_each, run_bind-elim, run_bind-ok, run-pure-ok}
use foc_devnet.Program.Caught.{Keeps-for_each}
use foc_devnet.Shell.{Failure, message, docker_command, container_exists, container_is_running}
use foc_devnet.Shell.Success.{docker_command-Launched}
use foc_devnet.Network.Laws.{Tight, contains_text-printed}
use foc_devnet.Stop.{
  Machine, stop_and_remove_service_container, stop_existing, stop_running, check_success,
  check_removed, rm_container_args,
}
use foc_devnet.Stop.Laws.{Containers, Gone, ps_args}
use foc_devnet.Stop.Kept.{All-every, stop_and_remove-Keeps}

module _ {X : Type 0} (machine : Machine X) {there : Text → X → Bool}
    (docker : Containers machine there) where
  container_exists-ok :
      (n : Text) (b : Bool) (x y : X)
      → Tight n
      → run (container_exists machine.launch n) x ≡ (ok b, y)
      → (b ≡ there n x) × (there n y ≡ there n x)
  unfolding container_exists
  container_exists-ok n b x y tight h =
      let (o, x₁, listed, found) =
        run_bind-ok (docker_command machine.launch (ps_args n)) _ x y h in
      let (same, at) = run-pure-ok x₁ y found in
      let (prints, keeps) =
        docker.ps_prints n o x x₁
          (docker_command-Launched machine.launch (ps_args n) o x x₁ listed) in
      (
        sym same
            ∙ ap (λ s. contains_text n (trim s)) prints
            ∙ contains_text-printed n (there n x) tight,
        ap (there n) (sym at) ∙ keeps,
      )

  removed-Gone :
      (n : Text) (still : Bool) (x y : X)
      → still ≡ there n x
      → run
          (if still
            then raise (message "Container '{}' still exists after removal" (n ∷ []))
            else pure tt)
          x
        ≡ (ok tt, y)
      → there n y ≡ false
  unfolding run
  removed-Gone n true x y is h = cc (ap (λ s. s.0) h)
  removed-Gone n false x y is h = ap (there n) (sym (ap (λ s. s.1) h)) ∙ sym is

  check_removed-Gone :
      (n : Text) (x y : X)
      → Tight n
      → run (check_removed machine.launch n) x ≡ (ok tt, y)
      → there n y ≡ false
  check_removed-Gone n x y tight h =
      run_bind-elim (container_exists machine.launch n) _ tt x y h λ still x₁ asked rest.
        let (is, keeps) = container_exists-ok n still x x₁ tight asked in
        removed-Gone n still x₁ y (is ∙ sym keeps) rest

  stop_existing-Gone :
      (n : Text) (x y : X)
      → Tight n
      → run (stop_existing machine.launch n) x ≡ (ok tt, y)
      → there n y ≡ false
  stop_existing-Gone n x y tight h =
      run_bind-elim (container_is_running machine.launch n) _ tt x y h λ running x₁ r₁ h₁.
        run_bind-elim (if running then stop_running machine.launch n else pure tt) _ tt x₁ y h₁
          λ u x₂ r₂ h₂.
            run_bind-elim (docker_command machine.launch (rm_container_args n)) _ tt x₂ y h₂
              λ o x₃ r₃ h₃.
                run_bind-elim (check_success machine.launch _ n o) _ tt x₃ y h₃
                  λ v x₄ r₄ h₄. check_removed-Gone n x₄ y tight h₄

  existing-Gone :
      (n : Text) (b : Bool) (x y : X)
      → Tight n
      → b ≡ there n x
      → run (if b then stop_existing machine.launch n else pure tt) x ≡ (ok tt, y)
      → there n y ≡ false
  existing-Gone n true x y tight is h = stop_existing-Gone n x y tight h
  existing-Gone n false x y tight is h = ap (there n) (sym (run-pure-ok x y h).1) ∙ sym is

  stop_and_remove-Gone :
      (n : Text) (x y : X)
      → Tight n
      → run (stop_and_remove_service_container machine.launch n) x ≡ (ok tt, y)
      → there n y ≡ false
  unfolding stop_and_remove_service_container
  stop_and_remove-Gone n x y tight h =
      run_bind-elim (container_exists machine.launch n) _ tt x y h λ b x₁ asked rest.
        let (is, keeps) = container_exists-ok n b x x₁ tight asked in
        existing-Gone n b x₁ y tight (is ∙ sym keeps) rest

  abbrev pub stop_one : Text × Text → Program X Failure (Unit {0})
  stop_one (container_name, service_name) =
      stop_and_remove_service_container machine.launch container_name

  -- What was gone when a part began is gone behind it.
  pub still-Gone :
      {A : Type 0} (m : Text) (part : Program X Failure A) (a : A) (x y : X)
      → Keeps (Gone machine docker m) part
      → run part x ≡ (ok a, y)
      → there m x ≡ false
      → there m y ≡ false
  still-Gone m part a x y keeps ran gone =
      subst (Gone machine docker m) (ap (λ s. s.1) ran)
        (run-Keeps (Gone machine docker m) part x keeps gone)

  pub loop-Gone :
      (cs : List (Text × Text)) (x y : X)
      → All (λ c. Tight c.0) cs
      → run (for_each cs stop_one) x ≡ (ok tt, y)
      → All (λ c. there c.0 y ≡ false) cs
  unfolding for_each
  loop-Gone [] x y tight h = tt
  loop-Gone ((n, s) ∷ cs) x y tight h = run_bind-elim (stop_one (n, s)) _ tt x y h λ u x₁ r₁ h₁. (
    still-Gone n (for_each cs stop_one) tt x₁ y
        (Keeps-for_each (Gone machine docker n) cs stop_one
          (All-every _ cs (λ c. stop_and_remove-Keeps machine docker n c.0)))
        h₁ (stop_and_remove-Gone n x x₁ tight.0 r₁),
    loop-Gone cs x₁ y tight.1 h₁,
  )
