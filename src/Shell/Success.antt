-- ===== src/Shell/Success.antt =====
-- src/docker/core.rs: what a command that came back with its output did.
use foc_devnet.Base.{
  ◌≡◌, refl, sym, ◌∙◌, ap, Bool, true, false, List, Outcome, ok, err, panic, if◌then◌else◌,
}
use foc_devnet.Base.Results.{ok-injective}
use foc_devnet.Text.{Text, codes}
use foc_devnet.Program.{run, ret, raise, pure, then_do}
use foc_devnet.Shell.{
  Launch, Output, Failure, docker_command, run_command, if_success, command_failed, cannot_show,
}
use foc_devnet.Text.Search.{join}

module _ {X : Type 0} (launch : Launch X) where
  -- The program was started and succeeded, with this output.
  abbrev pub Launched : Text → List Text → Output → X → X → Type 0
  Launched program args o x y = (launch program args x ≡ (ok o, y)) × (o.success ≡ true)

  not_shown :
      (b : Bool) (f : Failure) (o : Output) (x y : X)
      → run (if b then ret panic else raise f) x ≡ (ok o, y)
      → false ≡ true
  unfolding run
  not_shown true f o x y h = cc (ap (λ s. s.0) h)
  not_shown false f o x y h = cc (ap (λ s. s.0) h)

  tested-ok :
      (b c : Bool) (f : Failure) (o o' : Output) (x y : X)
      → run (if b then pure o else if c then ret panic else raise f) x ≡ (ok o', y)
      → (o ≡ o') × (x ≡ y) × (b ≡ true)
  unfolding run
  tested-ok true c f o o' x y h = (ok-injective (ap (λ s. s.0) h), ap (λ s. s.1) h, refl)
  tested-ok false c f o o' x y h = absurd (cc (not_shown c f o' x y h))

  came_back :
      (program : Text) (args : List Text) (r : Outcome Failure Output × X) (o : Output) (y : X)
      → run (then_do r.0 (if_success launch program args)) r.1 ≡ (ok o, y)
      → (r ≡ (ok o, y)) × (o.success ≡ true)
  unfolding run
  came_back program args (ok a, x) o y h =
      let (same, at, succeeded) =
        tested-ok a.success (cannot_show (join (codes " ") args)) (command_failed program args a) a
          o x y h in
      (λ i. (ok (same i), at i), sym (ap (λ a. a.success) same) ∙ succeeded)
  came_back program args (err e, x) o y h = cc (ap (λ s. s.0) h)
  came_back program args (panic, x) o y h = cc (ap (λ s. s.0) h)

  -- An output that is returned is that of a program that succeeded.
  pub docker_command-Launched :
      (args : List Text) (o : Output) (x y : X)
      → run (docker_command launch args) x ≡ (ok o, y)
      → Launched (codes "docker") args o x y
  unfolding docker_command run_command run
  docker_command-Launched args o x y h =
      came_back (codes "docker") args (launch (codes "docker") args x) o y h
