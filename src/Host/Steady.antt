-- ===== src/Host/Steady.antt =====
-- What the actions of a step on the context and on the machine leave true, whatever other threads do:
-- the commands that it logs and runs, and its sleeps.
use foc_devnet.Base.{◌+◌, ℕ, List}
use foc_devnet.Text.{Text, codes}
use foc_devnet.Dict.{insert}
use foc_devnet.Program.{locked}
use foc_devnet.Program.Secures.{Stable-bind}
use foc_devnet.Program.Threads.{Stable}
use foc_devnet.Context.{World, save, put, set, save_command, record_command, save_to_file}
use foc_devnet.Shell.{Launch, Failure}
use foc_devnet.Shell.Log.{on_outside, run_and_log_command_strings, log_command}
use foc_devnet.Host.Chain.{sleep}

pub record Steady {X : Type 0} (launch : Launch X) (G : World X → Type 0) : Type 0 where
  pub insert_keeps : (k c : Text) (w : World X) → G w → G (put (insert k c) w)
  pub save_keeps : (w : World X) → G w → G (save w).1
  pub sleep_keeps : (n : ℕ) (w : World X) → G w → G (record w { clock = w.clock + n })
  pub launch_keeps :
      (args : List Text) (w : World X)
      → G w
      → G (record w { outside = (launch (codes "docker") args w.outside).1 })

module _ {X : Type 0} {launch : Launch X} (G : World X → Type 0) (steady : Steady launch G) where
  pub set-Stable : (k v : Text) → Stable G (set {E = Failure} k v)
  unfolding set save_to_file
  set-Stable k v = λ w. (steady.insert_keeps k v w, λ w. (steady.save_keeps w, tt))

  pub save_command-Stable : (k c : Text) → Stable G (save_command {E = Failure} k c)
  unfolding save_command record_command save_to_file put
  save_command-Stable k c = λ w. (
    (λ h. steady.insert_keeps _ _ (put (insert k c) w) (steady.insert_keeps k c w h)),
    λ w. (steady.save_keeps w, tt),
  )

  pub sleep-Stable : (n : ℕ) → Stable G (sleep n)
  unfolding sleep
  sleep-Stable n = λ w. (steady.sleep_keeps n w, tt)

  pub launch-Stable :
      (args : List Text) → Stable G (on_outside (locked (launch (codes "docker") args)))
  unfolding on_outside
  launch-Stable args = λ w. (steady.launch_keeps args w, tt)

  pub log_command-Stable :
      (args : List Text) (key : Text) → Stable G (log_command launch (codes "docker") args key)
  unfolding log_command
  log_command-Stable args key = save_command-Stable key _

  pub run_and_log-Stable :
      (args : List Text) (key : Text)
      → Stable G (run_and_log_command_strings launch (codes "docker") args key)
  unfolding run_and_log_command_strings
  run_and_log-Stable args key =
      Stable-bind G (save_command key _) _ (save_command-Stable key _) (λ u. launch-Stable args)
