-- ===== src/Poison/Examples.antt =====
-- Runs of `main` with commands that do nothing or fail.
use foc_devnet.Base.{ℕ, ◌≡◌, refl, ap, true, false, ok, err}
use foc_devnet.Base.Exec.{pure, raise}
use foc_devnet.Poison.{Bodies, command_failed, start, stop, main}
use foc_devnet.Poison.Protection.{home, main-ok, main_lem}

-- Starting fails, and all else does nothing.
abbrev failing_start : Bodies (Unit {0}) ℕ
failing_start = record {
  prepare_run = pure tt;
  start_cluster = λ parallel. raise (command_failed 7);
  stop_cluster = pure tt;
  clean_all = λ all images. pure tt;
  is_clean_for_init = pure true;
  init_environment = λ options. pure tt;
  load_config_and_build = λ project. pure tt;
  show_status = pure tt;
  show_version = λ notty. pure tt;
}

main_lem_example :
    main failing_start (start true) (home true false tt)
    ≡ (err (command_failed 7), home true true tt)
main_lem_example =
    main_lem failing_start (start true) (failing_start.start_cluster true) refl (home true false tt)
      true false true tt tt (err (command_failed 7)) refl refl

main-ok_example : (main failing_start stop (home true true tt)).1.poison ≡ false
main-ok_example = main-ok failing_start stop (home true true tt) (
    ap (λ r. r.0)
      (main_lem failing_start stop (pure tt) refl (home true true tt) true true true tt tt (ok tt)
        refl refl))
