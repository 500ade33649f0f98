-- ===== src/Shell/Log.antt =====
-- src/docker/command_logger.rs: commands of a step, which are kept in the history of the context.
use foc_devnet.Base.{◌||◌, if◌then◌else◌, List, [], ◌∷◌, ◌++◌}
use foc_devnet.Text.{Text, codes}
use foc_devnet.Text.Search.{contains_text}
use foc_devnet.Program.{Program, ret, act, locked, ◌>>◌}
use foc_devnet.Context.{World, save_command}
use foc_devnet.Shell.{Output, Failure, Launch}

abbrev quoted : Text → Text
quoted arg =
    if contains_text (codes " ") arg
      || contains_text (codes "$") arg
      || contains_text (codes "&") arg
      || contains_text (codes ">") arg
      || contains_text (codes "|") arg
    then codes " '" ++ (arg ++ codes "'")
    else codes " " ++ arg

pub format_command : Text → List Text → Text
format_command program [] = program
format_command program (arg ∷ args) = format_command (program ++ quoted arg) args

-- The part of the world outside, for an action that concerns it alone.
module _ {X E A : Type 0} where
  unfoldable pub on_outside : Program X E A → Program (World X) E A
  on_outside (ret r) = ret r
  on_outside (act u k) =
      act (λ w. record w { outside = u w.outside }) (λ w. on_outside (k w.outside))

module _ {X : Type 0} (launch : Launch X) where
  unfoldable pub run_and_log_command_strings :
      Text → List Text → Text → Program (World X) Failure Output
  unfolding on_outside format_command
  run_and_log_command_strings program args key = do
    save_command key (format_command program args)
    on_outside (locked (launch program args))

  unfoldable pub log_command : Text → List Text → Text → Program (World X) Failure (Unit {0})
  unfolding format_command
  log_command program args key = save_command key (format_command program args)
