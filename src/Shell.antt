-- ===== src/Shell.antt =====
-- src/docker/core.rs and src/docker/command_logger.rs: programs started by the process, and the
-- questions to Docker that the other parts ask. Starting a program is a parameter.
pub mod Log
pub mod Success
pub mod Containers
pub mod Simulated
use foc_devnet.Base.{
  ℕ, arith, if◌then◌else◌, ◌||◌, ◌&&◌, not, ltb, leb, ◌==◌, ◌+◌, ◌-◌, Bool, true, false, Option,
  none, some, List, [], ◌∷◌, ◌++◌, Outcome, ok, err, panic, String,
}
use foc_devnet.Text.{Text, codes, text_eq}
use foc_devnet.Text.Bytes.{byte_length, is_char_boundary}
use foc_devnet.Text.Search.{trim, contains_text, starts_with, lines, join}
use foc_devnet.Program.{Program, ret, act, pure, raise, locked, ◌>>=◌, ◌>>◌}

-- `Output`, its bytes read as text
pub record Output : Type 0 where
  pub success : Bool
  pub stdout : Text
  pub stderr : Text

-- `Box<dyn Error>`: a message with what stands for its `{}`, another error
-- behind it, one error on a line after another, or an error of a library.
pub data Failure : Type 0 where
  message : String → List Text → Failure
  command_failed : Text → List Text → Output → Failure
  not_launched : Text → Failure
  not_a_number : Text → Failure
  file_failure : Text → Failure
  about : String → List Text → Failure → Failure
  and_then : Failure → Failure → Failure
  json_failure : Failure

-- `Command::new(program).args(args).output()`
abbrev pub Launch : Type 0 → Type 0
Launch X = Text → List Text → X → Outcome Failure Output × X

-- The slice `&cmd_str[..200]` of a command that is too long to show panics inside a character.
pub cannot_show : Text → Bool
cannot_show cmd_str = ltb 200 (byte_length cmd_str) && not (is_char_boundary 200 cmd_str)

-- The filter for one name.
abbrev pub exactly : Text → Text
exactly name = codes "name=^" ++ (name ++ codes "$")

module _ {X : Type 0} (launch : Launch X) where
  abbrev pub failed_run : Text → List Text → Output → Program X Failure Output
  failed_run program args output =
      if cannot_show (join (codes " ") args)
      then ret panic
      else raise (command_failed program args output)

  abbrev pub if_success : Text → List Text → Output → Program X Failure Output
  if_success program args output =
      if output.success then pure output else failed_run program args output

  unfoldable pub run_command : Text → List Text → Program X Failure Output
  run_command program args = do
    output ← locked (launch program args)
    if_success program args output

  unfoldable pub docker_command : List Text → Program X Failure Output
  unfolding run_command
  docker_command args = run_command (codes "docker") args

  unfoldable pub container_exists : Text → Program X Failure Bool
  unfolding docker_command
  container_exists name = do
    output ← docker_command (
        codes "ps"
        ∷ codes "-a"
        ∷ codes "--filter"
        ∷ exactly name
        ∷ codes "--format"
        ∷ codes "{{.Names}}"
        ∷ [])
    pure (contains_text name (trim output.stdout))

  unfoldable pub container_is_running : Text → Program X Failure Bool
  unfolding docker_command
  container_is_running name = do
    output ←
        docker_command (
          codes "ps" ∷ codes "--filter" ∷ exactly name ∷ codes "--format" ∷ codes "{{.Names}}" ∷ [])
    pure (contains_text name (trim output.stdout))

  unfoldable pub stop_container : Text → Program X Failure (Unit {0})
  unfolding container_is_running docker_command
  stop_container name = do
    running ← container_is_running name
    if running then docker_command (codes "stop" ∷ name ∷ []) >> pure tt else pure tt

  unfoldable pub remove_container : Text → Program X Failure (Unit {0})
  unfolding container_exists docker_command
  remove_container name = do
    exists ← container_exists name
    if exists then docker_command (codes "rm" ∷ name ∷ []) >> pure tt else pure tt

  unfoldable pub stop_and_remove_container : Text → Program X Failure (Unit {0})
  unfolding stop_container remove_container
  stop_and_remove_container name = stop_container name >> remove_container name

  abbrev any_line : Text → List Text → Bool
  any_line image_name [] = false
  any_line image_name (line ∷ rest) =
      text_eq line image_name
      || starts_with (image_name ++ codes ":") line
      || any_line image_name rest

  unfoldable pub image_exists : Text → Program X Failure Bool
  unfolding docker_command
  image_exists image_name = do
    output ←
        docker_command (codes "images" ∷ codes "--format" ∷ codes "{{.Repository}}:{{.Tag}}" ∷ [])
    pure (any_line image_name (lines output.stdout))
