-- ===== src/Poison.antt =====
-- src/poison.rs, src/main.rs and src/main_app/command_handlers.rs: the poison file that marks a command
-- as unfinished, and the commands under its protection.
mod Examples
pub mod Protection
use foc_devnet.Base.{
  ℕ, if◌then◌else◌, Bool, true, false, Option, none, some, List, [], ◌∷◌, Outcome, ok, err, panic,
}
use foc_devnet.Base.Exec.{Exec, pure, raise, gets, ◌>>=◌, ◌>>◌}
use foc_devnet.Text.{Text}

-- What the file system makes of one operation. An operation that breaks off has had its effect.
pub data Effect : Type 0 where
  done refused broken_off : Effect

-- The home directory: whether the state directory and the poison file in it exist, what becomes of
-- the coming operations on them (all are done once the list has ended), and all else.
pub record Home (S : Type 0) : Type 0 where
  pub state_dir : Bool
  pub poison : Bool
  pub effects : List Effect
  pub rest : S

pub data MainError (E : Type 0) : Type 0 where
  file_error : MainError E
  not_clean : MainError E
  command_failed : E → MainError E

abbrev pub MainExec : Type 0 → Type 0 → Type 0 → Type 0
MainExec S E A = Exec (Home S) (MainError E) A

module _ {S E : Type 0} where
  next_effect : List Effect → (Home S → Home S) → MainExec S E (Unit {0})
  next_effect [] change h = (ok tt, change h)
  next_effect (done ∷ later) change h = (ok tt, change (record h { effects = later }))
  next_effect (refused ∷ later) change h = (err file_error, record h { effects = later })
  next_effect (broken_off ∷ later) change h =
      (err file_error, change (record h { effects = later }))

  -- One operation of the file system
  file_operation : (Home S → Home S) → MainExec S E (Unit {0})
  unfolding next_effect
  file_operation change h = next_effect h.effects change h

  poison_file_path : MainExec S E (Unit {0})
  unfolding file_operation
  poison_file_path = file_operation (λ h. record h { state_dir = true })

  remove_file : Bool → MainExec S E (Unit {0})
  unfolding file_operation
  remove_file exists = if exists then file_operation (λ h. record h { poison = false }) else pure tt

  -- Showing the contents never fails, and `perform_recovery` does nothing.
  pub check_and_recover_poison : MainExec S E (Unit {0})
  unfolding poison_file_path remove_file
  check_and_recover_poison = do poison_file_path; exists ← gets (λ h. h.poison); remove_file exists

  pub create_poison : MainExec S E (Unit {0})
  unfolding poison_file_path file_operation
  create_poison = do poison_file_path; file_operation (λ h. record h { poison = true })

  pub remove_poison : MainExec S E (Unit {0})
  unfolding remove_file
  remove_poison = do exists ← gets (λ h. h.poison); remove_file exists

pub record InitOptions : Type 0 where
  pub curio : Option Text
  pub lotus : Option Text
  pub filecoin_services : Option Text
  pub pdp : Option Text
  pub proof_params_dir : Option Text
  pub rand : Bool
  pub no_docker_build : Bool

pub data Project : Type 0 where
  lotus_project curio_project : Project

-- `Commands`; the paths of `BuildCommands` are not used.
pub data Commands : Type 0 where
  start : Bool → Commands
  stop : Commands
  clean : Bool → Bool → Commands
  init : InitOptions → Commands
  build : Project → Commands
  status : Commands
  version : Bool → Commands

-- What the handlers call: the commands themselves, and what `main` does before them.
pub record Bodies (S E : Type 0) : Type 0 where
  pub prepare_run : MainExec S E (Unit {0})
  pub start_cluster : Bool → MainExec S E (Unit {0})
  pub stop_cluster : MainExec S E (Unit {0})
  pub clean_all : Bool → Bool → MainExec S E (Unit {0})
  pub is_clean_for_init : MainExec S E Bool
  pub init_environment : InitOptions → MainExec S E (Unit {0})
  pub load_config_and_build : Project → MainExec S E (Unit {0})
  pub show_status : MainExec S E (Unit {0})
  pub show_version : Bool → MainExec S E (Unit {0})

module _ {S E : Type 0} (b : Bodies S E) where
  init_if : InitOptions → Bool → MainExec S E (Unit {0})
  unfolding create_poison
  init_if options true = create_poison >> b.init_environment options
  init_if options false = raise not_clean

  pub handle : Commands → MainExec S E (Unit {0})
  unfolding create_poison init_if
  handle (start parallel) = create_poison >> b.start_cluster parallel
  handle stop = create_poison >> b.stop_cluster
  handle (clean all images) = create_poison >> b.clean_all all images
  handle (init options) = b.is_clean_for_init >>= init_if options
  handle (build project) = create_poison >> b.load_config_and_build project
  handle status = b.show_status
  handle (version notty) = b.show_version notty

  pub main : Commands → MainExec S E (Unit {0})
  unfolding check_and_recover_poison remove_poison handle
  main command = do b.prepare_run; check_and_recover_poison; handle command; remove_poison
