-- ===== src/Clean.antt =====
-- src/commands/clean.rs: what `clean` removes of the home directory and of the images, and the question
-- of `init` whether the directory is clean. The file system is a parameter.
mod Examples
pub mod Swept
use foc_devnet.Base.{
  ◌&&◌, ◌||◌, not, if◌then◌else◌, Bool, true, false, List, [], ◌∷◌, Outcome, ok, err, panic,
}
use foc_devnet.Text.{Text, codes, text_eq}
use foc_devnet.Text.Search.{lines}
use foc_devnet.Program.{Program, ret, pure, gets, locked, map_error, ◌>>=◌, ◌>>◌}
use foc_devnet.Program.Loops.{for_each}
use foc_devnet.Paths.{◌/◌, foc_devnet_config, foc_devnet_state, foc_devnet_runs}
use foc_devnet.Shell.{Launch, Failure, Output, message}
use foc_devnet.Shell.Containers.{is_foc_devnet_image}

-- `read_dir` gives the name of each entry, or the error of reading it.
pub record Disk (X : Type 0) : Type 0 where
  pub launch : Launch X
  pub home : Text
  pub exists : Text → X → Bool
  pub is_dir : Text → X → Bool
  pub read_dir : Text → X → Outcome Failure (List (Outcome Failure Text)) × X
  pub remove_dir_all : Text → X → Outcome Failure (Unit {0}) × X
  pub remove_file : Text → X → Outcome Failure (Unit {0}) × X
  -- `ErrorKind::NotFound`
  pub is_not_found : Failure → Bool

module _ {X : Type 0} (disk : Disk X) where
  abbrev pub docker_error : Failure → Failure
  docker_error e =
      if disk.is_not_found e
      then message
          "Docker CLI not found. Install Docker and ensure the 'docker' command is on PATH." []
      else e

  abbrev docker : List Text → Program X Failure Output
  docker args = map_error docker_error (locked (disk.launch (codes "docker") args))

  -- The loop over the lines; whether an image was removed only counts for a message.
  abbrev remove_image : Text → Program X Failure (Unit {0})
  remove_image line =
      if is_foc_devnet_image line then docker (codes "rmi" ∷ line ∷ []) >> pure tt else pure tt

  unfoldable pub clean_docker_images : Program X Failure (Unit {0})
  unfolding for_each lines is_foc_devnet_image
  clean_docker_images = do
    output ← docker (codes "images" ∷ codes "--format" ∷ codes "{{.Repository}}:{{.Tag}}" ∷ [])
    if output.success then for_each (lines output.stdout) remove_image else pure tt

  abbrev pub is_kept : Bool → Text → Bool
  is_kept all name = not all && text_eq (disk.home / name) (foc_devnet_config disk.home)

  abbrev pub remove_entry : Text → Program X Failure (Unit {0})
  remove_entry path = do
    is_dir ← gets (disk.is_dir path)
    if is_dir then locked (disk.remove_dir_all path) else locked (disk.remove_file path)

  -- The loop over the entries
  unfoldable pub remove_entries : Bool → List (Outcome Failure Text) → Program X Failure (Unit {0})
  remove_entries all [] = pure tt
  remove_entries all (entry ∷ entries) = do
    name ← ret entry
    if is_kept all name then pure tt else remove_entry (disk.home / name)
    remove_entries all entries

  abbrev pub clean_home : Bool → Bool → Program X Failure (Unit {0})
  clean_home all remove_images = do
    entries ← locked (disk.read_dir disk.home)
    remove_entries all entries
    if remove_images then clean_docker_images else pure tt

  unfoldable pub clean : Bool → Bool → Program X Failure (Unit {0})
  unfolding clean_docker_images remove_entries
  clean all remove_images = do
    exists ← gets (disk.exists disk.home)
    if exists then clean_home all remove_images else pure tt

  abbrev pub is_ignored : Text → Bool
  is_ignored name =
      text_eq (disk.home / name) (foc_devnet_config disk.home)
      || text_eq (disk.home / name) (foc_devnet_state disk.home)
      || text_eq (disk.home / name) (foc_devnet_runs disk.home)

  -- The loop over the entries: the first that is not ignored ends it.
  unfoldable pub only_ignored : List (Outcome Failure Text) → Program X Failure Bool
  only_ignored [] = pure true
  only_ignored (entry ∷ entries) = do
    name ← ret entry
    if is_ignored name then only_ignored entries else pure false

  abbrev pub ready : Program X Failure Bool
  ready = do entries ← locked (disk.read_dir disk.home); only_ignored entries

  unfoldable pub is_clean_for_init : Program X Failure Bool
  unfolding only_ignored
  is_clean_for_init = do exists ← gets (disk.exists disk.home); if exists then ready else pure true
