-- ===== src/Host/Mounts.antt =====
-- src/docker/mounts.rs: the directories that are bound into containers.
use foc_devnet.Base.{◌++◌, if◌then◌else◌, Bool, false, List, [], ◌∷◌, Outcome}
use foc_devnet.Text.{Text, codes}
use foc_devnet.Program.{Program, pure, locked, map_error, ◌>>=◌, ◌>>◌}
use foc_devnet.Shell.{Failure, about}
use foc_devnet.Host.{Host}
use foc_devnet.Host.Chain.{concat}

-- `tempfile_in` of the crate `tempfile`, whose file is gone when it is dropped
abbrev pub TempfileIn : Type 0 → Type 0
TempfileIn X = Text → X → Outcome Failure (Unit {0}) × X

module _ {X : Type 0} (host : Host X) (tempfile_in : TempfileIn X) where
  abbrev pub verify_bind_source_writable : Text → Program X Failure (Unit {0})
  verify_bind_source_writable source =
      map_error
        (about "Docker bind source is not writable by the current user: {}: {}" (source ∷ []))
        (locked (tempfile_in source))

  unfoldable pub prepare_bind_source : Text → Program X Failure (Unit {0})
  prepare_bind_source source = do
    map_error (about "Failed to create Docker bind source {}: {}" (source ∷ []))
        (locked (host.create_dir_all source))
    verify_bind_source_writable source

  unfoldable pub bind_mount_with_mode : Text → Text → Bool → Program X Failure Text
  unfolding prepare_bind_source
  bind_mount_with_mode source target read_only = do
    prepare_bind_source source
    let read_only_option = if read_only then codes ",readonly" else []
    pure (
        concat
          (codes "type=bind,source=" ∷ source ∷ codes ",target=" ∷ target ∷ read_only_option ∷ []))

  unfoldable pub bind_mount : Text → Text → Program X Failure Text
  unfolding bind_mount_with_mode
  bind_mount source target = bind_mount_with_mode source target false

  unfoldable pub push_bind_mount_with_mode :
      List Text → Text → Text → Bool → Program X Failure (List Text)
  unfolding bind_mount_with_mode
  push_bind_mount_with_mode args source target read_only = do
    mount ← bind_mount_with_mode source target read_only
    pure (args ++ codes "--mount" ∷ mount ∷ [])
