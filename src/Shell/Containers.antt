-- ===== src/Shell/Containers.antt =====
-- src/docker/logs.rs and src/docker/containers.rs: the containers that belong to a devnet, and the sweep
-- of those that are dead. src/docker/portainer.rs: the container of Portainer.
use foc_devnet.Base.{
  ℕ, zero, suc, ◌+◌, leb, ◌==◌, ◌&&◌, ◌||◌, if◌then◌else◌, Bool, true, false, Option, none, some,
  List, [], ◌∷◌, ◌++◌, map,
}
use foc_devnet.Text.{Text, codes, text_eq, to_string}
use foc_devnet.Text.Split.{strip_prefix}
use foc_devnet.Text.Search.{trim, lines, split_on, contains_text}
use foc_devnet.Program.{Program, pure, ◌>>=◌, ◌>>◌}
use foc_devnet.Program.Loops.{for_each}
use foc_devnet.Program.Catch.{catch}
use foc_devnet.Containers.{portainer_container_name}
use foc_devnet.Shell.{
  Launch, Failure, docker_command, container_exists, container_is_running,
  stop_and_remove_container,
}

pub record ContainerInfo : Type 0 where
  pub name : Text
  pub image : Text
  pub status : Text

-- A line of three parts or more
abbrev info_of : List Text → List ContainerInfo
info_of (name ∷ image ∷ status ∷ rest) =
    record { name = trim name; image = trim image; status = trim status } ∷ []
info_of parts = []

unfoldable pub container_infos : List Text → List ContainerInfo
container_infos [] = []
container_infos (line ∷ rest) = info_of (split_on b'|' line) ++ container_infos rest

abbrev before_colon : Text → Text
before_colon [] = []
before_colon (c ∷ s) = let rest = before_colon s in if c == b':' then [] else c ∷ rest

unfoldable pub is_foc_devnet_image : Text → Bool
is_foc_devnet_image image =
    let repo = before_colon image in
    text_eq (codes "foc-lotus") repo
    || text_eq (codes "foc-lotus-miner") repo
    || text_eq (codes "foc-builder") repo
    || text_eq (codes "foc-curio") repo

-- The regular expression `^foc-\d{8}T\d{4}_[A-Za-z0-9]+-(postgres|scylla)-\d+$`. Which characters `\d`
-- takes is for the library of regular expressions to say.
module _ (is_decimal : ℕ → Bool) where
  abbrev exactly_decimal : ℕ → (Text → Bool) → Text → Bool
  exactly_decimal zero test s = test s
  exactly_decimal (suc n) test [] = false
  exactly_decimal (suc n) test (c ∷ s) = is_decimal c && exactly_decimal n test s

  abbrev all_decimal : Text → Bool
  all_decimal [] = true
  all_decimal (c ∷ s) = is_decimal c && all_decimal s

  abbrev some_decimal : Text → Bool
  some_decimal [] = false
  some_decimal (c ∷ s) = all_decimal (c ∷ s)

  abbrev behind : Text → (Text → Bool) → Text → Bool
  behind p test s = elim (strip_prefix p s) [ none ↦ false | some rest ↦ test rest ]

  abbrev is_alphanumeric : ℕ → Bool
  is_alphanumeric c =
      (leb b'A' c && leb c b'Z') || (leb b'a' c && leb c b'z') || (leb b'0' c && leb c b'9')

  abbrev database_suffix : Text → Bool
  database_suffix s =
      behind (codes "-postgres-") some_decimal s || behind (codes "-scylla-") some_decimal s

  -- `[A-Za-z0-9]+` and the suffix, read from the first character on
  abbrev word_and_suffix : Text → Bool
  word_and_suffix [] = false
  word_and_suffix (c ∷ s) = is_alphanumeric c && (database_suffix s || word_and_suffix s)

  unfoldable pub is_devnet_db_container_name : Text → Bool
  is_devnet_db_container_name = behind (codes "foc-") (
      exactly_decimal 8
        (behind (codes "T") (exactly_decimal 4 (behind (codes "_") word_and_suffix))))

  abbrev keep_ours : List ContainerInfo → List ContainerInfo
  keep_ours [] = []
  keep_ours (c ∷ cs) =
      if is_foc_devnet_image c.image || is_devnet_db_container_name c.name
      then c ∷ keep_ours cs
      else keep_ours cs

-- `to_lowercase` on ASCII
abbrev lower : ℕ → ℕ
lower c = if leb b'A' c && leb c b'Z' then c + 32 else c

abbrev is_dead : Text → Bool
is_dead status =
    let status_lower = map lower status in
    contains_text (codes "exited") status_lower
    || contains_text (codes "dead") status_lower
    || contains_text (codes "created") status_lower
    || contains_text (codes "removing") status_lower
    || contains_text (codes "paused") status_lower

module _ {X : Type 0} (launch : Launch X) where
  -- An error of a removal is only logged.
  abbrev pub best_effort : List Text → Program X Failure (Unit {0})
  best_effort args = catch {D = Failure} (docker_command launch args) >> pure tt

  unfoldable pub list_all_containers : Program X Failure (List ContainerInfo)
  unfolding container_infos
  list_all_containers = do
    output ← docker_command launch (
        codes "ps" ∷ codes "-a" ∷ codes "--format" ∷ codes "{{.Names}}|{{.Image}}|{{.Status}}" ∷ [])
    pure (container_infos (lines output.stdout))

  unfoldable pub list_foc_devnet_containers : (ℕ → Bool) → Program X Failure (List ContainerInfo)
  list_foc_devnet_containers is_decimal = do
    containers ← list_all_containers
    pure (keep_ours is_decimal containers)

  unfoldable pub remove_dead_foc_containers : (ℕ → Bool) → Program X Failure (Unit {0})
  remove_dead_foc_containers is_decimal = do
    containers ← list_foc_devnet_containers is_decimal
    for_each containers
        λ c. if is_dead c.status then best_effort (codes "rm" ∷ c.name ∷ []) else pure tt

abbrev blank_or_first : List Text → Option Text
blank_or_first [] = none
blank_or_first (line ∷ rest) =
    let later = blank_or_first rest in elim (trim line) [ [] ↦ later | c ∷ s ↦ some line ]

module _ {X : Type 0} (launch : Launch X) where
  unfoldable pub find_existing_portainer : Program X Failure (Option Text)
  find_existing_portainer = do
    output ← docker_command launch (
        codes "ps"
        ∷ codes "--filter"
        ∷ codes "name=^foc-.*-portainer$"
        ∷ codes "--format"
        ∷ codes "{{.Names}}"
        ∷ [])
    pure (blank_or_first (lines output.stdout))

  abbrev pub remove_other : Text → Option Text → Program X Failure (Unit {0})
  remove_other container_name none = pure tt
  remove_other container_name (some existing_name) =
      if text_eq existing_name container_name
      then pure tt
      else stop_and_remove_container launch existing_name

  abbrev pub portainer_image : Text
  portainer_image = codes "portainer/portainer-ce:latest"

  abbrev pub create_portainer : Text → ℕ → Program X Failure (Unit {0})
  create_portainer container_name port = do
    exists ← container_exists launch container_name
    if exists then stop_and_remove_container launch container_name else pure tt
    docker_command launch (codes "pull" ∷ portainer_image ∷ [])
    docker_command launch (
        codes "run"
        ∷ codes "-d"
        ∷ codes "--name"
        ∷ container_name
        ∷ codes "-p"
        ∷ (to_string port ++ codes ":9000")
        ∷ codes "--mount"
        ∷ codes "type=bind,source=/var/run/docker.sock,target=/var/run/docker.sock"
        ∷ codes "--mount"
        ∷ codes "type=volume,source=portainer_data,target=/data"
        ∷ codes "--restart"
        ∷ codes "unless-stopped"
        ∷ portainer_image
        ∷ [])
    pure tt

  unfoldable pub start_portainer : Text → ℕ → Program X Failure (Unit {0})
  start_portainer run_id port = do
    let container_name = portainer_container_name run_id
    existing_portainer ← find_existing_portainer
    remove_other container_name existing_portainer
    running ← container_is_running launch container_name
    if running then pure tt else create_portainer container_name port

  unfoldable pub stop_portainer : Text → Program X Failure (Unit {0})
  stop_portainer run_id = do
    let container_name = portainer_container_name run_id
    exists ← container_exists launch container_name
    if exists then stop_and_remove_container launch container_name else pure tt
