-- ===== src/Host/Chain.antt =====
-- What the steps about providers share: src/commands/start/lotus_utils/mod.rs, the checks that both
-- steps make, and commands of the builder's image.
use foc_devnet.Base.{ℕ, ◌+◌, ◌||◌, if◌then◌else◌, Bool, List, [], ◌∷◌, ◌++◌, Outcome, String}
use foc_devnet.Text.{Text, codes, to_string, parse_uint, max_u16}
use foc_devnet.Text.Search.{contains_text}
use foc_devnet.Dict.{lookup}
use foc_devnet.Containers.{lotus_container_name}
use foc_devnet.Program.{Program, ret, pure, raise, gets, modify, map_error, ◌>>=◌}
use foc_devnet.Context.{World, get}
use foc_devnet.Shell.{Failure, message, about, not_a_number, container_is_running}
use foc_devnet.Shell.Log.{on_outside, run_and_log_command_strings}
use foc_devnet.Host.{Host, ContractAddresses}
use foc_devnet.Host.Files.{load_addresses, ok_or}

-- `format!` with the texts written out
abbrev pub concat : List Text → Text
concat [] = []
concat (s ∷ texts) = s ++ concat texts

-- `parse::<u64>()?` and the like
abbrev pub number : ℕ → Text → Outcome Failure ℕ
number max s = ok_or (not_a_number s) (parse_uint max s)

module _ {X : Type 0} where
  -- The steps measure time in the seconds of the clock.
  unfoldable pub sleep : ℕ → Program (World X) Failure (Unit {0})
  sleep secs = modify (λ w. record w { clock = w.clock + secs })

  unfoldable pub get_run_id : Program (World X) Failure Text
  get_run_id = gets (λ w. w.run_id)

  -- `context.get(key).ok_or(error)?`
  unfoldable pub require : Text → Failure → Program (World X) Failure Text
  require key error = do value ← get key; ret (ok_or error value)

  unfoldable pub get_lotus_rpc_url : Program (World X) Failure Text
  get_lotus_rpc_url = do
    port ← require (codes "lotus_api_port") (message "Lotus API port not found in context" [])
    lotus_api_port ← ret (number max_u16 port)
    pure (concat (codes "http://localhost:" ∷ to_string lotus_api_port ∷ codes "/rpc/v1" ∷ []))

-- `docker run` of a command in the builder's image, in the host's network
abbrev pub builder_args : Text → List Text → List Text
builder_args container_name command =
    codes "run"
    ∷ codes "--name"
    ∷ container_name
    ∷ codes "-u"
    ∷ codes "foc-user"
    ∷ codes "--network"
    ∷ codes "host"
    ∷ codes "foc-builder"
    ∷ command

module _ {X : Type 0} (host : Host X) where
  unfoldable pub check_lotus_running : Program (World X) Failure (Unit {0})
  unfolding on_outside
  check_lotus_running = do
    run_id ← get_run_id
    running ← on_outside (container_is_running host.launch (lotus_container_name run_id))
    if running then pure tt else raise (message "Lotus container is not running." [])

  unfoldable pub load_contract_addresses : Program (World X) Failure ContractAddresses
  unfolding on_outside
  load_contract_addresses = do
    run_id ← get_run_id
    map_error (about "Failed to load contract addresses: {}" [])
        (on_outside (load_addresses host run_id))

  -- A command that is kept in the history, with the error for one that does not succeed.
  unfoldable pub in_builder :
      Text → List Text → Text → (Text → Failure) → Program (World X) Failure Text
  in_builder container_name command key failed = do
    output ←
        run_and_log_command_strings host.launch (codes "docker")
          (builder_args container_name command) key
    if output.success then pure output.stdout else raise (failed output.stderr)

-- `contracts.get(name).ok_or(error)?`
abbrev pub contract : Text → String → List (Text × Text) → Outcome Failure Text
contract name error addresses = ok_or (message error []) (lookup name addresses)

-- What `cast send` prints of a transaction that the chain refused
abbrev pub transaction_failed : Text → Bool
transaction_failed stdout =
    contains_text (codes "status               0") stdout
    || contains_text (codes "status               (failed)") stdout
