-- ===== src/Context.antt =====
-- src/commands/start/step/mod.rs, `SetupContext`: what the steps of a start share. Each method is a
-- program over the world that the threads share, with an action for each lock that it takes.
mod Examples
pub mod Laws
pub mod Sharing
use foc_devnet.Base.{
  ℕ, zero, suc, ◌+◌, ◌≡◌, refl, arith, if◌then◌else◌, Bool, true, false, Option, none, some, List,
  [], ◌∷◌, ◌++◌, Outcome, ok, err, panic, map_err,
}
use foc_devnet.Words.{Profile}
use foc_devnet.Text.{Text, codes}
use foc_devnet.Dict.{Dict, lookup, insert, insert_all, keys, filter_keys}
use foc_devnet.Ports.{PortAllocator, PortError, allocate, allocate_multiple}
use foc_devnet.Program.{Program, ret, act, pure, gets, locked, modify, map_error, ◌>>=◌, ◌>>◌}

pub record SetupContext : Type 0 where
  pub state : Dict
  pub run_id : Text
  pub run_dir : Text
  pub port_allocator : PortAllocator
  -- A panic under the lock of the allocator makes every later `lock()` fail.
  pub allocator_poisoned : Bool

-- What the file system makes of one save: all is written, the file cannot be created, or the write
-- breaks off.
pub data Write : Type 0 where
  written not_created cut_short : Write

-- What stands in the step context file of the run.
pub data StepFile : Type 0 where
  missing : StepFile
  holds : Dict → StepFile
  partial : StepFile

-- The world of a start: the context, the file that it saves itself to, what the file system will do
-- to the coming saves (all is written once the list has ended), the clock, and all else.
pub record World (X : Type 0) : Type 0 where
  pub context : SetupContext
  pub open context use *
  pub file : StepFile
  pub writes : List Write
  pub clock : ℕ
  pub outside : X

module _ {X : Type 0} where
  abbrev save_as : Write → World X → Bool × World X
  save_as written w = (true, record w { file = holds w.state })
  save_as not_created w = (false, w)
  save_as cut_short w = (false, record w { file = partial })

  next_write : List Write → World X → Bool × World X
  next_write [] w = save_as written w
  next_write (o ∷ later) w = save_as o (record w { writes = later })

  pub save : World X → Bool × World X
  unfolding next_write
  save w = next_write w.writes w

  unfoldable pub put : (Dict → Dict) → World X → World X
  put f w = record w { context = record w.context { state = f w.state } }

module _ {X E : Type 0} where
  -- `true` stands for `Ok(())`; every caller only logs the error.
  unfoldable pub save_to_file : Program (World X) E Bool
  unfolding save
  save_to_file = act (λ w. (save w).1) (λ w. pure (save w).0)

  unfoldable pub set : Text → Text → Program (World X) E (Unit {0})
  unfolding put save_to_file
  set key value = do modify (put (insert key value)); save_to_file; pure tt

  unfoldable pub set_multi : List (Text × Text) → Program (World X) E (Unit {0})
  unfolding put save_to_file
  set_multi items = do modify (put (insert_all items)); save_to_file; pure tt

  unfoldable pub get : Text → Program (World X) E (Option Text)
  get key = gets (λ w. lookup key w.state)

  unfoldable pub get_keys_matching : (Text → Bool) → Program (World X) E (List Text)
  get_keys_matching test = gets (λ w. filter_keys test (keys w.state))

abbrev pub history_key : Text
history_key = codes "command_history"

abbrev pub or_empty : Option Text → Text
or_empty none = []
or_empty (some s) = s

abbrev pub longer_history : Text → Text → Text
longer_history [] command = command
longer_history (c ∷ s) command = (c ∷ s) ++ b'\n' ∷ command

-- Both writes of `save_command`, under one lock.
unfoldable pub record_command : Text → Text → Dict → Dict
record_command key command m =
    let m' = insert key command m in
    insert history_key (longer_history (or_empty (lookup history_key m')) command) m'

module _ {X E : Type 0} where
  unfoldable pub save_command : Text → Text → Program (World X) E (Unit {0})
  unfolding put save_to_file record_command
  save_command key command = do modify (put (record_command key command)); save_to_file; pure tt

  unfoldable pub get_command_history : Program (World X) E Text
  get_command_history = gets (λ w. or_empty (lookup history_key w.state))

module _ {X A : Type 0} where
  -- A method of the allocator, under its lock.
  with_allocator :
      (PortAllocator → Outcome PortError A × PortAllocator)
      → World X
      → Outcome PortError A × World X
  with_allocator m w =
      let (r, a) = m w.port_allocator in
      if w.allocator_poisoned then (panic, w) else (
        r,
        record w {
          context = record w.context {
            port_allocator = a;
            allocator_poisoned = elim r [ panic ↦ true | _ ↦ false ];
          };
        },
      )

module _ {X E : Type 0} where
  unfoldable pub allocate_port : Profile → (PortError → E) → Program (World X) E ℕ
  unfolding with_allocator
  allocate_port p of_port = map_error of_port (locked (with_allocator (allocate p)))

  unfoldable pub allocate_multiple_ports :
      Profile → (PortError → E) → ℕ → Program (World X) E (List ℕ)
  unfolding with_allocator
  allocate_multiple_ports p of_port count =
      map_error of_port (locked (with_allocator (allocate_multiple p count)))
