-- ===== src/Lib.antt =====
-- foc-devnet starts a local Filecoin network in Docker containers. This library models the parts of
-- the program that decide: which ports a run uses, which sources it builds, in which order and in
-- which threads the steps of a start run, what they share, and what a failed command leaves behind.
-- It also models four of the steps, which fund the accounts, distribute tokens to them, and register
-- and endorse the storage providers, the networks of a run, the start as a whole and the command
-- that stops it. The work of the other steps, done by Docker, Lotus, Curio and Foundry, stands
-- behind the `Step` interface as a parameter.
--
-- How the parts interact: `main` (src/main.rs) takes up the poison file of an unfinished command and
-- calls a handler, which writes a fresh one. A start reads the configuration (src/config.rs), which
-- `init` wrote (src/commands/init/config.rs), checks its port range (src/port_allocator.rs), and
-- runs the steps of a plan (src/commands/start/mod.rs) one after the other or in epochs of threads
-- (src/commands/start/step/mod.rs). The steps share a context: a dictionary that is saved to a file
-- on each change, and the port allocator. The step of the registration leaves each provider's ID and
-- approval there, and the step of the endorsement reads them. A stop takes the names of the
-- containers and networks from the run ID. Validations are tried again (src/utils/retry.rs).
--
-- Base holds the Boolean tests on the native numbers, the lists, the results of calls (`Outcome`: a
-- value, an error or a panic) and the state monad of methods that mutate an object (`Exec`). Words
-- is the arithmetic on `u16` and `u64`: a debug build panics on overflow and a release build wraps
-- around. Text is the code points of a string with the operations that the program uses. Dict is the
-- dictionary of the context, an association list. Program is code that threads run against a shared
-- object: a sequence of atomic actions, one for each lock taken, and the interleavings of several
-- threads as an inductive family; Program.Loops and Program.Catch are the loops of such code and its
-- `match` on a result; Program.Threads is the spawning and joining of threads that push their errors
-- to one vector. Paths is src/paths.rs as far as it is used.
--
-- Ports models src/port_allocator.rs, a function per method, the set of allocated ports as a list.
-- Ports.Availability is `verify_all_ports_available`; the socket that is bound is a parameter.
-- `format_port_list` is not modelled. Location models `Location` of src/config.rs; what `git ls-
-- remote` prints is a parameter. Config models `Config` there and src/commands/init/config.rs; the
-- TOML reader and writer are parameters. Context models `SetupContext` of
-- src/commands/start/step/mod.rs: each save consumes one outcome of the file system from a list.
-- Steps models the executors of the same file; a parallel epoch and all that contains one is a
-- relation between the world before, the world behind and the result. `Instant` is a clock in the
-- world. Plan models `create_steps` and `create_step_epochs` of src/commands/start/mod.rs. Retry
-- models src/utils/retry.rs. Poison models src/poison.rs, src/main.rs and
-- src/main_app/command_handlers.rs; the commands that the handlers call are parameters there.
-- Containers models the names of src/docker/containers.rs and the list of a stop in
-- src/commands/stop.rs.
--
-- Shell models src/docker/core.rs, with the commands that a step logs (src/docker/command_logger.rs)
-- in Shell.Log, and src/docker/logs.rs and src/docker/portainer.rs in Shell.Containers. Starting a
-- program is the parameter `launch`, a function of the program, its arguments and the world. Network
-- models src/docker/network.rs, and Stop models src/commands/stop.rs with the file of the run ID
-- from src/run_id/persistence.rs. RunId models the reservation of a run ID of src/run_id/mod.rs.
-- Cluster models `start_cluster` of src/commands/start/mod.rs: the files that a start writes about
-- its run (src/run_id, src/version_info.rs), the teardown with the logs of src/docker/logs.rs, and
-- the start itself, a relation since its steps may run in threads; the genesis prerequisites, the
-- bodies of the steps and the export are parameters there. What Docker documents of its networks and
-- containers is stated by the records Network.Laws.Networks and Stop.Laws.Containers, about a view
-- of the world that tells which of them are there. Host gathers what a step asks of the machine:
-- programs, files, serde and hex; Host.Files and Host.Chain are the files and the commands that the
-- two steps share. Pdp models src/commands/start/pdp_service_provider and Endorsement
-- src/commands/start/endorsement, a program for each phase of the step. Funding models
-- src/commands/start/eth_acc_funding with src/commands/start/lotus_utils/account_readiness.rs; where
-- threads are spawned, a phase of the step is a relation, over every order of the actions of the
-- threads. Tokens models src/commands/start/usdfc_funding, where the threads run in batches of six,
-- with the bind mounts of src/docker/mounts.rs in Host.Mounts. A sleep is time that passes on the
-- clock of the world; the pauses of a fifth of a second between the threads of a batch are left out,
-- since the relation lets a thread start at any time. Clean models src/commands/clean.rs; the file
-- system is a parameter of it.
--
-- Loops are structural recursions on the number of rounds that the source allows, so no fuel is
-- chosen. The exception is the loop that reserves a run ID, which the source does not bound: it runs
-- on a number of attempts, and any number above the first attempt whose directory is free is enough.
-- The regular expressions are functions by clauses; which characters their class of digits takes is
-- a parameter. Error messages are constructors that carry the values the message shows; log lines
-- are left out.
--
-- Not modelled: the bodies of the other steps, the Docker, Foundry and Lotus commands themselves,
-- the status and requirements commands, the words of run IDs, the generation of keys, the building
-- of images and the export of the network's description.
pub mod Base
pub mod Words
pub mod Program
pub mod Text
pub mod Ports
pub mod Location
pub mod Config
pub mod Dict
pub mod Context
pub mod Steps
pub mod Retry
pub mod Plan
pub mod Shell
pub mod Network
pub mod Paths
pub mod Host
pub mod Pdp
pub mod Endorsement
pub mod Stop
pub mod Clean
pub mod Cluster
pub mod Funding
pub mod RunId
pub mod Poison
pub mod Containers
pub mod Tokens
