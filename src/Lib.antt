-- ===== src/Lib.antt =====
-- This library models the native side of the DSH workspace plugin: the supervisor process, which
-- keeps the DSH runtime as a child, speaks a JSON line protocol with its host on the standard
-- input and output, and hands out controller leases on sessions; and the protocol crate that both
-- sides share.
--
-- The parts, and the files that model them:
--
-- crates/supervisor/src/lifecycle.rs, lease.rs, recovery.rs: the state machine of the child.
-- Lifecycle holds `LifecycleMachine` as a record and one function for each method; `apply`
-- returns the new machine and the effects that it asks for. Lifecycle/Events holds the data,
-- Lease and Recovery the two parts that the machine is built from. A run is a list of events
-- (Lifecycle/Traces). The process id and the clock, which `new` reads, are arguments.
--
-- crates/protocol/src/messages.rs: Protocol/Initialize, Session, Interaction and Envelope hold
-- the messages, Protocol/Negotiation holds `negotiate_initialize`. The build's contract hash is
-- an argument of `Envelope::new`.
--
-- crates/supervisor/src/supervisor.rs: Supervisor holds the configuration, the state and the
-- errors; Supervisor/Startup `new`, `initialize`, the startup transaction and its rollback;
-- Supervisor/Serve the supervisor's own frame loop. A method acts on a `World`: the supervisor,
-- the state of the operating system's processes, and the disk. The state's mutex is a flag that
-- says whether it is poisoned. Redaction holds `RedactionPolicy::redact_text`, Redaction/Policy
-- the other methods of the policy.
--
-- crates/supervisor/src/runtime.rs, sandbox_status.rs: Platform holds the platforms, their names,
-- their protocol form and the sandbox of each; Runtime the lock file and `RuntimeValidator`, with
-- serde and the path operations that follow links as the record `RuntimeTree`.
--
-- crates/supervisor/src/home.rs, credentials.rs: Home and Credentials, as they are built on Unix,
-- over the model of the disk. Text and bytes are the same; serde's document of credentials is the
-- record `CredentialFormat`.
--
-- crates/supervisor/src/process.rs: Process holds the Unix backend over the record `ProcessOs` of
-- what the operating system does, Process/Quoting how a Windows command line is written, and
-- Process/Quoting/Rules how such a line is divided again, from the documented rules and not from
-- the code.
--
-- crates/supervisor/src/main.rs: Driver. State has `StdioDriver` as a record; Frames the lines of
-- output; Leases `handle_acquire` and `handle_transfer`; Mutations the commands under a lease;
-- Ledger the interrupted turns in memory and on disk; Turns prompts, steering and coding turns;
-- Sessions the gates and the dispatch of session commands; Commands `handle_command`,
-- `handle_initialize` and `handle_shutdown`. Host and Resident have the resident host's commands
-- and their answers, Loop the main loop, whose input is a list of lines and read errors. A method
-- takes the driver and returns its result and the driver after it (Driver/Step); where a `?` ends
-- it early, the driver is as it stood there. The driver uses the supervisor component through the
-- record `SupervisorApi`, which Supervisor/Api fills, and which acts on the driver's disk; Entry
-- reads the configuration and runs the process from its start to its exit code. What is not in
-- the repository comes through the record `Environment`: serde_json and its derived formats, the
-- child process of a coding turn, which may change the disk, and `str::trim`.
--
-- crates/protocol/src/generate.rs: Generate holds the options of the generator, its check for
-- drift, and how it stages the generated files, puts them in place and takes that back;
-- Generate/Canonical the canonical form of the schema, Generate/Types and Generate/Names its
-- TypeScript declarations. What is in place is kept as a list of files, the last one first, where
-- the code keeps their indices. The hook that tests hang in before each replacement is a function
-- of the index and the path.
--
-- Files models `std::fs` as texts by path with a schedule that says of each operation to come
-- whether it works, fails, or, for a write or a removal of a directory, leaves something else
-- behind. An operation takes the disk and returns its result and the disk after it; the same
-- shape serves for other states (`Act`). Ordered models `BTreeMap` and `BTreeSet` as rising
-- lists, Paths the operations on paths, Json the values of serde_json, Words the saturating
-- arithmetic and `Duration` in nanoseconds, Prelude what all files share.
--
-- Numbers: u64 and u16 are natural numbers; where the code saturates or wraps, so does the model
-- (`saturating_add`, `saturating_mul`, `% 2 ^ 64` for the count of leases). The two loops of
-- `redact_text` run on fuel, one more than the length of the text; each round makes the text's
-- unredacted part shorter, so the fuel does not run out. The wait for the end of a process tree
-- takes as fuel the time that is left and one more. The rules for command lines take the length
-- of the line and one more, since each argument takes a character. `ts_type` calls itself on
-- parts of a schema, and on a new node for each element of a list of types; its fuel is the
-- number of the schema's nodes and one, and what it answers without fuel is an argument.
--
-- Not modelled: the Windows backend of process.rs (calls of Win32) and the Windows builds of
-- home.rs and credentials.rs, errors of writing to the standard output, of the generator the
-- writer's lock, the directory for staging, the derived schema and build.rs, the `Debug` forms,
-- `SecretValue`, `ClientValidation` and the TypeScript packages. The driver has no copy of the
-- redaction policy: `redact_text` reads none of its fields. The line on the standard error about
-- a corrupt ledger is left out.
mod Prelude
pub mod Words
pub mod Lease
pub mod Recovery
pub mod Lifecycle
pub mod Ordered
pub mod Json
pub mod Protocol
pub mod Redaction
pub mod Platform
pub mod Files
pub mod Home
pub mod Generate
pub mod Supervisor
pub mod Process
pub mod Credentials
pub mod Runtime
pub mod Paths
pub mod Driver
