-- ===== src/Lib.antt =====
-- easyJob runs tasks of a desktop user at the times that their triggers name. An agent process
-- holds the program: the scheduler decides when a trigger is due and sends an event, the agent's
-- dispatcher turns the event into an execution of the task's actions, and clients ask over a local
-- socket for the same by hand. The parts and the files that model them:
--
-- Domain (crates/domain/src): the data of tasks, triggers, actions, policies and executions, in
-- Domain/Trigger, Domain/Task, Domain/Policy and Domain/Execution. An id is a number, a point in
-- time its distance in nanoseconds from chrono's earliest, a `u64` a number below 2^64.
--
-- Scheduler/Queue (crates/scheduler/src/queue.rs): the binary heap of what is due, with a
-- generation for each task that makes old items stale. The heap is the list of its items in the
-- order of `pop`. The functions bear the source's names; Queue/Order, Queue/Pop, Queue/Overview,
-- Queue/Contents and Queue/Tracking hold their theorems.
--
-- Scheduler/Evaluator (crates/scheduler/src/evaluator.rs): the next occurrence of a trigger. The
-- time zones, the calendar and the cron engine are the parameter `Calendar` of Scheduler/Calendar,
-- whose laws state what chrono documents of its arithmetic. The bounded loops of the source (4, 8,
-- 14 and 240 rounds) count their rounds down in the same numbers. Numbers of seconds are `i64` and
-- wrap as they do in a release build. Evaluator/Cron is the lexical check of cron expressions;
-- Evaluator/Interval and Evaluator/Future hold the theorems.
--
-- Scheduler/Loop and Scheduler/Reroll (crates/scheduler/src/scheduler.rs): the loop of
-- `Scheduler::run`. A turn takes one arm of the `select!`, named by an `Input` that carries what
-- the arm reads from outside: the evaluations and the clocks. `run` is the loop over a list of
-- inputs, and a panic of an evaluation ends it. Loop/Coverage and Loop/Arms are about the invariant
-- and each arm, Loop/Runs, and Loop/Safety about runs, Loop/Liveness about `add_task`,
-- Reroll/Others about what a reroll leaves alone. Generations are `u64` and wrap, so the theorems
-- on runs bound the number of inputs by 2^64.
--
-- Executor/Manager (crates/executor/src/manager.rs): the running counts behind the mutex.
-- Manager/Slots and Manager/Limits hold its theorems.
--
-- Agent/Run and Agent/Executions (apps/agent/src/service.rs): the data of the executions with the
-- loop over the actions, and the dispatcher, `task.trigger_now`, `execution.cancel` and the spawned
-- executions, as steps from one shared object that they use to the next: a run is an admission that
-- holds a permit, and then the execution it becomes. Executions/Steps is the relation of one step
-- of any of them, so that a sequence of steps is an interleaving of all. tokio's semaphore is the
-- parameter of Agent/Semaphore. Executions/Outcome is about the loop over the actions alone,
-- Executions/Holding and Executions/Balance about permits and slots, Executions/Active and
-- Executions/Tokens about the cancellable executions. What the repositories, the clock and the
-- processes answer is an argument of the operation that asks.
--
-- Agent/Network (apps/agent/src/network.rs): network events, whether they match a trigger, the edge
-- detector and the debouncer; Network/Probe is the online probe and Network/Watcher what the
-- callbacks of macOS and Windows do to their state. An arbitration that finds its edge outdated
-- after the settling time is left out, since a counter that has moved on stays so and the second
-- test stops it as well. Network/Dispatch, Network/Edges and Network/Arbitration hold the theorems.
--
-- Agent/Handler (apps/agent/src/service.rs): the requests of clients. Handler holds a function for
-- each method, Handler/Requests the match on the methods, Handler/Values the parameter `Serde` for
-- what the handler uses of serde_json. Handler/Failures is about requests that are answered with an
-- error, Handler/Words, Handler/Announcements and Handler/Overlap about what the scheduler is told
-- while requests overlap: a change of the tasks has two steps, the database and the command. The
-- repositories are the records of Persistence/Interface, which Persistence/Sqlite fills.
-- `task.trigger_now` and `execution.cancel` are an argument there, since Agent/Executions models
-- them. Agent/Retention is the purge that ends each execution.
--
-- Executor/Runner (crates/executor/src/runner.rs): one action as a child process, with the capped
-- reading of its outputs; Runner/Output holds the theorem. What the process and its pipes do is an
-- argument. The loops over chunks and rows are structural recursion.
--
-- Persistence (crates/persistence/src, migrations/20260911000000_init_schema.sql): Tables has the
-- rows, keys and references of the database, Tasks, Runs and Settings the statements of the
-- repositories in task_repo.rs, execution_repo.rs with recovery.rs, and settings_repo.rs. The texts
-- of JSON are the parameter `Codec` of Persistence/Codec. A table is a list of rows in the order of
-- insertion; a statement fails where a key is taken or a reference is missing, and a transaction
-- that fails is rolled back. A version beyond `i64` is a floating-point number in SQLite, and where
-- `row.get` panics on it the model has an error of its own. Tasks/Saving, Tasks/Commit,
-- Tasks/RoundTrip, Tasks/Frame and Tasks/Success are about saving and finding, Tasks/Listing about
-- the enabled tasks, Tasks/Refinement about the repository as a map of tasks, Runs/Records,
-- Runs/Latest and Runs/Cleanup about runs, References and Integrity about the references between
-- the tables. Sample has a codec and tasks for the tests.
--
-- Ipc (crates/ipc/src): Protocol has the requests and responses, Client the calls of a client that
-- wait for their responses (client.rs), Server the connections and the broadcast of events
-- (server.rs). Client/Steps is the relation of one step of a client, so that a sequence of steps is
-- an interleaving of its calls, its reader and the clock; Client/Changes, Client/Entries and
-- Client/Pairing hold its theorem, Server/Broadcast those of the server. A broadcast is one step.
--
-- Desktop/AgentManager (apps/desktop/src-tauri/src/agent_manager.rs): the connection of the desktop
-- to the agent, with the number of agents it has started and of requests it has sent.
-- AgentManager/Spawning holds the theorem. The 15 tries count down. Desktop/Startup
-- (apps/desktop/src-tauri/src/startup.rs) is the Base64 encoder; Startup/RoundTrip has a decoder
-- after RFC 4648.
--
-- Platform/Startup (crates/platform/src/startup.rs): the command lines, scripts and the property
-- list that install and remove the service, as lists of code points. Startup/Quoting has the
-- readers of the shells, of a word in POSIX and of a text in single quotes in PowerShell, and what
-- they make of quoted texts.
--
-- Common/Error (crates/common/src/error.rs): the errors and their texts.
--
-- Not modelled: failures of the database's connection and of its files, the sockets, pipes and
-- permissions of crates/ipc, the calls of the operating system in crates/platform and its parsing
-- of the service's state, the start-up code of the agent, and of the desktop application the
-- commands, the queries of the service, the tray and the notifications.
pub mod Prelude
pub mod Desktop
pub mod Domain
pub mod Scheduler
pub mod Executor
pub mod Agent
pub mod Common
pub mod Ipc
pub mod Persistence
pub mod Platform
