-- ===== src/Lib.antt =====
-- A model of the parts of ManusClaw that decide what its agents may do next, with proofs.
--
-- The program's agents emit events, which the stuck detector watches (app/conversation). Before a
-- tool runs, its action is assessed by security analyzers and put before a confirmation policy
-- (app/security), and its declared resources are locked (app/parallel_executor). Conversations are
-- serialised by two FIFO locks and stopped by a cancellation token (app/conversation). A router
-- sends each message to an agent and caches the agents of sessions (app/agent). What a language
-- model sees of a conversation is a view of its events, from which condensers remove (app/context).
-- Hooks may deny a step or change a prompt (app/hooks). A queue keeps the tasks that workers run in
-- the background (app/task_queue.py). A gate decides which tool calls need approval
-- (app/permissions), and pools rotate the API keys of providers (app/llm).
--
-- Prelude: Boolean tests, the conditional, list functions, texts and Python's dict, with lemmas.
-- StuckDetector: app/conversation/stuck_detector.py. Events has the helpers on events, Pairs the two
--   pairing loops with a one-pass reference, Checks the five checks and `analyze`; Termination and
--   Verdicts have the proofs. A position in the history is the suffix behind it. Fuel counts the
--   rounds of a `while`, and as many rounds as the window has events are enough whenever the loop
--   ends at all. `digest` stands for hashlib's MD5. Confidences are in hundredths, and the texts of a
--   report for people (`detail`, `suggestion`) are left out.
-- FifoLock: app/conversation/fifo_lock.py. AsyncLock has `AsyncFIFOLock` and a step relation of the
--   tasks of one event loop, with cancellation; ThreadLock has `FIFOLock` and a step relation of
--   threads, each block under the internal lock being one step.
-- ResourceLock: app/parallel_executor. Declared has declared_resources.py, where a frozen set is the
--   list in its order of iteration; RwLock has `_ResourceRWLock`, with a step relation of threads in
--   its child Threads; Manager has `ResourceLockManager`. What other threads do while one waits is an
--   argument, the states in which it finds the lock. The retry count is the fuel of the outer loop,
--   as in the source.
-- AgentRouter: app/agent/router.py. Registry has the cache of agents, Routes the rules, Router the
--   way from a message to its agent. `search` stands for re.search, `load` for the import of a class
--   and its call.
-- Security: app/security/base.py, ensemble.py, policy_rails.py and confirmation_policy.py. An analyzer
--   is its name and a function to what its `analyze` does, exceptions included. `redact` stands for
--   the substitution of secrets by a regular expression, and a rail's patterns are tests on texts.
-- Cancellation: app/conversation/cancellation_token.py. Token has the operations, Threads the step
--   relation in which each assignment of `cancel` is a step, as the properties are read without the
--   lock; Settled has the invariant.
-- Context: app/context. Events, Batches, Uniqueness, Matching and Loops have the classes of
--   view_properties.py, View has view.py, Rolling has condenser/rolling.py with what it uses of
--   condenser/base.py. A set of texts or positions is the list of what was added to it, and a key
--   that a tool call may lack is an option. A method that fills the cache returns the view as well.
-- Hooks: app/hooks/types.py, base.py and manager.py. A hook's `on_event` is a function to its reply,
--   which is a result, a value of another type, a timeout or an exception.
-- TaskQueue: app/task_queue.py. The table of tasks is a dict by primary key, and each SQL query of
--   the source is a function on it. A worker's run of a task is a start and an end, between which
--   other methods may act. `submit` in Queue is a call that no other overlaps, and
--   Submission/Overlap has the steps of calls that do, from await to await; each other method that
--   loads and saves is one step. `hash` stands for SHA-256.
-- Permissions: app/permissions/gate.py. `search` stands for `re.search`, `digest` for SHA-256 and
--   `show_args` for the text of the sorted arguments, which are texts.
-- Credentials: app/llm/credential_pool.py. A credential is its position in its pool.
-- Conversation: app/conversation/state.py. Texts are redacted as lists of code points.
-- FileStore: app/file_store/memory.py. `encode` stands for UTF-8, `tag` for the text of a hash.
-- Each component has runs on concrete inputs in its child Tests.
--
-- Not modelled: clocks other than as numbers of ticks, backoff sleeps, logging, the YAML
-- configuration of the router, the tool executor, the condensers that ask a language model, built-in
-- hooks, and the program's other parts (the event log, LLM clients, secrets, other file stores,
-- schedules and plans, memory, tools, messaging, servers, integrations), which are I/O, calls of
-- third-party libraries or parts of their own.
pub mod Prelude
pub mod StuckDetector
pub mod FifoLock
pub mod ResourceLock
pub mod AgentRouter
pub mod Security
pub mod Cancellation
pub mod Context
pub mod Hooks
pub mod TaskQueue
pub mod Permissions
pub mod Credentials
pub mod FileStore
pub mod Conversation
