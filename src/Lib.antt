-- ===== src/Lib.antt =====
-- aliangboard: a board over Kubernetes clusters. This library models the parts of its server that
-- decide who may do what, and how long (the code under server/), and checks of its frontend (src/).
--
-- Parts and files
--   Base        shared names, Boolean tests, lists, maps and texts over the native numbers
--   Kube        server/kind-paths.mjs (Kube/Kinds) and server/k8s-path.mjs (Kube/ApiPath): paths of
--               the Kubernetes API made from the table of kinds, and read back; the names of kinds,
--               server/kindAlias.mjs (Kube/Alias); what the code uses of `encodeURIComponent` is in
--               Kube/Encode
--   Access      server/authz.mjs (Access/Levels, Access/Grants, Access/Tools), server/k8s-gate.mjs
--               (Access/Gate), `resolveApplyNamespace` and `applyDocNamespaces` of
--               server/apply-yaml.mjs and server/session-guard.mjs (Access/Tools), over the tables of
--               Access/Store, which server/index.mjs creates
--   Policy      server/authorize.mjs: the tools and the namespaces of an API key
--   Sessions    server/platform-session-reaper.mjs (Sessions/Reaper), server/session-revoke.mjs
--               (Sessions/Revoke), server/session-touch.mjs (Sessions/Store) and
--               server/window-records.mjs: tombstones (Sessions/Store), windows (Sessions/Windows)
--   Retry       server/llm-retry.mjs: the ladder of retries around a call of the model
--   Terminal    server/ssh/reap-policy.mjs, the probe of sockets of server/ssh/terminal-wire.mjs, and
--               server/ssh/terminal-service.mjs: the ring of output (Terminal/Ring), one terminal with
--               its statuses and operations (Terminal/Service, Operations and Sweep in it), the calls
--               it may get (Calls), and the map of all terminals (Registry)
--   Mounts      src/logic/volumeMountValidation.js of the frontend: the rules on an entry (Rules) and
--               across entries (Across), the keys of messages (Keys), what is generated (Generate)
--   References  server/refs-normalize.mjs: the references of a message, without the note on the stale
--               ones and the clamp of a resource
--   Passwords   server/password-policy.mjs
--   Jobs        server/ssh/job-policy.mjs
--   Commands    server/ssh/readonly-classifier.mjs: the commands that only read, and the quoting of
--               a command (the regular expressions are functions on texts, in Commands/Words)
--   Scenarios   the theorems at concrete inputs
--
-- A request to a cluster goes through `parseApiPath`, then `gateParsedPath` and `gateK8sSession`, whose
-- statements query the tables of Access/Store; a tool of the workbench goes through the checks of
-- `wbToolGate`; a call by API key goes through `withPolicy`. The session itself lives in the maps and
-- the tables of Sessions/Store until it expires, is evicted or is revoked.
--
-- Correspondence
--   A function keeps its name in snake case: `gateK8sSession` is `gate_k8s_session`. Tables are lists
--   of rows and a `SELECT` is the rows that meet its condition, in the list's order; the gate alone
--   is stated for statements that may also throw (Access/Gate, `Stmts`), with what it writes to the
--   audit log as part of its result. A `Map` is an association list and a `Set` the list of its
--   elements in the order of their insertion. A missing text is the empty text where the code
--   treats the two alike, else `Option`. An exception is a constructor of the result: `refused`,
--   `rejected`, `permission_denied`. A value in JSON is held by what `JSON.parse` makes of it.
--   Loops are structural recursion on what they go through; only the sliced wait of Retry runs on
--   fuel, the wait itself in milliseconds, which is enough since a slice takes at least one. Times are natural
--   numbers of milliseconds, and a test on a difference of two is written as one on a sum.
--
--   A terminal is one object that several callers hold: an operation is a function from the terminal
--   to the terminal and what it did outside (closed sockets, released handles, callbacks), and the
--   interleavings are the lists of `TerminalCall`. `attach` awaits the creation, so it is two calls,
--   and any call may come between them.
--
-- Not modelled
--   SQLite, HTTP, WebSockets, SSH and the requests to clusters and models are I/O. The removal and
--   revocation of sessions is modelled where no statement throws; `decodeURIComponent` only on
--   texts without `%`, the only ones that reach it. Of the terminal service, `setLabel` and
--   `broadcast` are left out, and callbacks that call the service again while it runs; of the
--   volumes, the text of the YAML. The tables of kinds have their own keys only, not what a
--   JavaScript object inherits (`constructor`). Whether the retries are to stop (`shouldAbort`) is
--   asked of the time waited so far, so an answer that changes while a call of the model runs is
--   not represented. The other services of the server and the rest of the frontend are not
--   modelled.
pub mod Base
pub mod Kube
pub mod Access
pub mod Policy
pub mod Sessions
pub mod Retry
pub mod Terminal
pub mod Mounts
pub mod References
pub mod Passwords
pub mod Jobs
pub mod Commands
pub mod Scenarios
