-- ===== src/Lib.antt =====
-- NodeLume: a server that watches machines, and the agent that runs on each of them.
--
-- The server (server/) keeps its persisted state in one JSON file, and beside it, in memory, what it
-- heard of each node: the last heartbeat, a ring of metrics, the queue of commands and the calls that
-- wait for an answer. Agents register with an enrollment token, sign every later request with the
-- secret that they are given, send heartbeats and take commands. Administrators log in with a
-- password. The agent (agent/) samples the machine and carries the commands out.
--
-- The files, and the code each models:
-- - Prelude and its children: names of the library, Boolean tests on numbers, integers, strings as
--   lists of bytes, Go maps keyed by strings as association lists, and the 64-bit wrap-around.
-- - Text: the functions of Go's `strings`, `bytes` and `strconv` that the program calls. Text.Number
--   parses and prints decimals, Text.Plain is on texts from which nothing is trimmed.
-- - Ring: `Ring` of server/main.go, with `new_ring`, `add`, `all`, `since` and `prune` for `NewRing`,
--   `Add`, `all`, `Since` and `Prune`. Ring.Contents says what list a ring holds, Ring.Spec and
--   Ring.History compare the operations with that list, Ring.Index has the arithmetic of positions.
-- - Version: `validVersion`, `compareVersion`, `validRepo`, `validAdminPath` and `shellQuote` of
--   server/main.go; Version.Order on the order of versions, Version.Shell on quoting: a
--   reader of single words of a POSIX shell, which gives up at every unquoted byte that a shell could
--   expand or interpret, and at an unquoted word that is empty.
-- - Server.State: the records of server/main.go, `PersistedState` and `App` first, and `auditLocked`.
-- - Server.RateLimit: `allowEnrollment` of server/final.go; Window on every window of a minute.
-- - Server.Auth: `authAgentDetailed` of server/auth_v101.go, split where its guards return; Nonces on
--   the store of nonces, Accept on what is accepted, Replay on sequences of requests, Skew on the
--   clock test.
-- - Server.Online: `nodeOfflineThreshold` and `nodeIsOnline` of server/final.go; Threshold on their
--   bounds.
-- - Server.Register: `agentRegister` of server/main.go, with the handler in Handler. Finish has the
--   effect of each step, Tokens, Receipts and Rotation what follows for one-time tokens, repeated
--   requests and the change of secrets.
-- - Server.Password: `passwordKey`, `makePassword` and `checkPassword` of server/main.go; Check on the
--   passwords that pass.
-- - Server.Session: `setupPassword`, `login`, `logout`, `getSession`, `requireAuth`,
--   `requireAuthCSRF` and `changePassword` of server/main.go. `login` takes the lock twice, and is
--   `login_begin` and `login_end` here. Steps has what one login changes, Ban is on sequences of them,
--   Access on sessions, Credentials on the password.
-- - Server.Nodes: `createNode`, `reenrollNode` and `deleteNode` of server/main.go, with the reusable
--   token of `setCommonEnrollment` in Common; Tokens and Removal say which tokens and requests still
--   pass. Edit is `editNode`, and Edit.Applied says what it leaves.
-- - Server.Maintenance: a tick of `maintenance` of server/main.go; Purge compares the handlers before
--   and after it, Histories is on the rings.
-- - Server.Heartbeat: `agentHeartbeat` of server/main.go; Online says what a heartbeat leaves behind.
-- - Server.Command: `sendCommand`, `agentCommands` and `agentResults` of server/main.go, as the steps
--   of the queue and the pending calls of a node. Events has their runs and the reachable states,
--   Order the order of the commands, Answers how a call gets its answer. Handlers has the handlers of
--   the administrator that send a command, cut where they wait.
-- - Release: the verification of signed releases on the server, `checksumFor`, `verifyReleaseBytes`
--   and `verifyReleaseFile` of server/release.go. An error stands for the check that failed, since the
--   two functions word some of them differently. Manifest is on the manifest of checksums, Accepts on
--   what is accepted. Release.Signed is `verifySignedFile` of agent/release.go, which has checks, a
--   loop and error texts of its own, and Signed.Agree compares the two.
-- - Agent.Files: the files that the agent changes, as an association list of contents.
-- - Agent.Upgrade: `performAgentUpgrade` and its helpers of agent/release.go; Install follows the old
--   binary, with the end of an installation in Done, and Verified is on a whole upgrade.
--   Agent.Upgrade.Rollback: `rollbackAgentBinary`, `commitAgentUpdate` and `agentRollbackWatchdog`;
--   Undone and Commit say what they leave, Cycle puts an installation and what follows it together.
-- - Agent.Helper: agent/helper.go. Args has the arguments that are hidden, Services the services and
--   processes that are protected, Process `readProcessDetail` and `captureRestart`, Store the file of
--   stopped processes, Start `startRecord` and `quoteShellArg`, Actions the stop and the restart of a process, and
--   Requests what the agent can ask, `handleHelperConn`. Each call of the system may fail, and what it
--   answers is an argument.
-- - Agent.Sign: `signRequest` of agent/main.go; Accepted puts it together with `authAgentDetailed`.
-- - Tests: runs of the code at small inputs. Tests.Data has a server with one node.
--
-- Conventions. A handler is a function from the state to the new state and the reply: but for
-- `login` it runs under the lock of the server, so an interleaving of requests is a list of them.
-- A time is a number of nanoseconds since 1970, read once for a request, and `unix` turns it into
-- seconds; the clock of the server is after 1970, while a number that a client sends keeps its
-- sign and its wrap-around at 64 bits. A Go map is an association list; the order in which Go
-- ranges over one is a parameter where it matters. The digests, the fresh ids, secrets and tokens,
-- the source address of a request and whether the state file could be saved are parameters or
-- arguments. Floats are values of a type `F` that the model never computes with. A request body
-- that does not decode is `none`, and a Go index panic too. Every function that models code is total
-- by structural recursion and needs no fuel; the shell that reads a recovery script takes a word a
-- round, and as many rounds as there are words are enough. On the side of the agent a call of the
-- system has an argument that says whether it works, and a file is its content. The functions of
-- `strings` and `strconv` are those of Go on the bytes that the program gives them; `ToLower` and
-- `EqualFold` know ASCII alone.
--
-- Not modelled: the log writer, the server's update status and requests for updates, settings and
-- addresses, the agent's main loop, its sampler and its configuration, and the ACME client. The
-- reading of /proc, the sockets and the restart of services are I/O. The web interface and the
-- shell scripts are in other languages, and tools/ are thin calls of a signature library.
pub mod Prelude
pub mod Text
pub mod Ring
pub mod Version
pub mod Release
pub mod Server
pub mod Agent
pub mod Tests
