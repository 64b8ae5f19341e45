-- ===== src/Lib.antt =====
-- goharness runs agents on top of a language model. This library is about the parts that decide
-- what a session remembers, what is sent to the model, and what a tool may touch.
--
-- The package session keeps one conversation: the whole history, a cursor into it, and the store
-- that persists both. The messages from the cursor on are the window that goes to the model;
-- compaction moves the cursor. The package agents repairs a window whose tool calls are not
-- answered, with the session's own Truncate and Append. The package sandbox judges the paths that
-- tools read and write; a session's grants come to it as extra directories. Where a tool needs
-- the user's permission, the package agents asks, waits, routes the answer and runs or refuses
-- the call. The tools keep a table of the files that were read, so that none is overwritten that
-- has changed since; the edit tool replaces a text in a file and reports a line diff.
--
-- - Prelude: lists, texts (lists of code points), integers and tests that all parts share.
-- - Session.Message, Session.Store, Session.State (session/message.go, session/session_types.go,
--   session/session.go): messages, the interface SessionStore as a record that the operations take
--   as a parameter, with what its comments promise in StoreLaws, the struct Session, New, Load,
--   ensureLoaded, Restore, All, Current and Cursor.
-- - Session.Append, Session.Rounds, Session.Truncate (session/session.go): Append, GetRound,
--   DeleteRound, findMessageIndexByTimestamp, Truncate and Reset. Session.Error has one constructor
--   for each error that they return.
-- - Session.Pending (session/session.go, session/perm.go, session/pending_ask.go,
--   session/session_wait.go): what waits for the user, in memory and in the sidecar files; a file
--   is its decoded content.
-- - Session.Whitelist (session/whitelist.go): the whitelist in the cache and in its file.
-- - Session.Sanitize, Session.Compaction (session/compaction.go): the cleaning of a window and
--   the compaction, with the calls of the handlers and of the sink as a list of events. The token
--   estimate of a text, a sum of floats, is a parameter.
-- - Session.Disk, Session.Modify (session/file_modify.go): the modified files with their backups,
--   on a map from paths to contents.
-- - Session.Laws: what these operations guarantee, one module for each.
-- - Agents.Pairing (agents/pairing_repair.go): the scan for a break, the repair, and what becomes
--   of pending questions. The scan runs on fuel, the length of the window, which is enough. Spec
--   says what a paired window is, and Scan, Cut, Repair and Invalidate prove the code against it.
-- - Sandbox.Host: os.Stat, filepath.EvalSymlinks and the case table above ASCII, a parameter.
--   Sandbox.Path: filepath.Clean, Base and Split on Unix, and pathWithinDir. Sandbox.Glob:
--   matchGlob with the regular expression that it writes, a parser and a matcher for such
--   expressions, and its cache. Sandbox.Decision, Sandbox.Policy (sandbox/decision.go,
--   sandbox/guide.go, sandbox/policy.go): the policy and its compilation; a reason is the guide
--   function with its arguments. Sandbox.File (sandbox/file_checker.go): CheckFile,
--   CheckFileAllowOrDeny, EnforceFile and EnforceFileWithWhitelist. Sandbox.State
--   (sandbox/sandbox.go): NewSandbox and UpdatePolicy.
-- - Sandbox.Net: url.Parse, net.ParseIP, the name service and strings.EqualFold, a parameter.
--   Sandbox.Url (sandbox/url_checker.go): CheckURL and EnforceURLWithWhitelist. Sandbox.Extract
--   (sandbox/url_checker.go): the URLs in a command. Sandbox.Command (sandbox/command_checker.go):
--   CheckCommand; its loop over leading assignments runs on fuel, one more than the length of the
--   text, which is enough.
-- - Tools.StaleState (tools/filestate/stale_state.go): SetStale, CheckStale and DeleteStale on
--   the table of read states, with its counter.
-- - Agents.ToolRun (agents/permission.go, agents/tools_helpers.go, agents/loop_helpers.go,
--   hooks/hooks.go): a call with the chains of hooks before and behind it. Agents.Waits
--   (agents/subagent.go): the table of waiting sub-sessions and the routing of an answer; a channel
--   holds one signal. Agents.Permission (agents/permission.go): Request asks, in order, for the
--   first call that is refused, and lets a sub-session wait; Resolve reads the user's answer; Entry
--   says what a grant for the session adds. Runs, Answered, Asks and Laws are about which calls run
--   and what becomes of them. Agents.Pool (agents/subagent.go): the map of the sessions of
--   sub-agents and their claims, with Steps for dispatches in any order; the map is a list.
--   Agents.Submit (agents/subagent.go): how a task is accepted, the anchors of failed tasks and the
--   limit on runs that were cut off.
-- - Tools.Params (tools/bash.go, tools/utils.go): parameters and paths. Tools.MagicWord
--   (tools/permission_required.go): the answers of the user. Tools.Strings: Index, Count and
--   Replace of the package strings. Tools.Lines (tools/meta.go): texts as lines.
-- - Tools.Diff (tools/diffutil/diff.go): computeLCS, GenerateDiff and the text of a diff. An
--   index out of range and a loop that would not end are the result none. Describes says what hunks
--   mean. Tools.Edit (tools/edit.go): findEditMatch, performEdit, Grant and Execute, on the disk of
--   Session.Disk and the table of Tools.StaleState.
-- - Examples: the theorems at concrete sessions and policies.
--
-- The methods of a session hold its locks, so each is one step on its state, and a slice that is
-- copied is the same list. Machine integers stay far below their bounds here (indices, counts,
-- timestamps), so they are natural numbers, with the integers where an argument may be negative.
-- Texts are taken as valid UTF-8. Times are given to an operation as an argument.
--
-- Not modelled: logging, the setters of handlers, prices, JSON as text, the default policy of the
-- sandbox, the usage records of a session, the runs of sub-sessions, the loop around a model, and
-- the packages that talk to models, networks, processes or terminals.
pub mod Prelude
pub mod Session
pub mod Agents
pub mod Sandbox
pub mod Tools
pub mod Examples
