-- ===== src/Lib.antt =====
-- A verification library of the VAX-BBS server: sessions, the PHONE facility and the account store.
--
-- The program is an SSH bulletin board. Each connection is a session of an account. The registry
-- (internal/registry/registry.go) knows the sessions and has a bounded event buffer for each. The call
-- table of PHONE (internal/phone/call.go) rings an account's sessions through the registry, connects the
-- one that answers, and carries what the participants type; its screen divides the terminal into
-- viewports (internal/phone/layout.go). The store (internal/store) keeps accounts, invite codes and plan
-- texts in SQLite.
--
-- Which file models which part:
-- - Registry/State: the registry with its two indexes and the session objects that both point to;
--   register, unregister, send_to_session and the others are the methods of the same name. Registry/Event
--   has the events, Registry/Decimal prints session ids. Registry/Lockstep says when the two indexes
--   agree; Registry/Arrivals, Registry/Departures and Registry/Histories are about the methods that change
--   them, and Registry/Delivery about sends.
-- - Phone/Calls/State: the call table, with channels as handles into a list of the open ones, so that a
--   close or a send on a closed channel is a panic of the model (none). Phone/Calls/Admission has Dial and
--   what admits it, Phone/Calls/Answering has Answer and Reject, Phone/Calls/Leaving has Hangup,
--   HangupSession and ReapUnreachableRings, Phone/Calls/Inviting has Add, CancelAdd and BroadcastChar.
--   Phone/Calls/Invariant says when a table is sound; Phone/Calls/Keeps has a file for each kind of
--   operation, Phone/Calls/Histories their sequences, Phone/Calls/Outcomes what single operations achieve,
--   Phone/Calls/Engaged and Phone/Calls/Refusals what admission and its errors mean, Phone/Calls/Reaching whom a ring reaches, and
--   Phone/Calls/Sends and Phone/Calls/Telling whom a reap tells.
-- - Phone/Screen is the screen program (internal/phone/app.go): Model has its state, Events the phone
--   events, characters and timers, Actions and Commands what the commands do, Keys the keys and Update,
--   View the lines on the screen. Coherence says when the fields of a screen agree; Receiving, Commanding,
--   Typing and Keyboard are about single messages, Together about several screens over one call table,
--   Connecting about a DIAL and its ANSWER,
--   Seen and Mirror about what the others see of the typing, Filters about events of other calls, Rows
--   about the height of the view. What a handler returns to Bubble Tea is a list of effects.
-- - Phone/Layout is Compute, and Phone/Viewport is ViewportText with Append and DisplayLines.
-- - Store/Schema has the rows and the SQL statements, Store/Accounts the methods on accounts,
--   Store/Invites those on invite codes, Store/Plan the plan text and StripANSI. Store/Rows counts rows;
--   Store/Admins, Store/Standing, Store/Histories and Store/LastAdmin are about the last usable admin,
--   Store/Redemption, Store/Bans and Store/Lockout about single methods.
-- - Registration is the dialogue of new accounts (internal/registration/app.go): Model has its steps and
--   checks, Submit has Update, submit and finalise, Screen the view. Pending is about what the calls of the
--   store do to its tables, Codes about invite codes, Checks and Names about the rows that are added.
-- - Server is cmd/server/main.go: Login has the password handlers, Bootstrap bootstrapAdminAccount, Sessions
--   the start and end of a session over the registry and the call table. Entry is about who may log in,
--   Recovery about the bootstrap.
-- - Passwords is the change of a password (internal/setpassword): Dialogue has Update, submit
--   and finalise; Proofs is about when the current password is proven, Changes about the stored hashes,
--   Completion about the dialogue that does not ask for it; Forced is the change of an expired password and
--   Screen the views.
-- - Lobby is the abbreviation of commands (internal/lobby/abbrev.go): Trie and Abbrev have its
--   definitions; Roles is about computeUserVisible, Pruning, Open and Scope about what the role leaves.
--
-- How the state corresponds: every method of the call table holds its mutex for its whole body, so it is
-- one step, and an interleaving is a list of steps; the tick of a ring's goroutine is a step that may come
-- at any time. The methods of the registry hold its mutex for their whole bodies too, but for two:
-- SendToSession offers its event after the mutex is released, and Kick calls the hooks then. Each is one step
-- here all the same; what may come between the lookup and the offer (an unregistration, another offer) is
-- not modelled. The start and the end of a session are several locked steps in the source, and the registration
-- makes several calls of the store; Server/Sessions and Registration/Submit take each as one step, with
-- nothing in between. A method of the store is one SQL statement or one transaction, and the
-- tables are lists of rows. Stored times are whole seconds since 1970, and the clock is read in
-- nanoseconds. A map of Go is an association list, so that the order of its iteration is one of the orders
-- that Go allows. Loops are structural recursion; there is no fuel. The remaining uses
-- of an invite code are a number of ℕ, where the source has an int: it starts at the number of the caller and
-- goes down only while it is positive. ValidateInvite and ValidateAndConsumeInvite each write out the same
-- tests of a code; they are one definition here.
--
-- Parameters: the folding that strings.EqualFold compares by, unicode.IsPrint, strings.TrimSpace,
-- strings.ToUpper and ToLower, unicode.IsLetter and IsDigit, the hash function and the check of a password against a hash, the printed time and
-- day, the terminal's inverse video, and whether the connection that serves a store call enforces
-- foreign keys. The clock does not run backwards.
--
-- Not modelled: the other screens and their key handling (the rest of internal/lobby, internal/setplan,
-- internal/createuser), the rest of the server and the hashing of passwords (cmd, internal/auth),
-- which are I/O and user interface; the diagnostic log; failures of the database itself; and the
-- methods that only list rows or sessions for display.
mod Prelude
pub mod Dict
pub mod Registry
pub mod Phone
pub mod Store
pub mod Registration
pub mod Server
pub mod Lobby
pub mod Passwords
mod Tests
