-- ===== src/Lib.antt =====
-- Work tracker: the packets, their event log and the components that write to it.
--
-- A packet is a frozen scope with an append-only history. Authors edit drafts in a workspace; a
-- complete draft is issued through a tracker, which turns each command into events, applies the
-- domain rules to them, and appends them with the expected version of each stream to an event store
-- that other trackers share. Agents prove who they are by short-lived credentials; tenants are
-- admitted by a published directory. The packets are published in an export: an envelope with a digest
-- and an expiry around their records.
--
-- Files and the code that they model:
--   Packet/Types        packet/types.go, packet/errors.go: values, events, commands, errors
--   Packet/Apply        packet/tracker.go: applyEvent and its checks, a definition for each kind of
--                       event; `replay` folds it over a history
--   Packet/Store        packet/store.go: EventStore as a record of operations, MemoryEventStore
--   Packet/World        packet/tracker.go: the state of Tracker, its clock, identifier source and
--                       tenant validator, which are parameters
--   Packet/Loading, Packet/Refresh   sortRecords, refreshLocked, prepareLocked
--   Packet/Batch        appendLocked
--   Packet/Tracker      the exported methods of Tracker, over any event store; Tracker/Shared has the
--                       interleavings of the commands of several trackers on one store
--   Credential          agentcredential/credential.go (Types, Texts, Checks, Manager) and
--                       agentcredential/memory.go (Memory)
--   Documents           what the Firestore adapters call of the document database, a parameter, with
--                       its documented behaviour as `IsDatabase`, which says what it keeps of a
--                       document (times to the microsecond), and a database in memory
--   EventLog            eventstore/firestore.go: the records and their documents (Records), the
--                       transaction of Append (Transaction), Append and Load (Store)
--   CredentialStore     credentialstore/firestore.go; Kept has the rounding of its timestamps
--   Contract            contract/envelope.go (Json: the canonical form; Envelope) and
--                       contract/provenance.go (Provenance)
--   PacketExport        packetexport/export.go
--   Tenant              tenant/directory.go
--   Authoring           authoring/workspace.go
-- Each has child modules for its lemmas, and a module Examples with runs on concrete data. Prelude has
-- lists over the native numbers, results, a state and error monad, maps as association lists, and
-- strings.TrimSpace.
--
-- A method that changes state takes the state and gives the result beside the new state, also where it
-- fails. A method holds its lock from the first line to the return, so that it is one step; the
-- commands of different trackers meet only in the store, where Load and Append are the steps. A map is
-- an association list; a loop over a map runs in the order of the list, where Go leaves the order
-- open. Copies that only guard against aliasing are the identity. A nil pointer or interface is `none`.
-- Times are natural numbers of nanoseconds from the zero time; those of Contract are counted from two
-- days before the year 0, since their texts may be of any year.
--
-- Loops are structural recursion on the list that they run over: there is no fuel. A version is a
-- uint64 and wraps at 2 ^ 64; the statements that count events assume a history, or a log, that
-- stays below it (`HasRoom`: four records more than the log has), which no log in memory reaches.
--
-- Parameters: the Firestore client, encoding/json, SHA-256, base64 and random bytes, the parsing of URLs
-- and of RFC 3339 times, the git commands, the scope validator of the workspace.
--
-- Not modelled: the set-up of Firestore clients, token verification, HTTP surface, publishers,
-- the reader of runtime exports, commands and deployment files; and the Go runtime's locks.
pub mod Prelude
pub mod Packet
pub mod Credential
pub mod Tenant
pub mod Authoring
pub mod Documents
pub mod EventLog
pub mod CredentialStore
pub mod Contract
pub mod PacketExport
