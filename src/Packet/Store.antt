-- ===== src/Packet/Store.antt =====
-- packet/store.go: event records, the interface `EventStore` and `MemoryEventStore`.
-- Each method runs under the store's mutex, so that it is one step on the store's state. A loop
-- over a Go map runs in the order of the association list; where the order shows (which of several
-- stale versions a conflict names), Go leaves it open.
pub mod Streams
pub mod Identifiers
pub mod Valid
pub mod Conflict
use work_tracker.Prelude.{
  ℕ, ◌+◌, Bool, true, false, not, Option, none, some, List, [], ◌∷◌, ◌++◌, ◌==◌, ◌||◌, keep, eqb,
  if◌then◌else◌, String,
}
use work_tracker.Prelude.Dict.{Dict, get, get_or, put}
use work_tracker.Prelude.NameSet.{NameSet, contains}
use work_tracker.Prelude.Result.{Result, ok, err, ◌>>=◌, ◌>>◌, refuse_if}
use work_tracker.Packet.Types.{
  PacketId, EventId, Version, next_version, Event, metadata, Error, invalid_event, conflict,
  Fallible,
}
use work_tracker.Packet.Apply.{event_packet_id}

-- The event is an interface value: `none` is Go's nil.
pub record EventRecord : Type 0 where
  pub packet_id : PacketId
  pub stream_version : Version
  pub event : Option Event

-- `EventStore`. Loading no identifiers loads every stream; an append may move the state of the
-- store whether or not it succeeds.
pub record EventStore (S : Type 0) : Type 0 where
  pub load : List PacketId → S → Fallible (List EventRecord)
  pub append : Dict Version → List EventRecord → S → Fallible Unit × S

pub record MemoryEventStore : Type 0 where
  pub records : List EventRecord
  pub versions : Dict Version
  pub event_ids : NameSet

-- `NewMemoryEventStore`
abbrev pub empty_store : MemoryEventStore
empty_store = record { records = []; versions = []; event_ids = [] }

-- `MemoryEventStore.Load`
unfoldable pub load : List PacketId → MemoryEventStore → List EventRecord
unfolding contains
load [] store = store.records
load (id ∷ ids) store = keep (λ r. contains r.packet_id (id ∷ ids)) store.records

-- The comparison of every expected version with the stored one.
pub check_expected : Dict Version → Dict Version → Fallible Unit
check_expected versions [] = ok tt
check_expected versions ((id, version) ∷ expected) = do
  let actual = get_or 0 (get id versions)
  refuse_if (not (eqb actual version)) (conflict id version actual)
  check_expected versions expected

-- The map `next` that `validateAppend` builds from the expected versions.
unfoldable pub expected_next : Dict Version → Fallible (Dict Version)
expected_next [] = ok []
expected_next ((id, version) ∷ expected) = do
  refuse_if (id == "") invalid_event
  next ← expected_next expected
  ok (put id (next_version version) next)

-- `record.Event == nil || eventPacketID(record.Event) != record.PacketID`
abbrev pub is_foreign : EventRecord → Bool
is_foreign r = elim r.event [ none ↦ true | some e ↦ not (event_packet_id e == r.packet_id) ]

-- The loop of `validateAppend` over the records.
unfoldable pub validate_records : Dict Version → List EventRecord → Fallible Unit
validate_records next [] = ok tt
validate_records next (r ∷ rs) = elim (get r.packet_id next) [
  | none ↦ err invalid_event
  | some want ↦
      refuse_if (is_foreign r) invalid_event
      >> (refuse_if (not (eqb r.stream_version want)) invalid_event
          >> validate_records (put r.packet_id (next_version want) next) rs)
]

abbrev no_records : List EventRecord → Bool
no_records [] = true
no_records (r ∷ rs) = false

-- `validateAppend`
unfoldable pub validate_append : Dict Version → List EventRecord → Fallible Unit
unfolding expected_next validate_records
validate_append expected records = do
  refuse_if (no_records records) invalid_event
  next ← expected_next expected
  validate_records next records

-- `record.Event.Metadata().ID`, read of records that have passed `validateAppend` and so have an
-- event. (Of nil the source would panic.)
abbrev pub record_event_id : EventRecord → EventId
record_event_id r = elim r.event [ none ↦ "" | some e ↦ (metadata e).id ]

-- The loop over the batch that refuses an identifier that is stored or stands twice.
pub check_ids : NameSet → NameSet → List EventRecord → Fallible Unit
check_ids stored batch [] = ok tt
check_ids stored batch (r ∷ rs) = do
  refuse_if (contains (record_event_id r) stored) invalid_event
  refuse_if (contains (record_event_id r) batch) invalid_event
  check_ids stored (record_event_id r ∷ batch) rs

-- The loop that records the versions and the identifiers of an accepted batch.
pub advance_versions : Dict Version → List EventRecord → Dict Version
advance_versions versions [] = versions
advance_versions versions (r ∷ rs) = advance_versions (put r.packet_id r.stream_version versions) rs

pub add_ids : NameSet → List EventRecord → NameSet
add_ids ids [] = ids
add_ids ids (r ∷ rs) = add_ids (record_event_id r ∷ ids) rs

pub check_append : Dict Version → List EventRecord → MemoryEventStore → Fallible Unit
check_append expected records store = do
  check_expected store.versions expected
  validate_append expected records
  check_ids store.event_ids [] records

unfoldable pub commit : List EventRecord → MemoryEventStore → MemoryEventStore
commit records store = record {
  records = store.records ++ records;
  versions = advance_versions store.versions records;
  event_ids = add_ids store.event_ids records;
}

-- `MemoryEventStore.Append`
unfoldable pub append :
    Dict Version → List EventRecord → MemoryEventStore → Fallible Unit × MemoryEventStore
unfolding check_append commit check_expected validate_append check_ids advance_versions add_ids
append expected records store = elim (check_append expected records store) [
  | ok _ ↦ (ok tt, commit records store)
  | err e ↦ (err e, store)
]

-- `MemoryEventStore` as an `EventStore`.
abbrev pub memory : EventStore MemoryEventStore
memory = record { load = λ ids store. ok (load ids store); append = append }
