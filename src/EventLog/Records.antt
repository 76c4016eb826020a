-- ===== src/EventLog/Records.antt =====
-- eventstore/firestore.go: event documents, `encodeAppend` and `decodeRecord`.
use work_tracker.Prelude.{
  ℕ, ◌+◌, ◌-◌, ◌%◌, ◌^◌, Bool, true, false, not, ◌||◌, ◌&&◌, Option, none, some, List, [], ◌∷◌,
  ◌==◌, map, eqb, ltb, String, if◌then◌else◌,
}
use work_tracker.Prelude.Dict.{Dict, get, put}
use work_tracker.Prelude.NameSet.{NameSet, contains}
use work_tracker.Prelude.Result.{Result, ok, err, ◌>>=◌, ◌>>◌, refuse_if}
use work_tracker.Packet.Types.{
  PacketId, Version, version_mod, next_version, Event, EventKind, kind, metadata, Error,
  invalid_event, external, Fallible,
}
use work_tracker.Packet.Apply.{event_packet_id}
use work_tracker.Packet.Store.{EventRecord, expected_next, is_foreign, record_event_id}
use work_tracker.Packet.Loading.{before, sort_slice}
use work_tracker.Documents.{Fetch, found, not_found, failed, Ending}

-- The references to documents: an event's by its identifier, a stream's by its packet.
pub data Ref : Type 0 where
  event_at stream_at : String → Ref

abbrev pub same_ref : Ref → Ref → Bool
same_ref (event_at a) (event_at b) = a == b
same_ref (stream_at a) (stream_at b) = a == b
same_ref _ _ = false

-- `EventKind`, as its text
abbrev pub kind_text : EventKind → String
kind_text EventKind.packet_issued = "packet issued"
kind_text EventKind.packet_taken = "packet taken"
kind_text EventKind.packet_commented = "packet commented"
kind_text EventKind.packet_status_transition = "packet status transitioned"
kind_text EventKind.packet_superseded = "packet superseded"
kind_text EventKind.packet_closed = "packet closed"

-- `eventDocument`, whose payload is a text `P`. An int64 is its bit pattern.
pub record EventDocument (P : Type 0) : Type 0 where
  pub schema_version : ℕ
  pub packet_id : String
  pub stream_version : ℕ
  pub kind : String
  pub payload : P

-- A document of either collection; `streamDocument` is its version.
pub data LogDocument (P : Type 0) : Type 0 where
  event : EventDocument P → LogDocument P
  stream : ℕ → LogDocument P

-- `n >= 1` of an int64
abbrev pub is_positive : ℕ → Bool
is_positive n = ltb 0 n && ltb n (2 ^ 63)

-- What is called of `encoding/json`: a decode is into the type of the named kind.
pub record Json (P : Type 0) : Type 0 where
  pub marshal : Event → Result String P
  pub unmarshal : EventKind → P → Result String Event

-- The switch of `decodeEvent` on the kind.
unfoldable pub kind_of_text : String → Option EventKind
kind_of_text text =
    if text == "packet issued"
    then some EventKind.packet_issued
    else if text == "packet taken"
    then some EventKind.packet_taken
    else if text == "packet commented"
    then some EventKind.packet_commented
    else if text == "packet status transitioned"
    then some EventKind.packet_status_transition
    else if text == "packet superseded"
    then some EventKind.packet_superseded
    else if text == "packet closed"
    then some EventKind.packet_closed
    else none

-- `version - 1` of a uint64
abbrev pub previous : Version → Version
previous v = (v + version_mod - 1) % version_mod

-- An error of a library, by its text.
unfoldable pub from_library : {A : Type 0} → Result String A → Fallible A
from_library (ok a) = ok a
from_library (err e) = err (external e)

abbrev pub nothing : List EventRecord → Bool
nothing [] = true
nothing (r ∷ rs) = false

-- `eventSchema`
abbrev pub event_schema : ℕ
event_schema = 1

abbrev pub ended : Ending Error Unit → Fallible Unit
ended (Ending.refused e) = err e
ended (Ending.committed a) = ok a
ended (Ending.aborted e) = err (external e)

-- The identifiers of the expected streams, in order.
unfoldable pub sorted_ids : Dict Version → List PacketId
unfolding sort_slice
sorted_ids expected = sort_slice before (map (λ entry. entry.0) expected)

module _ {P : Type 0} where
  abbrev pub document_of : EventRecord → Event → P → EventDocument P
  document_of r e payload = record {
    schema_version = event_schema;
    packet_id = r.packet_id;
    stream_version = r.stream_version;
    kind = kind_text (kind e);
    payload = payload;
  }

  -- `decodeStreamVersion`, of a read
  unfoldable pub decode_stream_version : Fetch (LogDocument P) → Fallible Version
  decode_stream_version not_found = ok 0
  decode_stream_version (failed e) = err (external e)
  decode_stream_version (found (LogDocument.event d)) = err (external "decode Firestore stream")
  decode_stream_version (found (LogDocument.stream v)) =
      if is_positive v then ok v else err (external "invalid stream version")

module _ {P : Type 0} (json : Json P) where
  -- The checks of a record in `encodeAppend`, for its position in the stream, and its document.
  unfoldable pub encode_record : NameSet → Version → EventRecord → Fallible (EventDocument P)
  unfolding from_library
  encode_record seen want r = do
    refuse_if (is_foreign r || not (eqb r.stream_version want)) invalid_event
    elim r.event [
      | none ↦ err invalid_event
      | some e ↦ do
        let meta = metadata e
        refuse_if (meta.id == "" || eqb meta.at 0 || meta.actor == "") invalid_event
        refuse_if (contains meta.id seen) invalid_event
        payload ← from_library (json.marshal e)
        ok (document_of r e payload)
    ]

  -- The loop of `encodeAppend`: the documents, and the map `next` at its end.
  unfoldable pub encode_records :
      NameSet → Dict Version → List EventRecord → Fallible (List (EventDocument P) × Dict Version)
  encode_records seen next [] = ok ([], next)
  encode_records seen next (r ∷ rs) = elim (get r.packet_id next) [
    | none ↦ err invalid_event
    | some want ↦ do
      document ← encode_record seen want r
      let later = put r.packet_id (next_version want) next
      (documents, end) ← encode_records (record_event_id r ∷ seen) later rs
      ok (document ∷ documents, end)
  ]

  -- `encodeAppend`
  unfoldable pub encode_append :
      Dict Version → List EventRecord → Fallible (List (EventDocument P) × Dict Version)
  unfolding encode_records
  encode_append expected records = do
    refuse_if (nothing records) invalid_event
    next ← expected_next expected
    (documents, end) ← encode_records [] next records
    ok (documents, map (λ entry. (entry.0, previous entry.1)) end)

  -- `decodeEvent`
  unfoldable pub decode_event : String → P → Fallible Event
  unfolding from_library kind_of_text
  decode_event text payload = elim (kind_of_text text) [
    | none ↦ err (external "unknown event kind")
    | some k ↦ from_library (json.unmarshal k payload)
  ]

  -- `decodeRecord`
  unfoldable pub decode_record : EventDocument P → Fallible EventRecord
  decode_record d = do
    refuse_if (not (eqb d.schema_version event_schema)) (external "unsupported event schema")
    refuse_if (d.packet_id == "" || not (is_positive d.stream_version))
        (external "event position is incomplete")
    e ← decode_event d.kind d.payload
    refuse_if (not (event_packet_id e == d.packet_id))
        (external "payload packet id does not match its event position")
    ok (record { packet_id = d.packet_id; stream_version = d.stream_version; event = some e })

  -- `snapshot.DataTo` and `decodeRecord` for each document, in order.
  unfoldable pub decode_documents : List (LogDocument P) → Fallible (List EventRecord)
  decode_documents [] = ok []
  decode_documents (LogDocument.event d ∷ ds) = do
    r ← decode_record d
    rs ← decode_documents ds
    ok (r ∷ rs)
  decode_documents (LogDocument.stream v ∷ ds) = err (external "decode Firestore event")
