-- ===== src/PacketExport.antt =====
-- packetexport/export.go: packets as records of an export. A time stands in a record by its text, which
-- `format` makes and `is_time` says to parse; the decoding of the payload is a parameter.
pub mod Accepted
pub mod Reconciled
mod Examples
use work_tracker.Prelude.{
  ℕ, ◌+◌, Bool, true, false, not, ◌||◌, ◌&&◌, Option, none, some, List, [], ◌∷◌, ◌==◌, eqb, map,
  length, String, if◌then◌else◌,
}
use work_tracker.Prelude.Text.{is_blank}
use work_tracker.Prelude.Dict.{Dict, put}
use work_tracker.Prelude.NameSet.{NameSet, contains}
use work_tracker.Prelude.Result.{Result, ok, err, ◌>>=◌, ◌>>◌, refuse_if}
use work_tracker.Prelude.Exec
use work_tracker.Packet.Types.{
  Time, Version, Status, CloseReason, Event, kind, metadata, Packet, PacketId,
}
use work_tracker.Packet.Types
use work_tracker.Packet.Loading.{before, sort_slice}
use work_tracker.Packet.Store.{EventStore}
use work_tracker.Packet.World.{Method}
use work_tracker.Packet.Tracker.{packets, packet, history}
use work_tracker.EventLog.Records.{kind_text}
use work_tracker.Contract.Json.{JsonError}
use work_tracker.Contract.Provenance.{ContractError, invalid_export, Checked}
use work_tracker.Contract.Envelope.{
  Envelope, Publication, Wire, build, verify, verify_integrity, serialize, from_json,
}

pub record Comment : Type 0 where
  pub event_id : String
  pub timestamp : String
  pub actor : String
  pub text : String

pub record Closure : Type 0 where
  pub event_id : String
  pub timestamp : String
  pub actor : String
  pub reason : String

-- `HistoryEvent`: a field that an event does not have is `none`.
pub record HistoryEvent : Type 0 where
  pub kind : String
  pub event_id : String
  pub timestamp : String
  pub actor : String
  pub tenant_id : Option String
  pub body : Option Types.Body
  pub parent_id : Option String
  pub text : Option String
  pub from : Option String
  pub to : Option String
  pub evidence : List String
  pub replacement_id : Option String
  pub reason : Option String

-- `Record`, with the five texts of its scope in one field.
pub record Record : Type 0 where
  pub id : String
  pub tenant_id : String
  pub body : Types.Body
  pub status : String
  pub version : Version
  pub taken_by : Option String
  pub comments : List Comment
  pub evidence : List String
  pub parent_id : Option String
  pub superseded_by : Option String
  pub closure : Option Closure
  pub history : List HistoryEvent

-- `Status`, as its text
abbrev pub status_text : Status → String
status_text Status.not_started = "not started"
status_text Status.in_progress = "in progress"
status_text Status.done = "done"
status_text Status.blocked = "blocked"
status_text (Status.other s) = s

abbrev pub reason_text : CloseReason → String
reason_text CloseReason.done = "done"
reason_text CloseReason.superseded = "superseded"
reason_text (CloseReason.other s) = s

-- A value that is there unless it is empty.
abbrev pub named : String → Option String
named s = if s == "" then none else some s

module _ (format : Time → String) where
  -- The common part of `makeHistoryEvent`.
  abbrev pub bare_event : Event → HistoryEvent
  bare_event e = record {
    kind = kind_text (Types.kind e);
    event_id = (metadata e).id;
    timestamp = format (metadata e).at;
    actor = (metadata e).actor;
    tenant_id = none;
    body = none;
    parent_id = none;
    text = none;
    from = none;
    to = none;
    evidence = [];
    replacement_id = none;
    reason = none;
  }

  -- `makeHistoryEvent`
  unfoldable pub make_history_event : Event → HistoryEvent
  make_history_event (Event.issued e) = record (bare_event (Event.issued e)) {
    tenant_id = some e.tenant_id;
    body = some e.body;
    parent_id = named e.parent_id;
  }
  make_history_event (Event.taken e) = bare_event (Event.taken e)
  make_history_event (Event.commented e) = record (bare_event (Event.commented e)) {
    text = some e.text;
  }
  make_history_event (Event.status_transitioned e) =
      record (bare_event (Event.status_transitioned e)) {
        from = some (status_text e.from);
        to = some (status_text e.to);
        evidence = e.evidence;
      }
  make_history_event (Event.superseded e) = record (bare_event (Event.superseded e)) {
    replacement_id = some e.replacement_id;
  }
  make_history_event (Event.closed e) = record (bare_event (Event.closed e)) {
    reason = some (reason_text e.reason);
  }

  abbrev pub make_comment : Types.Comment → Comment
  make_comment c = record {
    event_id = c.event_id;
    timestamp = format c.at;
    actor = c.actor;
    text = c.text;
  }

  abbrev pub make_closure : Option Types.Closure → Option Closure
  make_closure none = none
  make_closure (some c) = some (record {
    event_id = c.event_id;
    timestamp = format c.at;
    actor = c.actor;
    reason = reason_text c.reason;
  })

  -- `makeRecord`
  unfoldable pub make_record : Packet → List Event → Record
  unfolding make_history_event
  make_record p events = record {
    id = p.id;
    tenant_id = p.tenant_id;
    body = p.body;
    status = status_text p.status;
    version = p.version;
    taken_by = named p.taken_by;
    comments = map make_comment p.comments;
    evidence = p.evidence;
    parent_id = named p.parent_id;
    superseded_by = named p.superseded_by;
    closure = make_closure p.closure;
    history = map make_history_event events;
  }

abbrev supported_status : String → Bool
supported_status s = s == "not started" || s == "in progress" || s == "done" || s == "blocked"

module _ (is_time : String → Bool) where
  -- The loop of `validateRecord` over the history.
  unfoldable pub validate_history : List HistoryEvent → Checked Unit
  validate_history [] = ok tt
  validate_history (e ∷ es) = do
    refuse_if (e.kind == "" || e.event_id == "" || e.actor == "") invalid_export
    refuse_if (not (is_time e.timestamp)) invalid_export
    validate_history es

  -- `validateRecord`
  unfoldable pub validate_record : Record → Checked Unit
  unfolding validate_history
  validate_record r = do
    refuse_if (is_blank r.id || is_blank r.tenant_id) invalid_export
    refuse_if (not (supported_status r.status)) invalid_export
    refuse_if (not (eqb r.version (length r.history))) invalid_export
    validate_history r.history

  -- The loop of `decodeVerified`.
  unfoldable pub check_records : NameSet → List Record → Checked Unit
  unfolding validate_record
  check_records seen [] = ok tt
  check_records seen (r ∷ rs) = do
    validate_record r
    refuse_if (contains r.id seen) invalid_export
    check_records (r.id ∷ seen) rs

-- The loops of `Reconcile` over the map of records.
unfoldable pub index_records : Dict Record → List Record → Dict Record
index_records by_id [] = by_id
index_records by_id (r ∷ rs) = index_records (put r.id r by_id) rs

-- `Reconcile`; the copies of `cloneRecords` are the values.
unfoldable pub reconcile : List Record → List Record → List Record
unfolding index_records
reconcile repository app = map (λ entry. entry.1) (index_records (index_records [] repository) app)

-- The order of `BuildRecords`.
abbrev pub record_before : Record → Record → Bool
record_before a b = before a.id b.id

abbrev pub schema : String
schema = "martcoca.tracker.packets/1"

-- `Verified`
pub record Verified : Type 0 where
  pub envelope : Envelope
  pub packets : List Record

module _ (wire : Wire (List Record)) where
  -- `BuildRecords`
  unfoldable pub build_records : List Record → Publication → Checked Envelope
  unfolding sort_slice
  build_records rs p = build wire schema (sort_slice record_before rs) p

  -- `SerializeRecords`
  unfoldable pub serialize_records : List Record → Publication → Checked (String × Envelope)
  unfolding build_records
  serialize_records rs p = do
    e ← build_records rs p
    text ← from_json (serialize wire e)
    ok (text, e)

  module _ (decode_records : String → Result JsonError (List Record))
      (is_time : String → Bool) where
    -- `decodeVerified`
    unfoldable pub decode_verified : Envelope → Checked Verified
    unfolding check_records
    decode_verified e = do
      rs ← from_json (decode_records e.payload)
      check_records is_time [] rs
      ok (record { envelope = e; packets = rs })

    -- `Verify`
    unfoldable pub verify_export : String → ℕ → Checked Verified
    unfolding decode_verified
    verify_export text now = do e ← verify wire text schema now; decode_verified e

    -- `VerifyIntegrity`
    unfoldable pub verify_export_integrity : String → Checked Verified
    unfolding decode_verified
    verify_export_integrity text = do e ← verify_integrity wire text schema; decode_verified e

module _ {S : Type 0} (es : EventStore S) (format : Time → String) where
  -- `SnapshotRecord`
  unfoldable pub snapshot_record : PacketId → Method S Record
  snapshot_record id =
      Exec.◌>>=◌ (packet es id)
        (λ p. Exec.◌>>=◌ (history es id) (λ events. Exec.pure (make_record format p events)))

  -- The loop of `Records`.
  unfoldable pub make_records : List Packet → Method S (List Record)
  make_records [] = Exec.pure []
  make_records (p ∷ ps) =
      Exec.◌>>=◌ (history es p.id) (λ events.
        Exec.◌>>=◌ (make_records ps) (λ rs. Exec.pure (make_record format p events ∷ rs)))

  -- `Records`
  unfoldable pub records : Method S (List Record)
  unfolding make_records
  records = Exec.◌>>=◌ (packets es) make_records
