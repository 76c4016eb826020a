-- ===== src/EventLog/Coding.antt =====
-- What is stored of an event record is what comes back.
use work_tracker.Prelude.{
  ◌<◌, ◌^◌, ◌≡◌, refl, ◌≢◌, false, some, eq_iff, arith, Option-cases, inl, inr,
}
use work_tracker.Prelude.Result.{ok, Result-cases}
use work_tracker.Prelude.NameSet.{NameSet, contains}
use work_tracker.Packet.Types.{Event, EventKind, kind, Version, metadata}
use work_tracker.Packet.Store.{EventRecord, is_foreign}
use work_tracker.EventLog.Records.{
  EventDocument, Json, kind_text, kind_of_text, document_of, from_library, encode_record,
  decode_record, decode_event,
}

-- Each kind is read back from its text.
pub kind_of_text-kind_text : (k : EventKind) → kind_of_text (kind_text k) ≡ some k
unfolding kind_of_text
kind_of_text-kind_text EventKind.packet_issued = refl
kind_of_text-kind_text EventKind.packet_taken = refl
kind_of_text-kind_text EventKind.packet_commented = refl
kind_of_text-kind_text EventKind.packet_status_transition = refl
kind_of_text-kind_text EventKind.packet_superseded = refl
kind_of_text-kind_text EventKind.packet_closed = refl

-- `encoding/json` reads back what it wrote of an event, into the type of the event's kind.
abbrev pub ReadsBack : {P : Type 0} → Json P → Type 0
ReadsBack {P} json =
    (e : Event) (payload : P) → json.marshal e ≡ ok payload → json.unmarshal (kind e) payload ≡ ok e

module _ {P : Type 0} (json : Json P) where
  -- What the checks of a record have established.
  pub record Encoded (seen : NameSet) (want : Version) (r : EventRecord) (d : EventDocument P)
      : Type 0 where
    pub stored : Event
    pub payload : P
    pub has_event : r.event ≡ some stored
    pub own : is_foreign r ≡ false
    pub position : r.stream_version ≡ want
    pub new_id : contains (metadata stored).id seen ≡ false
    pub written : json.marshal stored ≡ ok payload
    pub document : d ≡ document_of r stored payload

  pub encode_record-Encoded :
      (seen : NameSet) (want : Version) (r : EventRecord) {d : EventDocument P}
      → encode_record json seen want r ≡ ok d
      → Encoded seen want r d
  unfolding encode_record from_library
  encode_record-Encoded seen want r h = elim (Option-cases r.event) [
    | inl absent ↦ absurd (ground arith)
    | inr (e, there) ↦ elim (Result-cases (json.marshal e)) [
      | inr (x, bad) ↦ absurd (ground arith)
      | inl (payload, good) ↦ record {
        stored = e;
        payload = payload;
        has_event = there;
        own = ground arith;
        position = ground arith;
        new_id = ground arith;
        written = good;
        document = ground arith;
      }
    ]
  ]

  decode_event-marshal :
      (law : ReadsBack json) (e : Event) (payload : P)
      → json.marshal e ≡ ok payload
      → decode_event json (kind_text (kind e)) payload ≡ ok e
  unfolding decode_event from_library kind
  decode_event-marshal law (Event.issued x) payload h = rw (law (Event.issued x) payload h) refl
  decode_event-marshal law (Event.taken x) payload h = rw (law (Event.taken x) payload h) refl
  decode_event-marshal law (Event.commented x) payload h =
      rw (law (Event.commented x) payload h) refl
  decode_event-marshal law (Event.status_transitioned x) payload h =
      rw (law (Event.status_transitioned x) payload h) refl
  decode_event-marshal law (Event.superseded x) payload h =
      rw (law (Event.superseded x) payload h) refl
  decode_event-marshal law (Event.closed x) payload h = rw (law (Event.closed x) payload h) refl

  -- What has been encoded is decoded.
  pub decode_record-Encoded :
      ReadsBack json
      → (seen : NameSet) (want : Version) (r : EventRecord) (d : EventDocument P)
      → Encoded seen want r d
      → r.packet_id ≢ ""
      → 0 < want
      → want < 2 ^ 63
      → decode_record json d ≡ ok r
  unfolding decode_record
  decode_record-Encoded law seen want r d k named pos small =
      let decoded = decode_event-marshal law k.stored k.payload k.written in
      ground (arith, eq_iff r.packet_id "", k.document, k.has_event, k.own, k.position, decoded)

  -- A record that encodeAppend accepts comes back from its document as it was, where the packet is
  -- named, the position is that of an int64, and JSON reads back what it wrote.
  pub decode_record-encode_record :
      ReadsBack json
      → (seen : NameSet) (want : Version) (r : EventRecord) (d : EventDocument P)
      → encode_record json seen want r ≡ ok d
      → r.packet_id ≢ ""
      → 0 < want
      → want < 2 ^ 63
      → decode_record json d ≡ ok r
  decode_record-encode_record law seen want r d h named pos small =
      decode_record-Encoded law seen want r d (encode_record-Encoded seen want r h) named pos small
