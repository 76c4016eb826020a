-- ===== src/EventLog/Backed.antt =====
-- The documents that stand for a log in memory.
use work_tracker.Prelude.{
  ◌≡◌, ◌∙◌, true, false, none, some, List, [], ◌∷◌, length, eq_iff, arith, Option-cases, inl, inr,
  String,
}
use work_tracker.Prelude.NameSet.{contains}
use work_tracker.Packet.Types.{PacketId, EventId}
use work_tracker.Packet.Store.{EventRecord, MemoryEventStore, record_event_id}
use work_tracker.Packet.Store.Streams.{stream}
use work_tracker.Packet.Store.Identifiers.{ids_of, Apart}
use work_tracker.Packet.Store.Valid.{IsValid}
use work_tracker.EventLog.Records.{Ref, event_at, stream_at, EventDocument, LogDocument, Json}
use work_tracker.EventLog.Documents.{find, find-none, contains-ids_of, LogView, Fresh}
use work_tracker.EventLog.Lookup.{IsStored}
use work_tracker.EventLog.Reads.{stream_document}

pub Apart-in :
    (old new : List EventId) (k : EventId)
    → Apart old new
    → contains k new ≡ true
    → contains k old ≡ false
unfolding contains
Apart-in old [] k a c = absurd (cc c)
Apart-in old (x ∷ new) k a c = ground (arith, eq_iff x k, Apart-in old new k a.1)

module _ {P : Type 0} (json : Json P) (path_id : String → String) where
  -- The documents hold the log: each record in the document of its identifier, the length of each stream
  -- in the stream's document, and nothing under other identifiers.
  pub record Backed (view : LogView P) (s : MemoryEventStore) : Type 0 where
    pub valid : IsValid s
    pub events :
        (k : EventId) (r : EventRecord) → find k s.records ≡ some r → IsStored path_id json view k r
    pub free : (k : EventId) → find k s.records ≡ none → view (event_at (path_id k)) ≡ none
    -- every event document is of the log, and every packet has a name
    pub only :
        (ref : Ref) (d : EventDocument P)
        → view ref ≡ some (LogDocument.event d)
        → (k : EventId) × (ref ≡ event_at (path_id k)) × (contains k (ids_of s.records) ≡ true)
    pub named : stream "" s.records ≡ []
    pub streams :
        (p : PacketId)
        → view (stream_at (path_id p)) ≡ stream_document (length (stream p s.records))

  pub IsStored-same :
      {v w : LogView P} {k : EventId} {r : EventRecord}
      → w (event_at (path_id k)) ≡ v (event_at (path_id k))
      → IsStored path_id json v k r
      → IsStored path_id json w k r
  IsStored-same same i = record {
    document = i.document;
    there = same ∙ i.there;
    seen = i.seen;
    want = i.want;
    encoded = i.encoded;
  }

  -- An identifier of the log is not in a batch of new ones.
  pub find-new :
      (old new : List EventRecord) (k : EventId) (r : EventRecord)
      → Apart (ids_of old) (ids_of new)
      → find k old ≡ some r
      → find k new ≡ none
  find-new old new k r a h = elim (Option-cases (find k new)) [
    | inl absent ↦ absent
    | inr (x, there) ↦ absurd (
        ground (
          arith,
          contains-ids_of k old r h,
          Apart-in (ids_of old) (ids_of new) k a (contains-ids_of k new x there),
        ))
  ]

  -- Documents that are created where there were none have new identifiers.
  pub Fresh-Apart :
      (view : LogView P) (s : MemoryEventStore) (rs : List EventRecord)
      → Backed view s
      → Fresh path_id view rs
      → Apart (ids_of s.records) (ids_of rs)
  unfolding Fresh
  Fresh-Apart view s [] b f = tt
  Fresh-Apart view s (r ∷ rs) b f = (
    elim (Option-cases (find (record_event_id r) s.records)) [
      | inl absent ↦ find-none (record_event_id r) s.records absent
      | inr (old, there) ↦
          let stored = b.events (record_event_id r) old there in
          absurd (ground (arith, f.0, stored.there))
    ],
    Fresh-Apart view s rs b f.1,
  )
