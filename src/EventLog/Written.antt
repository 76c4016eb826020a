-- ===== src/EventLog/Written.antt =====
-- The documents after a batch stand for the log with the batch.
use work_tracker.EventLog.Backed.{Backed, IsStored-same, find-new}
use work_tracker.EventLog.Batch.{Batch}
use work_tracker.Prelude.{
  ℕ, ◌+◌, ◌<◌, ◌≡◌, refl, ◌∙◌, ap, Bool, true, false, none, some, List, [], ◌++◌, ◌==◌, length,
  length-append, arith, Option-cases, inl, inr, if◌then◌else◌, String,
}
use work_tracker.Prelude.Dict.{Dict, get, get_or, is_some}
use work_tracker.Prelude.NameSet.{contains, contains-append}
use work_tracker.Packet.Types.{PacketId, EventId, Version, version_mod}
use work_tracker.Packet.Store.{EventRecord, MemoryEventStore, commit}
use work_tracker.Packet.Store.Streams.{stream, keep-append}
use work_tracker.Packet.Store.Identifiers.{ids_of, ids_of-append}
use work_tracker.Packet.Store.Valid.{length-keep-le, Fits, commit-IsValid}
use work_tracker.EventLog.Records.{
  Ref, event_at, stream_at, EventDocument, LogDocument, Json, sorted_ids,
}
use work_tracker.EventLog.Documents.{find, find-append, LogView, with_events, with_streams}
use work_tracker.EventLog.Lookup.{
  IsStored, with_events-stream, with_streams-event, with_streams-stream, with_events-absent,
  with_events-IsStored, with_events-only, with_streams-only,
}
use work_tracker.EventLog.Reads.{contains-sorted_ids, stream_document}

if_true : {A : Type 0} (b : Bool) (x y : A) → b ≡ true → (if b then x else y) ≡ x
if_true b x y h = rw h refl

if_false : {A : Type 0} (b : Bool) (x y : A) → b ≡ false → (if b then x else y) ≡ y
if_false b x y h = rw h refl

stream_document-positive :
    (P : Type 0) (n : ℕ) → 0 < n → some (LogDocument.stream n) ≡ stream_document {P = P} n
stream_document-positive P n h = ground arith

module _ {P : Type 0} (json : Json P) (path_id : String → String)
    (distinct : (a b : String) → path_id a ≡ path_id b → a ≡ b) where
  module _ (view : LogView P) (s : MemoryEventStore) (expected : Dict Version)
      (rs : List EventRecord) (ds : List (EventDocument P)) (final : Dict Version)
      (b : Backed json path_id view s) (fits : Fits expected rs s) where
    abbrev written : LogView P
    written = with_streams path_id final (sorted_ids expected) (with_events path_id rs ds view)

    event-written :
        (k : EventId)
        → written (event_at (path_id k)) ≡ with_events path_id rs ds view (event_at (path_id k))
    event-written k =
        with_streams-event path_id final (sorted_ids expected) (with_events path_id rs ds view)
          (path_id k)

    events-written :
        (k : EventId) (r : EventRecord)
        → Batch json expected rs ds final
        → find k (s.records ++ rs) ≡ some r
        → IsStored path_id json written k r
    events-written k r batch h = elim (Option-cases (find k s.records)) [
      | inl absent ↦ IsStored-same json path_id (event-written k) (
          with_events-IsStored path_id distinct view k batch.coded batch.distinct
            (ground (arith, find-append k s.records rs)))
      | inr (old, there) ↦
          IsStored-same json path_id
            (event-written k
              ∙ with_events-absent path_id distinct rs ds view k
                  (find-new json path_id s.records rs k old fits.new_ids there))
            (b.events k r (ground (arith, find-append k s.records rs)))
    ]

    free-written :
        (k : EventId) → find k (s.records ++ rs) ≡ none → written (event_at (path_id k)) ≡ none
    free-written k h = elim (Option-cases (find k s.records)) [
      | inl absent ↦
          event-written k
          ∙ with_events-absent path_id distinct rs ds view k
              (ground (arith, find-append k s.records rs))
          ∙ b.free k absent
      | inr (old, there) ↦ absurd (ground (arith, find-append k s.records rs))
    ]

    only-written :
        (ref : Ref) (d : EventDocument P)
        → written ref ≡ some (LogDocument.event d)
        → (k : EventId) × (ref ≡ event_at (path_id k))
          × (contains k (ids_of (s.records ++ rs)) ≡ true)
    only-written ref d h =
        elim (with_events-only path_id rs ds view ref d
          (with_streams-only path_id final (sorted_ids expected) _ ref d h)) [
            | inl before ↦
                let (k, at_k, there) = b.only ref d before in
                (
                  k,
                  at_k,
                  ground (
                    arith,
                    ids_of-append s.records rs,
                    contains-append k (ids_of s.records) (ids_of rs),
                  ),
                )
            | inr (k, at_k, there) ↦ (
              k,
              at_k,
              ground (
                arith,
                ids_of-append s.records rs,
                contains-append k (ids_of s.records) (ids_of rs),
              ),
            )
          ]

    named-written : get "" expected ≡ none → stream "" (s.records ++ rs) ≡ []
    named-written absent =
        keep-append (λ (r : EventRecord). r.packet_id == "") s.records rs
        ∙ rw (b.named) (fits.expected_only "" absent)

    streams-written :
        (p : PacketId)
        → length s.records + length rs + 1 < version_mod
        → Batch json expected rs ds final
        → ((p : PacketId) (v : Version) → get p expected ≡ some v → 0 < v + length (stream p rs))
        → written (stream_at (path_id p)) ≡ stream_document (length (stream p (s.records ++ rs)))
    streams-written p bound batch used =
        let split =
          ap length (keep-append (λ (r : EventRecord). r.packet_id == p) s.records rs)
          ∙ length-append (stream p s.records) (stream p rs) in
        let looked =
          with_streams-stream path_id distinct final (sorted_ids expected)
            (with_events path_id rs ds view) p in
        elim (Option-cases (get p expected)) [
          | inl absent ↦
              let out : contains p (sorted_ids expected) ≡ false =
                contains-sorted_ids p expected ∙ ap is_some absent in
              let no_more = ap length (fits.expected_only p absent) in
              looked
              ∙ if_false _ _ _ out
              ∙ with_events-stream path_id rs ds view (path_id p)
              ∙ b.streams p
              ∙ ap (stream_document {P = P}) (omega (arith, split, no_more))
          | inr (v, found) ↦
              let listed : contains p (sorted_ids expected) ≡ true =
                contains-sorted_ids p expected ∙ ap is_some found in
              let current = fits.current p v found in
              let short = length-keep-le (λ (r : EventRecord). r.packet_id == p) s.records in
              looked
              ∙ if_true _ _ _ listed
              ∙ ap (λ o. some (LogDocument.stream (get_or 0 o)))
                  (batch.versions p v found (omega arith))
              ∙ stream_document-positive P (v + length (stream p rs)) (used p v found)
              ∙ ap (stream_document {P = P}) (omega (arith, split, current))
        ]

  -- The documents after a batch that fits.
  pub commit-Backed :
      (view : LogView P) (s : MemoryEventStore) (expected : Dict Version) (rs : List EventRecord)
      (ds : List (EventDocument P)) (final : Dict Version)
      → length s.records + length rs + 1 < version_mod
      → Backed json path_id view s
      → Batch json expected rs ds final
      → Fits expected rs s
      → ((p : PacketId) (v : Version) → get p expected ≡ some v → 0 < v + length (stream p rs))
      → Backed json path_id
          (with_streams path_id final (sorted_ids expected) (with_events path_id rs ds view))
          (commit rs s)
  unfolding commit
  commit-Backed view s expected rs ds final bound b batch fits used = record {
    valid = commit-IsValid expected rs s bound b.valid fits;
    events = λ k r h. events-written view s expected rs ds final b fits k r batch h;
    free = λ k h. free-written view s expected rs ds final b fits k h;
    only = λ ref d h. only-written view s expected rs ds final b fits ref d h;
    named = named-written view s expected rs ds final b fits batch.named;
    streams = λ p. streams-written view s expected rs ds final b fits p bound batch used;
  }
