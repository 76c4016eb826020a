-- ===== src/EventLog/Documents.antt =====
-- What the writes of `Append` leave in the documents.
use work_tracker.Prelude.{
  ◌≡◌, refl, true, false, Option, none, some, List, [], ◌∷◌, ◌++◌, ◌==◌, arith, Bool-cases, inl,
  inr, All, if◌then◌else◌, String,
}
use work_tracker.Prelude.Dict.{Dict, get, get_or}
use work_tracker.Prelude.NameSet.{contains}
use work_tracker.Packet.Types.{PacketId, EventId, Version}
use work_tracker.Packet.Store.{EventRecord, record_event_id}
use work_tracker.Packet.Store.Identifiers.{ids_of}
use work_tracker.Documents.{
  Fetch, found, not_found, failed, Write, Applies, as_written, set, creates, updates, finished,
}
use work_tracker.EventLog.Records.{
  Ref, event_at, stream_at, same_ref, LogDocument, EventDocument, Json,
}
use work_tracker.EventLog.Transaction.{create_events, advance_stream, advance_streams}
use work_tracker.EventLog.Encoding.{Coded, nil, cons}

-- The record of an event in a log.
unfoldable pub find : EventId → List EventRecord → Option EventRecord
find k [] = none
find k (r ∷ rs) = if record_event_id r == k then some r else find k rs

pub contains-ids_of :
    (k : EventId) (rs : List EventRecord) (r : EventRecord)
    → find k rs ≡ some r
    → contains k (ids_of rs) ≡ true
unfolding find contains
contains-ids_of k [] r h = absurd (cc h)
contains-ids_of k (x ∷ rs) r h = ground (arith, contains-ids_of k rs r)

pub find-none :
    (k : EventId) (rs : List EventRecord) → find k rs ≡ none → contains k (ids_of rs) ≡ false
unfolding find contains
find-none k [] h = refl
find-none k (x ∷ rs) h = ground (arith, find-none k rs)

pub find_absent :
    (k : EventId) (rs : List EventRecord) → contains k (ids_of rs) ≡ false → find k rs ≡ none
unfolding find contains
find_absent k [] h = refl
find_absent k (x ∷ rs) h = ground (arith, find_absent k rs)

pub find-append :
    (k : EventId) (xs ys : List EventRecord)
    → find k (xs ++ ys) ≡ (elim (find k xs) [ some r ↦ some r | none ↦ find k ys ])
unfolding find
find-append k [] ys = refl
find-append k (x ∷ xs) ys = elim (Bool-cases (record_event_id x == k)) [
  | inl here ↦ rw here refl
  | inr there ↦ rw there (find-append k xs ys)
]

abbrev pub LogView : Type 0 → Type 0
LogView P = Ref → Option (LogDocument P)

module _ {P : Type 0} (path_id : String → String) where
  -- The documents with those of a batch.
  unfoldable pub with_events : List EventRecord → List (EventDocument P) → LogView P → LogView P
  with_events (r ∷ rs) (d ∷ ds) v =
      with_events rs ds
        (set same_ref (event_at (path_id (record_event_id r))) (LogDocument.event d) v)
  with_events _ _ v = v

  -- The documents with the final versions of streams.
  unfoldable pub with_streams : Dict Version → List PacketId → LogView P → LogView P
  with_streams final [] v = v
  with_streams final (id ∷ ids) v =
      with_streams final ids
        (set same_ref (stream_at (path_id id)) (LogDocument.stream (get_or 0 (get id final))) v)

  -- A batch's documents are created where there were none.
  unfoldable pub Fresh : LogView P → List EventRecord → Type 0
  Fresh v = All (λ r. v (event_at (path_id (record_event_id r))) ≡ none)

  unset :
      (v : LogView P) (d : LogDocument P) (a b : String)
      → set same_ref (event_at a) d v (event_at b) ≡ none
      → v (event_at b) ≡ none
  unset v d a b h = ground arith

  Fresh-unset :
      (v : LogView P) (d : LogDocument P) (a : String) (rs : List EventRecord)
      → Fresh (set same_ref (event_at a) d v) rs
      → Fresh v rs
  unfolding Fresh
  Fresh-unset v d a [] f = tt
  Fresh-unset v d a (r ∷ rs) f =
      (unset v d a (path_id (record_event_id r)) f.0, Fresh-unset v d a rs f.1)

  pub apply-events :
      {json : Json P} {rs : List EventRecord} {ds : List (EventDocument P)}
      {ws : List (Write Ref (LogDocument P))} {v v' : LogView P}
      → Coded json rs ds
      → Applies same_ref as_written (create_events path_id rs ds ++ ws) v v'
      → Fresh v rs × Applies same_ref as_written ws (with_events rs ds v) v'
  unfolding create_events with_events Fresh
  apply-events nil a = (tt, a)
  apply-events {rs = r ∷ rs} {ds = d ∷ ds} {v = v} (cons seen want e c) (creates absent rest) =
      let (fresh, after) = apply-events c rest in
      ((absent, Fresh-unset v (LogDocument.event d) (path_id (record_event_id r)) rs fresh), after)

  advanced :
      (read : Fetch (LogDocument P)) (id : PacketId) (version : Version)
      {ws : List (Write Ref (LogDocument P))} {v v' : LogView P}
      → Applies same_ref as_written (advance_stream path_id read id version ∷ ws) v v'
      → Applies same_ref as_written ws
          (set same_ref (stream_at (path_id id)) (LogDocument.stream version) v)
          v'
  unfolding advance_stream
  advanced (found d) id version (updates x there rest) = rest
  advanced not_found id version (creates absent rest) = rest
  advanced (failed e) id version (creates absent rest) = rest

  pub apply-streams :
      (reads : Ref → Fetch (LogDocument P)) (final : Dict Version) (ids : List PacketId)
      {v v' : LogView P}
      → Applies same_ref as_written (advance_streams path_id reads final ids) v v'
      → v' ≡ with_streams final ids v
  unfolding advance_streams with_streams
  apply-streams reads final [] finished = refl
  apply-streams reads final (id ∷ ids) a =
      apply-streams reads final ids
        (advanced (reads (stream_at (path_id id))) id (get_or 0 (get id final)) a)
