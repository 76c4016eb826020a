-- ===== src/EventLog/Refines.antt =====
-- The durable event log refines the one in memory.
use work_tracker.Prelude.{
  ◌+◌, ◌<◌, ◌^◌, ◌≡◌, sym, subst, some, List, ◌==◌, length, arith, inl, inr, String,
}
use work_tracker.Prelude.Dict.{Dict, get}
use work_tracker.Prelude.Result.{ok, err, Result-cases}
use work_tracker.Packet.Types.{PacketId, Version, Error, external, Fallible}
use work_tracker.Packet.Store.{EventRecord, MemoryEventStore, commit}
use work_tracker.Packet.Store.Streams.{stream}
use work_tracker.Packet.Store.Valid.{length-keep-le, Fits, Fits-of_parts}
use work_tracker.Documents.{Fetch, IsRead, Write, Applies}
use work_tracker.EventLog.Records.{
  Ref, same_ref, EventDocument, LogDocument, Json, encode_append, sorted_ids, ended,
}
use work_tracker.EventLog.Transaction.{append_body}
use work_tracker.EventLog.Documents.{LogView, apply-events, apply-streams}
use work_tracker.EventLog.Reads.{check_streams_current, append_body_checked}
use work_tracker.EventLog.Batch.{Batch, encode_append-Batch}
use work_tracker.EventLog.Backed.{Backed, Fresh-Apart}
use work_tracker.EventLog.Written.{commit-Backed}
use work_tracker.EventLog.Store.{append}
use work_tracker.Documents.{as_written, Database, IsDatabase, TransactEnds, Ending}

module _ {P S : Type 0} (json : Json P) (path_id : String → String) (view : S → LogView P) where
  -- How a durable append ends, where the documents hold the log `s` before it: the batch is stored, or
  -- there is an error and the documents are unchanged, or they hold the batch although the answer of the
  -- database was an error.
  pub data AppendEnds (expected : Dict Version) (rs : List EventRecord) (s : MemoryEventStore)
      : Fallible Unit × S → Type 0 where
    stored :
        {t' : S}
        → Fits expected rs s
        → Backed json path_id (view t') (commit rs s)
        → AppendEnds expected rs s (ok tt, t')
    refused :
        {t' : S} (e : Error)
        → Backed json path_id (view t') s
        → AppendEnds expected rs s (err e, t')
    stored_late :
        {t' : S} (e : String)
        → Fits expected rs s
        → Backed json path_id (view t') (commit rs s)
        → AppendEnds expected rs s (err (external e), t')

module _ {P S : Type 0} (json : Json P) (path_id : String → String)
    (distinct : (a b : String) → path_id a ≡ path_id b → a ≡ b) (view : S → LogView P) where
  -- The writes of a transaction that commits.
  committed-Backed :
      (t t' : S) (s : MemoryEventStore) (expected : Dict Version) (rs : List EventRecord)
      (ds : List (EventDocument P)) (final : Dict Version) (reads : Ref → Fetch (LogDocument P))
      (ws : List (Write Ref (LogDocument P)))
      → length s.records + length rs + 1 < 2 ^ 63
      → Backed json path_id (view t) s
      → Batch json expected rs ds final
      → ((p : PacketId) (v : Version) → get p expected ≡ some v → 0 < v + length (stream p rs))
      → IsRead (view t) reads
      → append_body path_id expected rs ds final (sorted_ids expected) reads ≡ ok (tt, ws)
      → Applies same_ref as_written ws (view t) (view t')
      → Fits expected rs s × Backed json path_id (view t') (commit rs s)
  committed-Backed t t' s expected rs ds final reads ws bound b batch used read ran applied =
      let (streams_ok, wrote) =
        append_body_checked path_id reads expected rs ds final (sorted_ids expected) ran in
      let (fresh, later) =
        apply-events path_id batch.coded
          (subst (λ w. Applies same_ref as_written w (view t) (view t')) wrote applied) in
      let short =
        λ (p : PacketId). length-keep-le (λ (r : EventRecord). r.packet_id == p) s.records in
      let fits =
        Fits-of_parts expected rs s (omega arith) b.valid
          (λ p v g.
            check_streams_current path_id reads (view t) expected p read streams_ok g (b.streams p)
              (omega (arith, short p)))
          batch.checked (Fresh-Apart json path_id (view t) s rs b fresh) batch.distinct in
      let same = apply-streams path_id reads final (sorted_ids expected) later in
      (
        fits,
        subst (λ w. Backed json path_id w (commit rs s)) (sym same)
            (commit-Backed json path_id distinct (view t) s expected rs ds final (omega arith) b
              batch fits used),
      )

  same_log :
      {t t' : S} {s : MemoryEventStore}
      → Backed json path_id (view t) s
      → view t' ≡ view t
      → Backed json path_id (view t') s
  same_log {s = s} b same = subst (λ v. Backed json path_id v s) (sym same) b

  transaction-AppendEnds :
      {t : S} {s : MemoryEventStore} {expected : Dict Version} {rs : List EventRecord}
      {ds : List (EventDocument P)} {final : Dict Version} {x : Ending Error Unit × S}
      → length s.records + length rs + 1 < 2 ^ 63
      → Backed json path_id (view t) s
      → Batch json expected rs ds final
      → ((p : PacketId) (v : Version) → get p expected ≡ some v → 0 < v + length (stream p rs))
      → TransactEnds same_ref as_written view
          (append_body path_id expected rs ds final (sorted_ids expected))
          t
          x
      → AppendEnds json path_id view expected rs s (ended x.0, x.1)
  transaction-AppendEnds bound b batch used (TransactEnds.refused e reads read ran same) =
      AppendEnds.refused e (same_log b same)
  transaction-AppendEnds {t} {s} {expected} {rs} {ds} {final} {x = (_, t')} bound b batch used
        (TransactEnds.committed a ws reads read ran applied) =
      let (fits, after) =
        committed-Backed t t' s expected rs ds final reads ws bound b batch used read ran applied in
      AppendEnds.stored fits after
  transaction-AppendEnds bound b batch used (TransactEnds.aborted e same) =
      AppendEnds.refused (external e) (same_log b same)
  transaction-AppendEnds {t} {s} {expected} {rs} {ds} {final} {x = (_, t')} bound b batch used
        (TransactEnds.committed_late e a ws reads read ran applied) =
      let (fits, after) =
        committed-Backed t t' s expected rs ds final reads ws bound b batch used read ran applied in
      AppendEnds.stored_late e fits after

  -- Where the documents of a database hold a valid log with room, Append over the database either
  -- stores the batch, which then fits the log, so that the documents hold the log with the batch;
  -- or ends with an error and the documents are unchanged; or ends with an error of the database
  -- although the documents hold the batch. It assumes that the database behaves as documented,
  -- that different identifiers have different paths, and that every expected stream has events
  -- before or in the batch.
  pub append-Refined :
      (db : Database Ref (LogDocument P) Error S)
      → IsDatabase same_ref as_written view db
      → (expected : Dict Version) (rs : List EventRecord) (s : MemoryEventStore) (t : S)
      → length s.records + length rs + 1 < 2 ^ 63
      → Backed json path_id (view t) s
      → ((p : PacketId) (v : Version) → get p expected ≡ some v → 0 < v + length (stream p rs))
      → AppendEnds json path_id view expected rs s (append json path_id db expected rs t)
  unfolding append
  append-Refined db law expected rs s t bound b used =
      elim (Result-cases (encode_append json expected rs)) [
        | inr (e, bad) ↦ rw (bad, append) (AppendEnds.refused e b)
        | inl ((ds, final), good) ↦
            rw (good, append)
              (transaction-AppendEnds bound b (encode_append-Batch json expected rs good) used (
                law.transacts Unit (append_body path_id expected rs ds final (sorted_ids expected))
                  t))
      ]

-- After an append that answers without an error the documents hold the batch.
pub appended :
    {P S : Type 0} {json : Json P} {path_id : String → String} {view : S → LogView P}
    {expected : Dict Version} {rs : List EventRecord} {s : MemoryEventStore} {x : Fallible Unit × S}
    → AppendEnds json path_id view expected rs s x
    → x.0 ≡ ok tt
    → Backed json path_id (view x.1) (commit rs s)
appended (stored fits b) h = b
appended (refused e b) h = absurd (cc h)
appended (stored_late e fits b) h = absurd (cc h)
