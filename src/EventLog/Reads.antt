-- ===== src/EventLog/Reads.antt =====
-- What the transaction of `Append` has read when its checks pass.
use work_tracker.Prelude.{
  ℕ, ◌<◌, ◌^◌, ◌≡◌, refl, ◌∙◌, true, ◌||◌, Option, none, some, List, [], ◌∷◌, ◌++◌, ◌==◌, map, eqb,
  eq_iff, arith, Bool-cases, inl, inr, if◌then◌else◌, String,
}
use work_tracker.Prelude.Dict.{Dict, get, get_or, is_some}
use work_tracker.Prelude.NameSet.{contains}
use work_tracker.Prelude.Result.{ok, Result-cases}
use work_tracker.Packet.Types.{PacketId, Version}
use work_tracker.Packet.Store.{EventRecord}
use work_tracker.Packet.Loading.{before, sort_slice, insert_slice}
use work_tracker.Documents.{Fetch, fetched, IsRead, Write}
use work_tracker.EventLog.Records.{
  Ref, stream_at, LogDocument, EventDocument, decode_stream_version, sorted_ids, previous,
}
use work_tracker.EventLog.Transaction.{
  check_streams, get_all, append_body, create_events, advance_streams,
}
use work_tracker.EventLog.Documents.{LogView}

contains-insert_slice :
    (p x : String) (xs : List String)
    → contains p (insert_slice before x xs) ≡ (x == p || contains p xs)
unfolding insert_slice contains
contains-insert_slice p x [] = refl
contains-insert_slice p x (y ∷ ys) = ground (arith, contains-insert_slice p x ys)

-- The sorted identifiers are the keys.
pub contains-sorted_ids :
    (p : PacketId) (expected : Dict Version)
    → contains p (sorted_ids expected) ≡ is_some (get p expected)
unfolding sorted_ids sort_slice contains get
contains-sorted_ids p [] = refl
contains-sorted_ids p ((k, v) ∷ expected) = ground (
  arith,
  contains-insert_slice p k (sort_slice before (map (λ entry. entry.0) expected)),
  contains-sorted_ids p expected,
)

-- The document of a stream of a length.
abbrev pub stream_document : {P : Type 0} → ℕ → Option (LogDocument P)
stream_document n = if eqb n 0 then none else some (LogDocument.stream n)

decode-stream_document :
    (P : Type 0) (n : ℕ)
    → n < 2 ^ 63
    → decode_stream_version {P = P} (fetched (stream_document n)) ≡ ok n
unfolding decode_stream_version
decode-stream_document P n b = ground arith

-- The versions that are written come one after the last.
pub get-previous :
    (p : PacketId) (end : Dict Version) {n : ℕ}
    → get p end ≡ some n
    → get p (map (λ entry. (entry.0, previous entry.1)) end) ≡ some (previous n)
unfolding get
get-previous p [] h = absurd (cc h)
get-previous p ((k, v) ∷ end) {n} h = elim (Bool-cases (k == p)) [
  | inl here ↦ (let same : v ≡ n = ground arith in rw (here, same) refl)
  | inr there ↦ rw there (get-previous p end (ground arith))
]

module _ {P : Type 0} (path_id : String → String) (reads : Ref → Fetch (LogDocument P)) where
  check_streams_sound :
      (expected : Dict Version) (ids : List PacketId) (p : PacketId)
      → check_streams path_id reads expected ids ≡ ok tt
      → contains p ids ≡ true
      → decode_stream_version (reads (stream_at (path_id p))) ≡ ok (get_or 0 (get p expected))
  unfolding check_streams contains
  check_streams_sound expected [] p h c = absurd (cc c)
  check_streams_sound expected (id ∷ ids) p h c =
      elim (Result-cases (decode_stream_version (reads (stream_at (path_id id))))) [
        | inr (e, bad) ↦ absurd (ground arith)
        | inl (actual, good) ↦ elim (Bool-cases (id == p)) [
          | inl here ↦ ground (arith, eq_iff id p)
          | inr there ↦ check_streams_sound expected ids p (ground arith) (ground arith)
        ]
      ]

  -- A stream that is checked is as long as expected.
  pub check_streams_current :
      (view : LogView P) (expected : Dict Version) (p : PacketId) {v n : ℕ}
      → IsRead view reads
      → check_streams path_id reads expected (sorted_ids expected) ≡ ok tt
      → get p expected ≡ some v
      → view (stream_at (path_id p)) ≡ stream_document n
      → n < 2 ^ 63
      → v ≡ n
  unfolding decode_stream_version
  check_streams_current view expected p {v} {n} read h g at_p b =
      let sound =
        check_streams_sound expected (sorted_ids expected) p h
          (contains-sorted_ids p expected ∙ ground arith) in
      elim (read (stream_at (path_id p))) [
        | inl same ↦ ground (arith, sound, same, at_p, decode-stream_document P n b)
        | inr (e, lost) ↦ absurd (ground (arith, sound, lost))
      ]

  -- A transaction that commits has passed its checks.
  pub append_body_checked :
      (expected : Dict Version) (rs : List EventRecord) (ds : List (EventDocument P))
      (final : Dict Version) (ids : List PacketId) {ws : List (Write Ref (LogDocument P))}
      → append_body path_id expected rs ds final ids reads ≡ ok (tt, ws)
      → (check_streams path_id reads expected ids ≡ ok tt)
        × (ws ≡ create_events path_id rs ds ++ advance_streams path_id reads final ids)
  unfolding append_body
  append_body_checked expected rs ds final ids h = elim (Result-cases (get_all path_id reads ids)) [
    | inr (e, bad) ↦ absurd (ground arith)
    | inl (_, good) ↦ elim (Result-cases (check_streams path_id reads expected ids)) [
      | inr (e, bad) ↦ absurd (ground arith)
      | inl (_, fine) ↦ (fine, ground arith)
    ]
  ]
