-- ===== src/Packet/Store/Conflict.antt =====
-- Optimistic concurrency: an append with a stale version.
use work_tracker.Prelude.{◌≡◌, refl, ◌≢◌, List, ◌∷◌, length, arith}
use work_tracker.Prelude.Dict.{Dict, get, get_or}
use work_tracker.Prelude.Result.{err}
use work_tracker.Packet.Types.{PacketId, Version, Error, conflict}
use work_tracker.Packet.Store.{EventRecord, MemoryEventStore, append, check_append, check_expected}
use work_tracker.Packet.Store.Streams.{stream}
use work_tracker.Packet.Store.Valid.{IsValid}

stale-refused :
    (versions expected : Dict Version) (p : PacketId) (v n : Version)
    → get_or 0 (get p versions) ≡ n
    → v ≢ n
    → check_expected versions ((p, v) ∷ expected) ≡ err (conflict p v n)
unfolding check_expected
stale-refused versions expected p v n h stale = ground arith

append-refused :
    (expected : Dict Version) (rs : List EventRecord) (s : MemoryEventStore) (e : Error)
    → check_append expected rs s ≡ err e
    → append expected rs s ≡ (err e, s)
unfolding append
append-refused expected rs s e h = rw (append, h) refl

check-stale :
    (expected : Dict Version) (rs : List EventRecord) (s : MemoryEventStore) (e : Error)
    → check_expected s.versions expected ≡ err e
    → check_append expected rs s ≡ err e
unfolding check_append
check-stale expected rs s e h = rw (check_append, h) refl

-- On a valid store, an append whose first expected version is not the length of the packet's stored
-- stream reports the conflict, with both versions, and leaves the store as it was, whatever the batch.
pub append-stale :
    (p : PacketId) (v : Version) (expected : Dict Version) (rs : List EventRecord)
    (s : MemoryEventStore)
    → IsValid s
    → v ≢ length (stream p s.records)
    → append ((p, v) ∷ expected) rs s ≡ (err (conflict p v (length (stream p s.records))), s)
append-stale p v expected rs s valid stale = append-refused ((p, v) ∷ expected) rs s _ (
    check-stale ((p, v) ∷ expected) rs s _
      (stale-refused s.versions expected p v _ (valid.counted p) stale))
