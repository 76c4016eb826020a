-- ===== src/Packet/Batch/Appended.antt =====
-- How `appendLocked` ends over a memory store: the whole batch is in the store and the projection,
-- or the store is as it was.
use work_tracker.Prelude.{
  ◌+◌, ◌<◌, ◌≡◌, refl, ◌∙◌, ap, true, Option, none, some, List, [], ◌∷◌, ◌++◌, ◌==◌, arith,
  Bool-cases, inl, inr, ◌⊎◌, length,
}
use work_tracker.Prelude.Dict.{Dict, get, get_or, get-put}
use work_tracker.Prelude.Result.{ok, err, Result-cases}
use work_tracker.Packet.Types.{PacketId, version_mod, Event, Packet, Error, zero_packet, Fallible}
use work_tracker.Packet.Apply.{replay}
use work_tracker.Packet.Store.{EventRecord, MemoryEventStore, memory, append}
use work_tracker.Packet.Store.Streams.{stream}
use work_tracker.Packet.Store.Valid.{IsValid, Fits, Outcome, append-Outcome}
use work_tracker.Packet.World.{Tracker, World}
use work_tracker.Packet.Loading.Rebuilt.{events}
use work_tracker.Packet.Refresh.Synced.{store-refresh_locked}
use work_tracker.Packet.Batch.{
  Batch, empty_batch, add_events, extend_projection, install_batch, finish, append_locked, current,
}
use work_tracker.Packet.Batch.Expected.{cached_length, add_events-expected}
use work_tracker.Packet.Batch.Records.{events_at, Entered, add_events-Entered, length-add_events}

abbrev overlay : Option Packet → Option Packet → Option Packet
overlay none old = old
overlay (some p) old = some p

get-extend_projection :
    (working projection : Dict Packet) (p : PacketId)
    → get p (extend_projection working projection) ≡ overlay (get p working) (get p projection)
unfolding extend_projection get
get-extend_projection [] projection p = refl
get-extend_projection ((id, q) ∷ working) projection p =
    get-put id p q (extend_projection working projection) ∙ elim (Bool-cases (id == p)) [
      | inl own ↦ rw own
      | inr other ↦ rw other (get-extend_projection working projection p)
    ]

-- The packet as the tracker's projection has it.
abbrev pub projected_at : PacketId → Tracker → Packet
projected_at p t = get_or zero_packet (get p t.projection)

get_or-overlay :
    (o old : Option Packet) → get_or zero_packet (overlay o old) ≡ get_or (get_or zero_packet old) o
get_or-overlay none old = refl
get_or-overlay (some q) old = refl

pub record Appended (es : List Event) (w w' : World MemoryEventStore) : Type 0 where
  pub records : List EventRecord
  -- the log grows by one record for each event, the events of each packet in order
  pub log : w'.store.records ≡ w.store.records ++ records
  pub own : (p : PacketId) → events (stream p records) ≡ events_at p es
  pub count : length records ≡ length es
  pub valid : IsValid w'.store
  -- the stream of each packet of the batch was the one that the tracker had cached
  pub current_version :
      (p : PacketId)
      → (events_at p es ≡ []) ⊎ (cached_length w.tracker p ≡ length (stream p w.store.records))
  -- the projection has replayed them
  pub replayed :
      (p : PacketId)
      → replay (projected_at p w.tracker) (events_at p es) ≡ ok (projected_at p w'.tracker)

pub data Ended (es : List Event) (w : World MemoryEventStore)
    : Fallible Unit × World MemoryEventStore → Type 0 where
  appended : {w' : World MemoryEventStore} → Appended es w w' → Ended es w (ok tt, w')
  failed : (e : Error) {w' : World MemoryEventStore} → w'.store ≡ w.store → Ended es w (err e, w')

module _ (es : List Event) (w : World MemoryEventStore) (b : Batch)
    (built : add_events w.tracker empty_batch es ≡ ok b) where
  entered : (p : PacketId) → Entered w.tracker empty_batch b p es
  unfolding replay get
  entered p = add_events-Entered w.tracker empty_batch es p built refl

  projected_after :
      (p : PacketId) → projected_at p (install_batch b w.tracker) ≡ current w.tracker b p
  unfolding install_batch
  projected_after p =
      ap (get_or zero_packet) (get-extend_projection b.working w.tracker.projection p)
      ∙ get_or-overlay (get p b.working) (get p w.tracker.projection)

  expected :
      (p : PacketId) → (events_at p es ≡ []) ⊎ (get p b.expected ≡ some (cached_length w.tracker p))
  unfolding get
  expected p = add_events-expected w.tracker empty_batch es p built (inl refl)

  version_was :
      (p : PacketId)
      → Fits b.expected b.records w.store
      → (events_at p es ≡ []) ⊎ (get p b.expected ≡ some (cached_length w.tracker p))
      → (events_at p es ≡ []) ⊎ (cached_length w.tracker p ≡ length (stream p w.store.records))
  version_was p fits (inl untouched) = inl untouched
  version_was p fits (inr found) = inr (fits.current p (cached_length w.tracker p) found)

  finish-Ended :
      (r : Fallible Unit × MemoryEventStore)
      → Outcome b.expected b.records w.store r
      → Ended es w (finish memory b w r)
  unfolding finish
  finish-Ended _ (Outcome.stored fits log valid) = Ended.appended (record {
    records = b.records;
    log = log;
    own = λ p. (entered p).records;
    count = length-add_events w.tracker empty_batch es built ∙ omega arith;
    valid = valid;
    current_version = λ p. version_was p fits (expected p);
    replayed = λ p. rw (projected_after p) (rw (entered p).records at (entered p).tracks);
  })
  finish-Ended _ (Outcome.refused e) = Ended.failed e (store-refresh_locked true _ w)

-- On a valid memory store whose versions do not wrap, a batch of events is either refused, and the
-- store is unchanged, or appended as a whole: the log grows by exactly these events, and each packet's
-- projection is its old one with its events replayed.
pub append_locked-Ended :
    (es : List Event) (w : World MemoryEventStore)
    → length w.store.records + length es + 1 < version_mod
    → IsValid w.store
    → Ended es w (append_locked memory es w)
unfolding append_locked
append_locked-Ended es w bound valid = elim (Result-cases (add_events w.tracker empty_batch es)) [
  | inr (e, bad) ↦ rw (bad, append_locked) (Ended.failed e refl)
  | inl (b, good) ↦
      rw (good, append_locked)
        (finish-Ended es w b good (append b.expected b.records w.store) (
          append-Outcome b.expected b.records w.store
            (omega (arith, length-add_events w.tracker empty_batch es good)) valid))
]
