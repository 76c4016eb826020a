-- ===== src/Packet/Refresh/Synced.antt =====
-- `prepareLocked` over a memory store that other trackers may have written to: whatever the tracker
-- had cached, the packets that it names are then those of the store.
use work_tracker.Prelude.{
  ◌≡◌, refl, ◌∙◌, ap, sym, subst, Bool, true, List, [], ◌∷◌, ◌==◌, arith, eq_iff, keep, Bool-cases,
  inl, inr, if◌then◌else◌,
}
use work_tracker.Prelude.Dict.{get}
use work_tracker.Prelude.NameSet.{NameSet, contains}
use work_tracker.Prelude.Result.{ok, Result-cases}
use work_tracker.Packet.Types.{PacketId}
use work_tracker.Packet.Store.{EventRecord, MemoryEventStore, memory, load}
use work_tracker.Packet.Store.Streams.{stream}
use work_tracker.Packet.Store.Valid.{IsValid}
use work_tracker.Packet.World.{Tracker, World}
use work_tracker.Packet.Loading.{Loading, sort_records, start_ids, load_records, install}
use work_tracker.Packet.Loading.Sort.{stream-sort_records}
use work_tracker.Packet.Loading.Rebuilt.{events, Holds, load_records-Holds}
use work_tracker.Packet.Loading.Installed.{covers, install_covered}
use work_tracker.Packet.Refresh.{refresh_locked, prepare_locked}

-- The tracker's entries of a packet are its stored events and their replay.
abbrev pub IsSynced : PacketId → Tracker → MemoryEventStore → Type 0
IsSynced p t s = Holds (events (stream p s.records)) (get p t.streams) (get p t.projection)

keep-keep {ℓ} :
    {A : Type ℓ} (p q : A → Bool) (xs : List A)
    → ((x : A) → p x ≡ true → q x ≡ true)
    → keep p (keep q xs) ≡ keep p xs
keep-keep p q [] h = refl
keep-keep p q (x ∷ xs) h = elim (Bool-cases (q x)) [
  | inl kept ↦ rw kept (ap (λ r. if p x then x ∷ r else r) (keep-keep p q xs h))
  | inr dropped ↦ elim (Bool-cases (p x)) [
    | inl wanted ↦ absurd (cc (h x wanted))
    | inr other ↦ rw (dropped, other) (keep-keep p q xs h)
  ]
]

-- Loading some packets gives their whole streams.
pub stream-load :
    (ids : List PacketId) (s : MemoryEventStore) (p : PacketId)
    → covers ids p ≡ true
    → stream p (load ids s) ≡ stream p s.records
unfolding load
stream-load [] s p c = refl
stream-load (id ∷ ids) s p c =
    keep-keep (λ (r : EventRecord). r.packet_id == p)
      (λ (r : EventRecord). contains r.packet_id (id ∷ ids)) s.records
      (λ r same.
        subst (λ (j : PacketId). contains j (id ∷ ids) ≡ true) (sym ((eq_iff r.packet_id p).0 same))
          c)

-- What a successful refresh leaves.
pub record Refreshed (ids : List PacketId) (w w' : World MemoryEventStore) : Type 0 where
  pub same_store : w'.store ≡ w.store
  pub synced : (p : PacketId) → covers ids p ≡ true → IsSynced p w'.tracker w.store

-- The loop's result on the sorted records of a valid store.
loaded_streams :
    (ids : List PacketId) (s : MemoryEventStore) (start : NameSet) {loaded : Loading} (p : PacketId)
    → IsValid s
    → load_records true ids
        (record { streams = []; rebuilt = []; event_ids = start })
        (sort_records (load ids s))
      ≡ ok loaded
    → covers ids p ≡ true
    → Holds (events (stream p s.records)) (get p loaded.streams) (get p loaded.rebuilt)
unfolding get
loaded_streams ids s start p v h c =
    let same : stream p (load ids s) ≡ stream p s.records = stream-load ids s p c in
    let sorted : stream p (sort_records (load ids s)) ≡ stream p s.records =
      stream-sort_records (load ids s) p 1 (rw same (v.numbered p)) ∙ same in
    rw sorted at (
      load_records-Holds ids (record { streams = []; rebuilt = []; event_ids = start })
        (sort_records (load ids s)) p [] h (refl, refl))

pub refresh_locked-ok :
    (ids : List PacketId) (w : World MemoryEventStore) {w' : World MemoryEventStore}
    → IsValid w.store
    → refresh_locked memory true ids w ≡ (ok tt, w')
    → Refreshed ids w w'
unfolding refresh_locked
refresh_locked-ok ids w {w'} v h =
    elim (Result-cases (
      load_records true ids
        (record { streams = []; rebuilt = []; event_ids = start_ids true ids w.tracker })
        (sort_records (load ids w.store)))) [
          | inr (x, e) ↦ absurd (ground arith)
          | inl (loaded, e) ↦
              let ended : w' ≡ record w { tracker = install true ids loaded w.tracker } =
                ground arith in
              rw ended (record {
                same_store = refl;
                synced = λ p c.
                    let (at_streams, at_projection) = install_covered ids loaded w.tracker p c in
                    rw (at_streams, at_projection)
                      (loaded_streams ids w.store (start_ids true ids w.tracker) p v e c);
              })
        ]

-- After a successful `prepareLocked` on a valid store, the store is as it was, and each packet that was
-- named, or every one where none was named, has in the tracker its stored stream and the replay of it.
pub prepare_locked-ok :
    (ids : List PacketId) (w : World MemoryEventStore) {w' : World MemoryEventStore}
    → IsValid w.store
    → prepare_locked memory ids w ≡ (ok tt, w')
    → Refreshed ids w w'
unfolding prepare_locked
prepare_locked-ok ids w v h = elim (Bool-cases w.tracker.projection_ready) [
  | inl ready ↦ refresh_locked-ok ids w v (ground arith)
  | inr dropped ↦ absurd (ground arith)
]

pub store-refresh_locked :
    (rebuild : Bool) (ids : List PacketId) (w : World MemoryEventStore)
    → (refresh_locked memory rebuild ids w).1.store ≡ w.store
unfolding refresh_locked
store-refresh_locked rebuild ids w = ground arith

pub store-prepare_locked :
    (ids : List PacketId) (w : World MemoryEventStore)
    → (prepare_locked memory ids w).1.store ≡ w.store
unfolding prepare_locked
store-prepare_locked ids w = ground (arith, store-refresh_locked true ids w)
