-- ===== src/Packet/Tracker/Sound.antt =====
-- What a command of any tracker, whatever it has cached, does to the store that trackers share.
use work_tracker.Prelude.{
  ◌+◌, ◌≤◌, ◌<◌, ◌≡◌, refl, ◌∙◌, ap, sym, true, false, Option, none, some, List, [], ◌∷◌, ◌++◌,
  ◌==◌, arith, eq_iff, All, length, Bool-cases, inl, inr, Option-cases, suc, length-append, not,
}
use work_tracker.Prelude.Result.{ok}
use work_tracker.Packet.Types.{PacketId, Event, Packet, zero_packet, version_mod, Fallible}
use work_tracker.Packet.Apply.{event_packet_id, replay}
use work_tracker.Packet.Apply.History.{replay-append}
use work_tracker.Packet.Store.{EventRecord, MemoryEventStore, empty_store}
use work_tracker.Packet.Store.Streams.{stream, keep-append, IsOwn}
use work_tracker.Packet.Store.Valid.{IsValid, empty_store-IsValid}
use work_tracker.Packet.World.{World}
use work_tracker.Packet.Loading.Rebuilt.{events, Holds-replay, Holds-events}
use work_tracker.Packet.Loading.Installed.{covers}
use work_tracker.Packet.Refresh.Synced.{IsSynced}
use work_tracker.Packet.Batch.Expected.{cached_length}
use work_tracker.Packet.Batch.Records.{events_at, events-append}
use work_tracker.Packet.Batch.Appended.{Appended, Ended, projected_at}
use work_tracker.Packet.Tracker.Plans.{IsPlanned}
use mathlib.Core.List.{append-nil}

-- The log is well formed, and every stream in it is accepted by the domain rules from the start.
pub record IsSound (s : MemoryEventStore) : Type 0 where
  pub valid : IsValid s
  pub replays :
      (p : PacketId) → (q : Packet) × (replay zero_packet (events (stream p s.records)) ≡ ok q)

pub empty_store-IsSound : IsSound empty_store
unfolding replay
empty_store-IsSound = record { valid = empty_store-IsValid; replays = λ p. (zero_packet, refl) }

-- A sound store that has the old log and at most three records more.
pub record Extends (s s' : MemoryEventStore) : Type 0 where
  pub records : List EventRecord
  pub log : s'.records ≡ s.records ++ records
  pub few : length records ≤ 3
  pub sound : IsSound s'

-- Room for one more command before a version could wrap.
abbrev pub HasRoom : MemoryEventStore → Type 0
HasRoom s = length s.records + 4 < version_mod

pub Extends-refl : {s : MemoryEventStore} → IsSound s → Extends s s
Extends-refl {s} h = record {
  records = [];
  log = sym (append-nil s.records);
  few = omega arith;
  sound = h;
}

-- Events of a packet that the command did not prepare are none.
events_at_uncovered :
    (ids : List PacketId) (es : List Event) (p : PacketId)
    → All (λ e. covers ids (event_packet_id e) ≡ true) es
    → covers ids p ≡ false
    → events_at p es ≡ []
events_at_uncovered ids [] p a c = refl
events_at_uncovered ids (e ∷ es) p a c = elim (Bool-cases (event_packet_id e == p)) [
  | inl same ↦ absurd (cc (a.0, c, ap (covers ids) ((eq_iff (event_packet_id e) p).0 same)))
  | inr other ↦ rw other (events_at_uncovered ids es p a.1 c)
]

length-events :
    (rs : List EventRecord) (p : PacketId)
    → All IsOwn rs
    → length (events (stream p rs)) ≡ length (stream p rs)
length-events [] p a = refl
length-events (r ∷ rs) p a = elim (Bool-cases (r.packet_id == p)) [
  | inl own ↦ rw own (elim (Option-cases r.event) [
    | inl absent ↦ absurd (
        cc (
          ap
              (λ (e : Option Event). elim e [
                | none ↦ true
                | some x ↦ not (event_packet_id x == r.packet_id)
              ])
              absent,
          a.0,
        ))
    | inr (e, found) ↦ rw found (ap suc (length-events rs p a.1))
  ])
  | inr other ↦ rw other (length-events rs p a.1)
]

empty_of_length {ℓ} : {A : Type ℓ} (xs : List A) → length xs ≡ 0 → xs ≡ []
empty_of_length [] h = refl
empty_of_length (x ∷ xs) h = absurd (omega arith)

-- A tracker has prepared some packets at the log of `s`; `more` was appended since, by others.
module _ (ids : List PacketId) (s : MemoryEventStore) (more : List EventRecord)
    (w : World MemoryEventStore) where
  pub record IsPrepared : Type 0 where
    pub earlier : IsValid s
    pub later : w.store.records ≡ s.records ++ more
    pub synced : (p : PacketId) → covers ids p ≡ true → IsSynced p w.tracker s
    pub sound : IsSound w.store

  stream-later :
      IsPrepared → (p : PacketId) → stream p w.store.records ≡ stream p s.records ++ stream p more
  stream-later h p =
      ap (stream p) h.later ∙ keep-append (λ (r : EventRecord). r.packet_id == p) s.records more

  -- Where the cached version is still that of the stream, nothing was appended to it.
  still-IsSynced :
      IsPrepared
      → (p : PacketId) → covers ids p ≡ true
      → cached_length w.tracker p ≡ length (stream p w.store.records)
      → IsSynced p w.tracker w.store
  still-IsSynced h p prepared version =
      let cached =
        ap length (Holds-events (events (stream p s.records)) _ _ (h.synced p prepared)) in
      let counted = length-events s.records p h.earlier.own in
      let grown =
        ap length (stream-later h p) ∙ length-append (stream p s.records) (stream p more) in
      let nothing : stream p more ≡ [] = empty_of_length (stream p more) (omega arith) in
      rw (stream-later h p, nothing, append-nil) (h.synced p prepared)

module _ (ids : List PacketId) (es : List Event) (s : MemoryEventStore) (more : List EventRecord)
    (w : World MemoryEventStore) where
  -- An appended batch leaves every stream one that the domain rules accept.
  Appended-IsSound :
      (w' : World MemoryEventStore)
      → IsPrepared ids s more w
      → All (λ e. covers ids (event_packet_id e) ≡ true) es
      → Appended es w w'
      → IsSound w'.store
  Appended-IsSound w' h own a = record { valid = a.valid; replays = replays }
    where
      grown :
          (p : PacketId)
          → events (stream p w'.store.records) ≡ events (stream p w.store.records) ++ events_at p es
      grown p =
          ap (λ rs. events (stream p rs)) a.log
          ∙ ap events
              (keep-append (λ (r : EventRecord). r.packet_id == p) w.store.records a.records)
          ∙ events-append (stream p w.store.records) (stream p a.records)
          ∙ ap (λ xs. events (stream p w.store.records) ++ xs) (a.own p)

      untouched :
          (p : PacketId)
          → events_at p es ≡ []
          → (q : Packet) × (replay zero_packet (events (stream p w'.store.records)) ≡ ok q)
      untouched p none_here =
          let (q, old) = h.sound.replays p in (q, rw (grown p, none_here, append-nil) old)

      replays :
          (p : PacketId)
          → (q : Packet) × (replay zero_packet (events (stream p w'.store.records)) ≡ ok q)
      replays p = elim (Bool-cases (covers ids p)) [
        | inl prepared ↦ elim (a.current_version p) [
          | inl none_here ↦ untouched p none_here
          | inr version ↦
              let old =
                Holds-replay (events (stream p w.store.records)) _ _
                  (still-IsSynced ids s more w h p prepared version) in
              (projected_at p w'.tracker, rw (grown p, replay-append, old) (a.replayed p))
        ]
        | inr other ↦ untouched p (events_at_uncovered ids es p own other)
      ]

  pub Ended-Extends :
      (r : Fallible Unit × World MemoryEventStore)
      → IsPrepared ids s more w
      → IsPlanned ids es
      → Ended es w r
      → Extends w.store r.1.store
  Ended-Extends _ h planned (Ended.appended {w' = w'} a) = record {
    records = a.records;
    log = a.log;
    few = rw a.count planned.0;
    sound = Appended-IsSound w' h planned.1 a;
  }
  Ended-Extends _ h planned (Ended.failed e same) = rw same (Extends-refl h.sound)
