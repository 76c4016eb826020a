-- ===== src/Packet/Tracker/Preserved.antt =====
-- What the interleaved commands of trackers that share a store leave of an issued packet.
use work_tracker.Prelude.{
  ◌+◌, ◌<◌, ◌≡◌, ◌≢◌, ◌∙◌, ap, sym, some, List, [], ◌∷◌, ◌++◌, arith, length, length-append, ◌==◌,
  ◌≤◌, Bool-cases, Option-cases, inl, inr,
}
use work_tracker.Prelude.Result.{ok}
use work_tracker.Packet.Types.{PacketId, Event, Packet, Closure, zero_packet, version_mod}
use work_tracker.Packet.Apply.{replay}
use work_tracker.Packet.Apply.History.{SameScope, replay-SameScope, replay-append, version-replay}
use work_tracker.Packet.Apply.Closed.{OnlyComments, replay-OnlyComments}
use work_tracker.Packet.Store.{EventRecord, MemoryEventStore}
use work_tracker.Packet.Store.Streams.{stream, keep-append}
use work_tracker.Packet.Loading.Rebuilt.{events}
use work_tracker.Packet.Batch.Records.{events-append}
use work_tracker.Packet.Tracker.Sound.{IsSound, HasRoom}
use work_tracker.Packet.Tracker.Shared.{Run, Run-Grows, Grows}

-- The packet that a store holds under an identifier.
pub record Holding (s : MemoryEventStore) (id : PacketId) (p : Packet) : Type 0 where
  pub replayed : replay zero_packet (events (stream id s.records)) ≡ ok p
  pub issued : p.version ≢ 0

-- A later packet is the earlier one after some more events, too few for its version to wrap.
record Since (p q : Packet) : Type 0 where
  later : List Event
  replayed : replay p later ≡ ok q
  bound : p.version + length later < version_mod

length-events-le :
    (rs : List EventRecord) (id : PacketId) → length (events (stream id rs)) ≤ length rs
length-events-le [] id = omega arith
length-events-le (r ∷ rs) id = elim (Bool-cases (r.packet_id == id)) [
  | inl own ↦ rw own (elim (Option-cases r.event) [
    | inl absent ↦ rw absent (omega (arith, length-events-le rs id))
    | inr (e, found) ↦ rw found (omega (arith, length-events-le rs id))
  ])
  | inr other ↦ rw other (omega (arith, length-events-le rs id))
]

Grows-Since :
    {s u : MemoryEventStore} (id : PacketId) {p q : Packet}
    → Grows s u
    → HasRoom u
    → Holding s id p
    → replay zero_packet (events (stream id u.records)) ≡ ok q
    → Since p q
Grows-Since {s} {u} id {p} {q} g room a b =
    let old : List Event = events (stream id s.records) in
    let new : List Event = events (stream id g.records) in
    let grown : events (stream id u.records) ≡ old ++ new =
      ap (λ rs. events (stream id rs)) g.log
      ∙ ap events (keep-append (λ (r : EventRecord). r.packet_id == id) s.records g.records)
      ∙ events-append (stream id s.records) (stream id g.records) in
    let total = length-events-le u.records id in
    let counted : length old + length new ≤ length u.records =
      rw (sym (length-append old new), sym grown) total in
    let version = version-replay zero_packet old a.replayed (omega arith) in
    record {
      later = new;
      replayed = rw (grown, replay-append, a.replayed) at b;
      bound = omega arith;
    }

Since-issued : {p q : Packet} → p.version ≢ 0 → Since p q → q.version ≢ 0
Since-issued {p} i h = λ z. i (omega (arith, version-replay p h.later h.replayed h.bound))

-- On a sound store, an issued packet stays, with the identifier, the tenant, the body and the parent
-- that it was issued with, however the commands of trackers that share the store interleave, while
-- the log has room for one more command.
pub Run-SameScope :
    {s u : MemoryEventStore} (id : PacketId) (p : Packet)
    → Run s u
    → IsSound s
    → HasRoom u
    → Holding s id p
    → (q : Packet) × Holding u id q × SameScope p q
Run-SameScope id p run sound room h =
    let g = Run-Grows run sound in
    let (q, replayed) = g.sound.replays id in
    let since = Grows-Since id g room h replayed in
    (
      q,
      record { replayed = replayed; issued = Since-issued h.issued since },
      replay-SameScope p since.later since.replayed h.issued since.bound,
    )

-- On a sound store, an issued packet that is closed stays as it was but for its comments and its
-- version, however the commands of trackers that share the store interleave, while the log has room
-- for one more command.
pub Run-OnlyComments :
    {s u : MemoryEventStore} (id : PacketId) (p : Packet) {c : Closure}
    → Run s u
    → IsSound s
    → HasRoom u
    → Holding s id p
    → p.closure ≡ some c
    → (q : Packet) × Holding u id q × OnlyComments p q
Run-OnlyComments id p run sound room h closed =
    let g = Run-Grows run sound in
    let (q, replayed) = g.sound.replays id in
    let since = Grows-Since id g room h replayed in
    (
      q,
      record { replayed = replayed; issued = Since-issued h.issued since },
      replay-OnlyComments p since.later since.replayed h.issued since.bound closed,
    )
