-- ===== src/Packet/Batch/Records.antt =====
-- The records that `appendLocked` builds are the given events, and the working packets are their
-- replay on the projection.
use work_tracker.Prelude.{
  ◌+◌, length, length-append, ◌≡◌, refl, ◌∙◌, ap, subst, some, List, [], ◌∷◌, ◌++◌, ◌==◌, arith,
  eq_iff, keep, Bool-cases, inl, inr, if◌then◌else◌,
}
use work_tracker.Prelude.Dict.{get, get_or, get-put}
use work_tracker.Prelude.Result.{ok, Result-cases, ok-injective}
use work_tracker.Packet.Types.{PacketId, Event, Packet, zero_packet}
use work_tracker.Packet.Apply.{event_packet_id, apply_event, replay}
use work_tracker.Packet.Apply.History.{replay-append}
use work_tracker.Packet.Store.{EventRecord}
use work_tracker.Packet.Store.Streams.{stream, keep-append}
use work_tracker.Packet.World.{Tracker}
use work_tracker.Packet.Loading.Rebuilt.{events}
use work_tracker.Packet.Batch.{Batch, touch, current, enter, add_event, add_events}
use mathlib.Core.List.{append-nil, append_assoc}

-- The events of one packet.
abbrev pub events_at : PacketId → List Event → List Event
events_at p = keep (λ e. event_packet_id e == p)

pub events_at-cons :
    (p : PacketId) (e : Event) (es : List Event)
    → events_at p (e ∷ []) ++ events_at p es ≡ events_at p (e ∷ es)
events_at-cons p e es = elim (Bool-cases (event_packet_id e == p)) [
  | inl own ↦ rw own
  | inr other ↦ rw other
]

pub events-append : (xs ys : List EventRecord) → events (xs ++ ys) ≡ events xs ++ events ys
events-append [] ys = refl
events-append (x ∷ xs) ys = ground (arith, events-append xs ys)

-- One accepted round of the loop.
pub record Added (t : Tracker) (b : Batch) (event : Event) (next : Batch) : Type 0 where
  pub packet : Packet
  pub applied : apply_event (current t b (event_packet_id event)) event ≡ ok packet
  pub entered : next ≡ enter event packet (touch t (event_packet_id event) b)

pub added :
    (t : Tracker) (b : Batch) (event : Event) {next : Batch}
    → add_event t b event ≡ ok next
    → Added t b event next
unfolding add_event
added t b event h = elim (Result-cases (apply_event (current t b (event_packet_id event)) event)) [
  | inr (x, e) ↦ absurd (ground arith)
  | inl (packet, applied) ↦ record { packet = packet; applied = applied; entered = ground arith }
]

pub touch_keeps :
    (t : Tracker) (id : PacketId) (b : Batch)
    → ((touch t id b).records ≡ b.records) × ((touch t id b).working ≡ b.working)
unfolding touch
touch_keeps t id b = ground arith

-- The batch's packets are the replay of its records on the projection.
abbrev pub Tracks : Tracker → Batch → PacketId → Type 0
Tracks t b p =
    replay (get_or zero_packet (get p t.projection)) (events (stream p b.records))
    ≡ ok (current t b p)

pub record Entered (t : Tracker) (b next : Batch) (p : PacketId) (es : List Event) : Type 0 where
  pub records : events (stream p next.records) ≡ events (stream p b.records) ++ events_at p es
  pub tracks : Tracks t next p

stream-enter :
    (event : Event) (packet : Packet) (b : Batch) (p : PacketId)
    → events (stream p (enter event packet b).records)
      ≡ events (stream p b.records) ++ events_at p (event ∷ [])
unfolding enter
stream-enter event packet b p =
    let last : EventRecord = record {
      packet_id = event_packet_id event;
      stream_version = get_or 0 (get (event_packet_id event) b.next);
      event = some event;
    } in
    ap events (keep-append (λ (r : EventRecord). r.packet_id == p) b.records (last ∷ []))
    ∙ events-append (stream p b.records) (stream p (last ∷ []))
    ∙ elim (Bool-cases (event_packet_id event == p)) [ inl own ↦ rw own | inr other ↦ rw other ]

working-enter :
    (event : Event) (packet : Packet) (b : Batch) (p : PacketId)
    → get p (enter event packet b).working
      ≡ (if event_packet_id event == p then some packet else get p b.working)
unfolding enter
working-enter event packet b p = get-put (event_packet_id event) p packet b.working

replay-one : (p : Packet) (e : Event) → replay p (e ∷ []) ≡ apply_event p e
unfolding replay
replay-one p e = elim (Result-cases (apply_event p e)) [ inl (q, h) ↦ rw h | inr (x, h) ↦ rw h ]

Added-Entered :
    (t : Tracker) (b : Batch) (event : Event) {next : Batch} (p : PacketId)
    → Added t b event next
    → Tracks t b p
    → Entered t b next p (event ∷ [])
Added-Entered t b event {next} p a tr =
    let id : PacketId = event_packet_id event in
    let kept = touch_keeps t id b in
    let recorded : events (stream p next.records)
        ≡ events (stream p b.records) ++ events_at p (event ∷ []) =
      rw (a.entered, stream-enter event a.packet (touch t id b) p, kept.0) in
    let works : get p next.working ≡ (if id == p then some a.packet else get p b.working) =
      rw (a.entered, working-enter event a.packet (touch t id b) p, kept.1) in
    record {
      records = recorded;
      tracks =
          rw (recorded, works)
            (elim (Bool-cases (id == p)) [
              | inl own ↦
                  let at_p : apply_event (current t b p) event ≡ ok a.packet =
                    subst (λ (j : PacketId). apply_event (current t b j) event ≡ ok a.packet)
                      ((eq_iff id p).0 own) a.applied in
                  rw (own, replay-append, tr) (replay-one (current t b p) event ∙ at_p)
              | inr other ↦ rw (other, append-nil) tr
            ]);
    }

length-enter :
    (e : Event) (q : Packet) (b : Batch) → length (enter e q b).records ≡ length b.records + 1
unfolding enter
length-enter e q b = length-append b.records _ ∙ refl

pub length-add_events :
    (t : Tracker) (b : Batch) (es : List Event) {next : Batch}
    → add_events t b es ≡ ok next
    → length next.records ≡ length b.records + length es
unfolding add_events
length-add_events t b [] h = ground arith
length-add_events t b (e ∷ es) {next} h = elim (Result-cases (add_event t b e)) [
  | inr (x, bad) ↦ absurd (ground arith)
  | inl (mid, good) ↦
      let a = added t b e good in
      let one : length mid.records ≡ length b.records + 1 =
        rw a.entered (length-enter e a.packet (touch t (event_packet_id e) b))
        ∙ ap (λ rs. length rs + 1) (touch_keeps t (event_packet_id e) b).0 in
      omega (arith, length-add_events t mid es {next = next} (ground arith), one)
]

-- The whole loop: the records of each packet are its events in order, and the working packet is
-- their replay.
pub add_events-Entered :
    (t : Tracker) (b : Batch) (es : List Event) {next : Batch} (p : PacketId)
    → add_events t b es ≡ ok next
    → Tracks t b p
    → Entered t b next p es
unfolding add_events
add_events-Entered t b [] {next} p h tr =
    subst (λ (n : Batch). Entered t b n p []) (ok-injective h)
      (record { records = rw append-nil; tracks = tr })
add_events-Entered t b (e ∷ es) {next} p h tr = elim (Result-cases (add_event t b e)) [
  | inr (x, bad) ↦ absurd (ground arith)
  | inl (mid, good) ↦
      let first = Added-Entered t b e p (added t b e good) tr in
      let rest = add_events-Entered t mid es {next = next} p (ground arith) first.tracks in
      record {
        records =
            rest.records
            ∙ ap (λ xs. xs ++ events_at p es) first.records
            ∙ append_assoc (events (stream p b.records)) (events_at p (e ∷ [])) (events_at p es)
            ∙ ap (λ xs. events (stream p b.records) ++ xs) (events_at-cons p e es);
        tracks = rest.tracks;
      }
]
