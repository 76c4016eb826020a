-- ===== src/Packet/Loading/Rebuilt.antt =====
-- What the loop over the loaded records computes: each packet's events, and their replay.
use work_tracker.Prelude.{
  ◌≡◌, refl, ◌∙◌, subst, true, false, Option, none, some, List, [], ◌∷◌, ◌++◌, ◌==◌, arith, eq_iff,
  eq_refl, inl, inr, Bool-cases,
}
use work_tracker.Prelude.Dict.{get, get_or, put, get-put}
use work_tracker.Prelude.Result.{ok, Result-cases, ok-injective}
use work_tracker.Packet.Types.{PacketId, Event, Packet, zero_packet}
use work_tracker.Packet.Apply.{apply_event, replay}
use work_tracker.Packet.Apply.History.{replay-append}
use work_tracker.Packet.Store.{EventRecord}
use work_tracker.Packet.Store.Streams.{stream}
use work_tracker.Packet.Loading.{Loading, load_record, load_records, own_event}
use mathlib.Core.List.{append-nil, append_assoc}

-- The events of some records.
abbrev pub events : List EventRecord → List Event
events [] = []
events (r ∷ rs) = elim r.event [ none ↦ events rs | some e ↦ e ∷ events rs ]

-- What the two maps hold for a packet with these events: nothing for none, and else the events and
-- their replay.
abbrev pub Holds : List Event → Option (List Event) → Option Packet → Type 0
Holds [] history projected = (history ≡ none) × (projected ≡ none)
Holds (e ∷ es) history projected =
    (history ≡ some (e ∷ es))
    × ((q : Packet) × (projected ≡ some q) × (replay zero_packet (e ∷ es) ≡ ok q))

pub Holds-events :
    (es : List Event) (history : Option (List Event)) (projected : Option Packet)
    → Holds es history projected
    → get_or [] history ≡ es
Holds-events [] history projected h = ground arith
Holds-events (e ∷ es) history projected h = ground arith

pub Holds-replay :
    (es : List Event) (history : Option (List Event)) (projected : Option Packet)
    → Holds es history projected
    → replay zero_packet es ≡ ok (get_or zero_packet projected)
unfolding replay
Holds-replay [] history projected h = ground arith
Holds-replay (e ∷ es) history projected h = rw h.1.1 h.1.2

Holds-snoc :
    (es : List Event) (e : Event) (q : Packet)
    → replay zero_packet (es ++ e ∷ []) ≡ ok q
    → Holds (es ++ e ∷ []) (some (es ++ e ∷ [])) (some q)
Holds-snoc [] e q r = (refl, (q, refl, r))
Holds-snoc (x ∷ es) e q r = (refl, (q, refl, r))

-- One accepted round of the loop.
record Round (acc : Loading) (r : EventRecord) (next : Loading) : Type 0 where
  event : Event
  packet : Packet
  has : r.event ≡ some event
  applied : apply_event (get_or zero_packet (get r.packet_id acc.rebuilt)) event ≡ ok packet
  streams :
      next.streams
      ≡ put r.packet_id (get_or [] (get r.packet_id acc.streams) ++ event ∷ []) acc.streams
  rebuilt : next.rebuilt ≡ put r.packet_id packet acc.rebuilt

own_event_sound : (r : EventRecord) {e : Event} → own_event r ≡ ok e → r.event ≡ some e
unfolding own_event
own_event_sound r h = ground arith

round :
    (ids : List PacketId) (acc : Loading) (r : EventRecord) {next : Loading}
    → load_record true ids acc r ≡ ok next
    → Round acc r next
unfolding load_record
round ids acc r h = elim (Result-cases (own_event r)) [
  | inr (x, e) ↦ absurd (ground arith)
  | inl (event, own) ↦
      elim (Result-cases (apply_event (get_or zero_packet (get r.packet_id acc.rebuilt)) event)) [
        | inr (x, e) ↦ absurd (ground arith)
        | inl (packet, applied) ↦ record {
          event = event;
          packet = packet;
          has = own_event_sound r own;
          applied = applied;
          streams = ground arith;
          rebuilt = ground arith;
        }
      ]
]

replay-snoc :
    (p : Packet) (es : List Event) (e : Event) {q r : Packet}
    → replay p es ≡ ok q
    → apply_event q e ≡ ok r
    → replay p (es ++ e ∷ []) ≡ ok r
unfolding replay
replay-snoc p es e h a = replay-append p es (e ∷ []) ∙ rw (h, a)

-- One round adds the record's event to the record's packet, and leaves the others alone.
Round-Holds_own :
    (acc : Loading) (r : EventRecord) {next : Loading} (es : List Event)
    → (k : Round acc r next) → Holds es (get r.packet_id acc.streams) (get r.packet_id acc.rebuilt)
    → Holds (es ++ k.event ∷ []) (get r.packet_id next.streams) (get r.packet_id next.rebuilt)
Round-Holds_own acc r es k held =
    let old = Holds-events es (get r.packet_id acc.streams) (get r.packet_id acc.rebuilt) held in
    let replayed =
      Holds-replay es (get r.packet_id acc.streams) (get r.packet_id acc.rebuilt) held in
    rw
      (
        k.streams,
        k.rebuilt,
        get-put r.packet_id r.packet_id,
        get-put r.packet_id r.packet_id k.packet,
        eq_refl,
        old,
      )
      (Holds-snoc es k.event k.packet (replay-snoc zero_packet es k.event replayed k.applied))

Round-Holds_other :
    (acc : Loading) (r : EventRecord) {next : Loading} (p : PacketId) (es : List Event)
    → Round acc r next
    → (r.packet_id == p) ≡ false
    → Holds es (get p acc.streams) (get p acc.rebuilt)
    → Holds es (get p next.streams) (get p next.rebuilt)
Round-Holds_other acc r p es k other held = rw (k.streams, k.rebuilt, get-put, get-put, other) held

-- After the loop each packet has its earlier events and those of its records.
pub load_records-Holds :
    (ids : List PacketId) (acc : Loading) (rs : List EventRecord) {next : Loading} (p : PacketId)
    (es : List Event)
    → load_records true ids acc rs ≡ ok next
    → Holds es (get p acc.streams) (get p acc.rebuilt)
    → Holds (es ++ events (stream p rs)) (get p next.streams) (get p next.rebuilt)
unfolding load_records
load_records-Holds ids acc [] {next} p es h held =
    rw append-nil
      (subst (λ (l : Loading). Holds es (get p l.streams) (get p l.rebuilt)) (ok-injective h) held)
load_records-Holds ids acc (r ∷ rs) {next} p es h held =
    elim (Result-cases (load_record true ids acc r)) [
      | inr (x, e) ↦ absurd (ground arith)
      | inl (mid, accepted) ↦
          let k = round ids acc r accepted in
          let rest : load_records true ids mid rs ≡ ok next = ground arith in
          elim (Bool-cases (r.packet_id == p)) [
            | inl own ↦
                let same : r.packet_id ≡ p = (eq_iff r.packet_id p).0 own in
                let held' =
                  subst
                    (λ (j : PacketId).
                      Holds (es ++ k.event ∷ []) (get j mid.streams) (get j mid.rebuilt))
                    same (Round-Holds_own acc r es k (rw same held)) in
                rw (own, k.has)
                  (rw append_assoc at
                    (load_records-Holds ids mid rs p (es ++ k.event ∷ []) rest held'))
            | inr other ↦ rw other (
                load_records-Holds ids mid rs p es rest (Round-Holds_other acc r p es k other held))
          ]
    ]
