-- ===== src/Packet/Batch/Expected.antt =====
-- `appendLocked` expects of every packet that it touches the version of the stream that the tracker
-- has cached.
use work_tracker.Prelude.{
  ℕ, ◌≡◌, refl, ◌∙◌, sym, subst, ◌⊎◌, inl, inr, false, none, some, List, [], ◌∷◌, ◌==◌, arith,
  eq_iff, eq_refl, Bool-cases, Option-cases, length,
}
use work_tracker.Prelude.Dict.{get, get_or, put, get-put}
use work_tracker.Prelude.Result.{ok, Result-cases, ok-injective}
use work_tracker.Packet.Types.{PacketId, Event, Packet}
use work_tracker.Packet.Apply.{event_packet_id}
use work_tracker.Packet.World.{Tracker}
use work_tracker.Packet.Batch.{Batch, touch, enter, add_event, add_events}
use work_tracker.Packet.Batch.Records.{Added, added, events_at, events_at-cons, touch_keeps}

-- The length of the cached stream of a packet.
abbrev pub cached_length : Tracker → PacketId → ℕ
cached_length t p = length (get_or [] (get p t.streams))

-- A packet is not in the batch yet, or its cached version is expected.
abbrev Noted : Tracker → Batch → PacketId → Type 0
Noted t b p = (get p b.working ≡ none) ⊎ (get p b.expected ≡ some (cached_length t p))

touch_absent :
    (t : Tracker) (id : PacketId) (b : Batch)
    → get id b.working ≡ none
    → (touch t id b).expected ≡ put id (cached_length t id) b.expected
unfolding touch
touch_absent t id b h = ground arith

touch_present :
    (t : Tracker) (id : PacketId) (b : Batch) {q : Packet}
    → get id b.working ≡ some q
    → (touch t id b).expected ≡ b.expected
unfolding touch
touch_present t id b h = ground arith

touch_own :
    (t : Tracker) (p : PacketId) (b : Batch)
    → Noted t b p
    → get p (touch t p b).expected ≡ some (cached_length t p)
touch_own t p b (inl absent) = rw (touch_absent t p b absent, get-put, eq_refl)
touch_own t p b (inr noted) = elim (Option-cases (get p b.working)) [
  | inl absent ↦ rw (touch_absent t p b absent, get-put, eq_refl)
  | inr (q, found) ↦ rw (touch_present t p b found) noted
]

touch_other :
    (t : Tracker) (id p : PacketId) (b : Batch)
    → (id == p) ≡ false
    → get p (touch t id b).expected ≡ get p b.expected
touch_other t id p b other = elim (Option-cases (get id b.working)) [
  | inl absent ↦ rw (touch_absent t id b absent, get-put, other)
  | inr (q, found) ↦ rw (touch_present t id b found)
]

enter_keeps : (e : Event) (q : Packet) (b : Batch) → (enter e q b).expected ≡ b.expected
unfolding enter
enter_keeps e q b = refl

Added-own :
    (t : Tracker) (b : Batch) (e : Event) {next : Batch}
    → Added t b e next
    → Noted t b (event_packet_id e)
    → get (event_packet_id e) next.expected ≡ some (cached_length t (event_packet_id e))
unfolding enter
Added-own t b e a n = rw a.entered (touch_own t (event_packet_id e) b n)

Added-other :
    (t : Tracker) (b : Batch) (e : Event) {next : Batch} (p : PacketId)
    → Added t b e next
    → (event_packet_id e == p) ≡ false
    → Noted t b p
    → Noted t next p
unfolding enter
Added-other t b e p a other (inl absent) =
    inl (rw (a.entered, get-put, other, (touch_keeps t (event_packet_id e) b).1) absent)
Added-other t b e p a other (inr noted) =
    inr (rw a.entered (touch_other t (event_packet_id e) p b other ∙ noted))

Added-Noted :
    (t : Tracker) (b : Batch) (e : Event) {next : Batch} (p : PacketId)
    → Added t b e next
    → Noted t b p
    → (events_at p (e ∷ []) ≡ [] × Noted t next p)
      ⊎ (get p next.expected ≡ some (cached_length t p))
Added-Noted t b e {next} p a n = elim (Bool-cases (event_packet_id e == p)) [
  | inl own ↦
      let same = (eq_iff (event_packet_id e) p).0 own in
      inr (
        subst (λ (j : PacketId). get j next.expected ≡ some (cached_length t j)) same
          (Added-own t b e a (subst (λ (j : PacketId). Noted t b j) (sym same) n)))
  | inr other ↦ inl (rw other, Added-other t b e p a other n)
]

Added-keeps :
    (t : Tracker) (b : Batch) (e : Event) {next : Batch} (p : PacketId)
    → Added t b e next
    → get p b.expected ≡ some (cached_length t p)
    → get p next.expected ≡ some (cached_length t p)
unfolding enter
Added-keeps t b e {next} p a n = elim (Bool-cases (event_packet_id e == p)) [
  | inl own ↦
      let same = (eq_iff (event_packet_id e) p).0 own in
      subst (λ (j : PacketId). get j next.expected ≡ some (cached_length t j)) same
        (Added-own t b e a (
          inr (subst (λ (j : PacketId). get j b.expected ≡ some (cached_length t j)) (sym same) n)))
  | inr other ↦ rw a.entered (touch_other t (event_packet_id e) p b other ∙ n)
]

add_events_keeps :
    (t : Tracker) (b : Batch) (es : List Event) {next : Batch} (p : PacketId)
    → add_events t b es ≡ ok next
    → get p b.expected ≡ some (cached_length t p)
    → get p next.expected ≡ some (cached_length t p)
unfolding add_events
add_events_keeps t b [] p h n = rw (← ok-injective h) n
add_events_keeps t b (e ∷ es) {next} p h n = elim (Result-cases (add_event t b e)) [
  | inr (x, bad) ↦ absurd (ground arith)
  | inl (mid, good) ↦
      add_events_keeps t mid es {next = next} p (ground arith)
        (Added-keeps t b e p (added t b e good) n)
]

-- A packet that the batch touches is expected at its cached version.
pub add_events-expected :
    (t : Tracker) (b : Batch) (es : List Event) {next : Batch} (p : PacketId)
    → add_events t b es ≡ ok next
    → Noted t b p
    → (events_at p es ≡ []) ⊎ (get p next.expected ≡ some (cached_length t p))
unfolding add_events
add_events-expected t b [] p h n = inl refl
add_events-expected t b (e ∷ es) {next} p h n = elim (Result-cases (add_event t b e)) [
  | inr (x, bad) ↦ absurd (ground arith)
  | inl (mid, good) ↦
      let rest : add_events t mid es ≡ ok next = ground arith in
      elim (Added-Noted t b e p (added t b e good) n) [
        | inl (none_here, noted) ↦ elim (add_events-expected t mid es p rest noted) [
          | inl none_later ↦ inl (sym (events_at-cons p e es) ∙ rw (none_here, none_later))
          | inr found ↦ inr found
        ]
        | inr here ↦ inr (add_events_keeps t mid es p rest here)
      ]
]
