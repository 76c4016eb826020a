-- ===== src/PacketExport/Accepted.antt =====
-- The records of packets that the domain rules accept are accepted by the reader of an export.
use work_tracker.Prelude.{
  ◌<◌, ◌≡◌, refl, ◌≢◌, ◌∙◌, ap, Bool, true, false, List, [], ◌∷◌, ◌==◌, map, length, eq_iff, arith,
  All, String,
}
use work_tracker.Prelude.Text.{is_blank}
use work_tracker.Prelude.NameSet.{NameSet, contains}
use work_tracker.Prelude.Result.{ok}
use work_tracker.Packet.Types.{
  Time, Status, Event, EventKind, kind, metadata, Packet, zero_packet, version_mod,
  next_version-eq-add,
}
use work_tracker.Packet.Apply.{replay}
use work_tracker.Packet.Apply.Steps.{Moves, Step, start, block_unstarted, finish, block}
use work_tracker.Packet.Apply.History.{replay-cons_ok, version-replay, Step-version}
use work_tracker.Packet.Apply.Closed.{Reaches, here, then_move, replay-Reaches}
use work_tracker.Packet.Store.Identifiers.{Distinct, Apart}
use work_tracker.EventLog.Records.{kind_text}
use work_tracker.PacketExport.{
  make_record, make_history_event, validate_record, validate_history, check_records, status_text,
  supported_status,
}

kind_text-filled : (k : EventKind) → (kind_text k == "") ≡ false
kind_text-filled EventKind.packet_issued = refl
kind_text-filled EventKind.packet_taken = refl
kind_text-filled EventKind.packet_commented = refl
kind_text-filled EventKind.packet_status_transition = refl
kind_text-filled EventKind.packet_superseded = refl
kind_text-filled EventKind.packet_closed = refl

Supported : Status → Type 0
Supported a = supported_status (status_text a) ≡ true

Moves-Supported : {a b : Status} → Moves a b → Supported b
unfolding Supported
Moves-Supported start = refl
Moves-Supported block_unstarted = refl
Moves-Supported finish = refl
Moves-Supported block = refl

Reaches-Supported : {a b : Status} → Supported a → Reaches a b → Supported b
Reaches-Supported s here = s
Reaches-Supported s (then_move m r) = Reaches-Supported (Moves-Supported m) r

-- The first event of a packet is its issue.
first-Supported : (e : Event) {q : Packet} → Step zero_packet e q → Supported q.status
unfolding Supported
first-Supported (Event.issued e) s =
    ap (λ (p : Packet). supported_status (status_text p.status)) s.result
first-Supported (Event.taken e) s = absurd (s.accepted.0.version refl)
first-Supported (Event.commented e) s = absurd (s.accepted.0.version refl)
first-Supported (Event.status_transitioned e) s = absurd (s.accepted.0.version refl)
first-Supported (Event.superseded e) s = absurd (s.accepted.0.version refl)
first-Supported (Event.closed e) s = absurd (s.accepted.0.version refl)

replay-Supported :
    (es : List Event) {p : Packet}
    → replay zero_packet es ≡ ok p
    → es ≢ []
    → length es < version_mod
    → Supported p.status
replay-Supported [] h some_events b = absurd (some_events refl)
replay-Supported (e ∷ es) h some_events b =
    let (r, s, rest) = replay-cons_ok zero_packet e es h in
    let one : r.version ≡ 1 = Step-version s ∙ next_version-eq-add 0 (omega arith) in
    Reaches-Supported (first-Supported e s) (replay-Reaches r es rest (omega arith) (omega arith))

Apart-add :
    (k : String) (old new : NameSet) → contains k new ≡ false → Apart old new → Apart (k ∷ old) new
unfolding contains
Apart-add k old [] c a = tt
Apart-add k old (x ∷ new) c a =
    (ground (arith, eq_iff x k, eq_iff k x), Apart-add k old new (ground arith) a.1)

module _ (format : Time → String) (is_time : String → Bool) where
  -- The time of every event has a text that parses.
  abbrev pub Timed : List Event → Type 0
  Timed = All (λ e. is_time (format (metadata e).at) ≡ true)

  -- The metadata of an event in its record.
  event-made :
      (e : Event)
      → ((make_history_event format e).kind ≡ kind_text (kind e))
        × ((make_history_event format e).event_id ≡ (metadata e).id)
        × ((make_history_event format e).actor ≡ (metadata e).actor)
        × ((make_history_event format e).timestamp ≡ format (metadata e).at)
  unfolding make_history_event
  event-made (Event.issued e) = (refl, refl, refl, refl)
  event-made (Event.taken e) = (refl, refl, refl, refl)
  event-made (Event.commented e) = (refl, refl, refl, refl)
  event-made (Event.status_transitioned e) = (refl, refl, refl, refl)
  event-made (Event.superseded e) = (refl, refl, refl, refl)
  event-made (Event.closed e) = (refl, refl, refl, refl)

  history-accepted :
      (p : Packet) (es : List Event) {q : Packet}
      → replay p es ≡ ok q
      → Timed es
      → validate_history is_time (map (make_history_event format) es) ≡ ok tt
  unfolding validate_history
  history-accepted p [] h t = refl
  history-accepted p (e ∷ es) h t =
      let (r, s, rest) = replay-cons_ok p e es h in
      let (kind_is, id_is, actor_is, time_is) = event-made e in
      let later = history-accepted r es rest t.1 in
      ground (
        arith,
        kind_is,
        id_is,
        actor_is,
        time_is,
        later,
        s.attributed.id,
        s.attributed.actor,
        t.0,
        kind_text-filled (kind e),
        eq_iff (metadata e).id "",
        eq_iff (metadata e).actor "",
      )

  -- What is exported: a packet that is the replay of its history, with names that are not blank.
  pub record Exportable (p : Packet) (es : List Event) : Type 0 where
    pub replayed : replay zero_packet es ≡ ok p
    pub issued : es ≢ []
    pub bounded : length es < version_mod
    pub id : is_blank p.id ≡ false
    pub tenant_id : is_blank p.tenant_id ≡ false
    pub timed : Timed es

  length-map : {A B : Type 0} (f : A → B) (xs : List A) → length (map f xs) ≡ length xs
  length-map f [] = refl
  length-map f (x ∷ xs) = omega (arith, length-map f xs)

  record-accepted :
      (p : Packet) (es : List Event)
      → Exportable p es
      → validate_record is_time (make_record format p es) ≡ ok tt
  unfolding validate_record make_record Supported
  record-accepted p es x =
      let counted = version-replay zero_packet es x.replayed (omega (arith, x.bounded)) in
      let status = replay-Supported es x.replayed x.issued x.bounded in
      let history = history-accepted zero_packet es x.replayed x.timed in
      ground (
        arith,
        x.id,
        x.tenant_id,
        counted,
        status,
        history,
        length-map (make_history_event format) es,
      )

  -- The records of packets that are each the replay of a history of at least one event and fewer
  -- than 2 ^ 64, with identifiers and tenants that are not blank and times whose texts parse, and
  -- with different identifiers that were not seen before, pass the checks of the reader of an
  -- export.
  pub check_records-make_record :
      (seen : NameSet) (ps : List (Packet × List Event))
      → All (λ x. Exportable x.0 x.1) ps
      → Distinct (map (λ x. x.0.id) ps)
      → Apart seen (map (λ x. x.0.id) ps)
      → check_records is_time seen (map (λ x. make_record format x.0 x.1) ps) ≡ ok tt
  unfolding check_records make_record
  check_records-make_record seen [] a d n = refl
  check_records-make_record seen (x ∷ ps) a d n =
      let more = Apart-add x.0.id seen (map (λ y. y.0.id) ps) d.0 n.1 in
      let rest = check_records-make_record (x.0.id ∷ seen) ps a.1 d.1 more in
      ground (arith, record-accepted x.0 x.1 a.0, n.0, rest)
