-- ===== src/Packet/Apply/Examples.antt =====
-- The domain rules on the life of one packet.
use work_tracker.Prelude.{◌≡◌, refl, arith, List, [], ◌∷◌, ◌++◌, some, String}
use work_tracker.Prelude.Text.{trim_space}
use work_tracker.Prelude.Result.{ok}
use work_tracker.Packet.Types.{
  Packet, zero_packet, Status, Metadata, CloseReason, Event, EventId, Actor, Evidence, next_version,
  metadata,
}
use work_tracker.Packet.Apply.{
  apply_event, accept_evidence, close_allowed, legal_transition, event_packet_id, replay,
}
use work_tracker.Packet.Apply.Steps.{Step}
use work_tracker.Packet.Apply.Exact.{apply_event-Step_iff}
use work_tracker.Packet.Apply.Valid.{IsValid, zero_packet-IsValid, replay-IsValid}
use work_tracker.Packet.Apply.History.{SameScope, version-replay, replay-SameScope}
use work_tracker.Packet.Apply.Closed.{
  OnlyComments, Reaches, IsLast, replay-OnlyComments, replay-Reaches, status-replay_last,
}
use work_tracker.Packet.Apply.Once.{
  comments_of, comments-replay, taken_by-replay, superseded_by-replay,
}
use work_tracker.Packet.Samples.{scope}

abbrev by : EventId → Actor → Metadata
by id actor = record { id = id; at = 7; actor = actor }

abbrev issue_event : Event
issue_event = Event.issued (record {
  meta = by "e1" "ann";
  packet_id = "a";
  tenant_id = "t";
  body = scope;
  parent_id = "";
})

abbrev moving : EventId → Status → Status → List Evidence → Event
moving id a b evidence =
    Event.status_transitioned
      (record { meta = by id "bob"; packet_id = "a"; from = a; to = b; evidence = evidence })

abbrev saying : EventId → String → Event
saying id text = Event.commented (record { meta = by id "bob"; packet_id = "a"; text = text })

abbrev work : List Event
work =
    Event.taken (record { meta = by "e2" "bob"; packet_id = "a" })
    ∷ moving "e3" Status.not_started Status.in_progress []
    ∷ saying "e4" "half way"
    ∷ moving "e5" Status.in_progress Status.done ("run 17" ∷ [])
    ∷ Event.closed (record { meta = by "e6" "bob"; packet_id = "a"; reason = CloseReason.done })
    ∷ []

abbrev issued_packet : Packet
issued_packet = record zero_packet {
  id = "a";
  tenant_id = "t";
  body = scope;
  status = Status.not_started;
  version = 1;
}

abbrev done_packet : Packet
done_packet = record issued_packet {
  status = Status.done;
  version = 6;
  taken_by = "bob";
  comments = record { event_id = "e4"; at = 7; actor = "bob"; text = "half way" } ∷ [];
  evidence = "run 17" ∷ [];
  closure = some (record { event_id = "e6"; at = 7; actor = "bob"; reason = CloseReason.done });
}

abbrev thanks : List Event
thanks = saying "e7" "thanks" ∷ []

abbrev thanked_packet : Packet
thanked_packet = record done_packet {
  version = 7;
  comments =
      record { event_id = "e4"; at = 7; actor = "bob"; text = "half way" }
      ∷ record { event_id = "e7"; at = 7; actor = "bob"; text = "thanks" }
      ∷ [];
}

abbrev replaced_packet : Packet
replaced_packet = record issued_packet { version = 2; superseded_by = "b" }

issue_step : apply_event zero_packet issue_event ≡ ok issued_packet
unfolding apply_event next_version metadata event_packet_id trim_space
issue_step = refl

works : replay issued_packet work ≡ ok done_packet
unfolding replay apply_event accept_evidence close_allowed legal_transition next_version metadata
    event_packet_id trim_space
works = refl

thanked : replay done_packet thanks ≡ ok thanked_packet
unfolding replay apply_event next_version metadata event_packet_id trim_space
thanked = refl

whole : replay zero_packet (issue_event ∷ work) ≡ ok done_packet
unfolding replay apply_event accept_evidence close_allowed legal_transition next_version metadata
    event_packet_id trim_space
whole = refl

replaced :
    replay replaced_packet thanks
    ≡ ok (record replaced_packet {
      version = 3;
      comments = record { event_id = "e7"; at = 7; actor = "bob"; text = "thanks" } ∷ [];
    })
unfolding replay apply_event next_version metadata event_packet_id trim_space
replaced = refl

apply_event-Step_iff_example : Step zero_packet issue_event issued_packet
apply_event-Step_iff_example =
    (apply_event-Step_iff zero_packet issue_event issued_packet).0 issue_step

replay-IsValid_example : IsValid done_packet
replay-IsValid_example =
    replay-IsValid zero_packet (issue_event ∷ work) whole (omega arith) zero_packet-IsValid

replay-SameScope_example : SameScope issued_packet done_packet
replay-SameScope_example =
    replay-SameScope issued_packet work works (λ z. omega (arith, z)) (omega arith)

version-replay_example : done_packet.version ≡ 6
version-replay_example = version-replay issued_packet work works (omega arith)

replay-OnlyComments_example : OnlyComments done_packet thanked_packet
replay-OnlyComments_example =
    replay-OnlyComments done_packet thanks thanked (λ z. omega (arith, z)) (omega arith) refl

replay-Reaches_example : Reaches Status.not_started Status.done
replay-Reaches_example =
    replay-Reaches issued_packet work works (λ z. omega (arith, z)) (omega arith)

status-replay_last_example : thanked_packet.status ≡ Status.done
status-replay_last_example =
    status-replay_last done_packet thanks thanked (λ z. omega (arith, z)) (omega arith) IsLast.done

comments-replay_example : thanked_packet.comments ≡ done_packet.comments ++ comments_of thanks
comments-replay_example = comments-replay done_packet thanks thanked

taken_by-replay_example : thanked_packet.taken_by ≡ "bob"
taken_by-replay_example = taken_by-replay done_packet thanks thanked (λ e. cc)

superseded_by-replay_example : replaced_packet.superseded_by ≡ "b"
superseded_by-replay_example = superseded_by-replay replaced_packet thanks replaced (λ e. cc)
