-- ===== src/Packet/Tracker/Examples.antt =====
-- The life of a packet "a" on a store that several trackers share: each command is of a tracker that
-- has seen nothing yet.
use work_tracker.Prelude.{◌≡◌, refl, ℕ, arith, List, [], ◌∷◌, none, some}
use work_tracker.Packet.Store.Conflict.{append-stale}
use work_tracker.Prelude.{length}
use work_tracker.Packet.Types.{conflict}
use work_tracker.Prelude.Result.{err}
use work_tracker.Packet.Apply.History.{SameScope}
use work_tracker.Prelude.Dict.{get, put, remove}
use work_tracker.Prelude.NameSet.{contains, without}
use work_tracker.Prelude.Text.{trim_space}
use work_tracker.Packet.Types.{
  Packet, Status, CloseReason, Event, CommentCommand, next_version, metadata,
}
use work_tracker.Packet.Apply.{
  apply_event, accept_evidence, close_allowed, legal_transition, event_packet_id, replay,
}
use work_tracker.Packet.Store.{MemoryEventStore, memory, load, append, empty_store, EventRecord}
use work_tracker.Packet.Apply.Closed.{OnlyComments}
use work_tracker.Packet.Store.Valid.{IsValid, empty_store-IsValid, Outcome, append-Outcome}
use work_tracker.Packet.Store.Streams.{stream}
use work_tracker.Packet.Loading.{sort_records}
use work_tracker.Packet.Loading.Sort.{stream-Ordered, sort_records-Ordered}
use work_tracker.Packet.Refresh.Synced.{Refreshed, prepare_locked-ok}
use work_tracker.Packet.Batch.Appended.{Ended, append_locked-Ended}
use work_tracker.Packet.World.{World, new_tracker}
use work_tracker.Packet.Refresh.{prepare_locked, refresh_locked}
use work_tracker.Packet.Batch.{append_locked}
use work_tracker.Packet.Tracker.{plan_issue, plan_take, plan_comment, plan_transition}
use work_tracker.Packet.Tracker.Commands.{Command, touches, perform, perform-Extends}
use work_tracker.Packet.Tracker.Sound.{HasRoom, IsSound, empty_store-IsSound, Extends}
use work_tracker.Packet.Tracker.Shared.{Run, complete, Run-Grows, Grows}
use work_tracker.Packet.Tracker.Preserved.{Holding, Run-SameScope, Run-OnlyComments}
use work_tracker.Packet.Samples.{tag, counting, start, scope, issue_a, take_a, comment_a, finish_a}

-- A tracker that has loaded nothing, at the n-th call of the clock.
abbrev fresh : ℕ → MemoryEventStore → World MemoryEventStore
fresh n s = record { tracker = new_tracker; store = s; now_calls = n; id_calls = n }

abbrev prepared : Command → World MemoryEventStore → World MemoryEventStore
prepared c w = (prepare_locked memory (touches c) w).1

abbrev issued_store : MemoryEventStore
issued_store =
    (complete counting (Command.issue issue_a)
      (record (prepared (Command.issue issue_a) start) { store = empty_store })).store

issue_run : Run empty_store issued_store
unfolding prepare_locked refresh_locked load append append_locked apply_event accept_evidence
    close_allowed legal_transition next_version metadata get put remove contains without
    event_packet_id trim_space plan_issue plan_take plan_comment plan_transition
issue_run =
    Run.end_command counting (Command.issue issue_a) start (prepared (Command.issue issue_a) start)
      Run.start Run.start (omega arith) refl refl

issued_room : HasRoom issued_store
unfolding prepare_locked refresh_locked load append append_locked apply_event accept_evidence
    close_allowed legal_transition next_version metadata get put remove contains without
    event_packet_id trim_space plan_issue plan_take plan_comment plan_transition
issued_room = omega arith

abbrev after : Command → ℕ → MemoryEventStore → MemoryEventStore
after c n s = (complete counting c (record (prepared c (fresh n s)) { store = s })).store

abbrev taken_store : MemoryEventStore
taken_store = after (Command.take take_a) 5 issued_store

take_run : Run issued_store taken_store
unfolding prepare_locked refresh_locked load append append_locked apply_event accept_evidence
    close_allowed legal_transition next_version metadata get put remove contains without
    event_packet_id trim_space plan_issue plan_take plan_comment plan_transition
take_run =
    Run.end_command counting (Command.take take_a) (fresh 5 issued_store)
      (prepared (Command.take take_a) (fresh 5 issued_store)) Run.start Run.start (omega arith) refl
      refl

taken_room : HasRoom taken_store
unfolding prepare_locked refresh_locked load append append_locked apply_event accept_evidence
    close_allowed legal_transition next_version metadata get put remove contains without
    event_packet_id trim_space plan_issue plan_take plan_comment plan_transition
taken_room = omega arith

abbrev a_issued : Packet
a_issued = record {
  id = "a";
  tenant_id = "t";
  body = scope;
  status = Status.not_started;
  version = 1;
  taken_by = "";
  comments = [];
  evidence = [];
  parent_id = "";
  superseded_by = "";
  closure = none;
}

a_held : Holding issued_store "a" a_issued
unfolding prepare_locked refresh_locked load append append_locked apply_event accept_evidence
    close_allowed legal_transition next_version metadata get put remove contains without
    event_packet_id trim_space plan_issue plan_take plan_comment plan_transition replay
a_held = record { replayed = refl; issued = λ e. omega (arith, e) }

abbrev finished_store : MemoryEventStore
finished_store =
    after (Command.transition finish_a) 20 (after (Command.comment comment_a) 10 taken_store)

abbrev said_store : MemoryEventStore
said_store = after (Command.comment comment_a) 10 taken_store

comment_run : Run taken_store said_store
unfolding prepare_locked refresh_locked load append append_locked apply_event accept_evidence
    close_allowed legal_transition next_version metadata get put remove contains without
    event_packet_id trim_space plan_issue plan_take plan_comment plan_transition
comment_run =
    Run.end_command counting (Command.comment comment_a) (fresh 10 taken_store)
      (prepared (Command.comment comment_a) (fresh 10 taken_store)) Run.start Run.start
      (omega arith) refl refl

finish_run : Run said_store finished_store
unfolding prepare_locked refresh_locked load append append_locked apply_event accept_evidence
    close_allowed legal_transition next_version metadata get put remove contains without
    event_packet_id trim_space plan_issue plan_take plan_comment plan_transition
finish_run =
    Run.end_command counting (Command.transition finish_a) (fresh 20 said_store)
      (prepared (Command.transition finish_a) (fresh 20 said_store)) Run.start Run.start
      (omega arith) refl refl

-- Two trackers that both prepared a take of the packet: the second is refused.
raced_store : MemoryEventStore
raced_store =
    (complete counting (Command.take take_a)
      (record (prepared (Command.take take_a) (fresh 30 issued_store)) {
        store = taken_store;
      })).store

race_run : Run issued_store raced_store
unfolding prepare_locked refresh_locked load append append_locked apply_event accept_evidence
    close_allowed legal_transition next_version metadata get put remove contains without
    event_packet_id trim_space plan_issue plan_take plan_comment plan_transition raced_store
race_run =
    Run.end_command counting (Command.take take_a) (fresh 30 issued_store)
      (prepared (Command.take take_a) (fresh 30 issued_store)) Run.start take_run taken_room refl
      refl

Run-Grows_example : Grows empty_store issued_store
Run-Grows_example = Run-Grows issue_run empty_store-IsSound

issued-IsSound : IsSound issued_store
issued-IsSound = Grows.sound (Run-Grows issue_run empty_store-IsSound)

raced_room : HasRoom raced_store
unfolding prepare_locked refresh_locked load append append_locked apply_event accept_evidence
    close_allowed legal_transition next_version metadata get put remove contains without
    event_packet_id trim_space plan_issue plan_take plan_comment plan_transition raced_store
raced_room = omega arith

Run-SameScope_example : (q : Packet) × Holding raced_store "a" q × SameScope a_issued q
Run-SameScope_example = Run-SameScope "a" a_issued race_run issued-IsSound raced_room a_held

perform-Extends_example :
    Extends issued_store (perform counting (Command.take take_a) (fresh 5 issued_store)).store
perform-Extends_example =
    perform-Extends counting (Command.take take_a) (fresh 5 issued_store) issued_room issued-IsSound

abbrev a_done : Packet
a_done = record a_issued {
  status = Status.done;
  version = 6;
  taken_by = "bob";
  comments = record { event_id = tag 10; at = 11; actor = "bob"; text = "half way" } ∷ [];
  evidence = "run 17" ∷ [];
  closure = some (record { event_id = tag 21; at = 22; actor = "bob"; reason = CloseReason.done });
}

a_done_held : Holding finished_store "a" a_done
unfolding prepare_locked refresh_locked load append append_locked apply_event accept_evidence
    close_allowed legal_transition next_version metadata get put remove contains without
    event_packet_id trim_space plan_issue plan_take plan_comment plan_transition replay
a_done_held = record { replayed = refl; issued = λ e. omega (arith, e) }

all_run : Run empty_store finished_store
unfolding prepare_locked refresh_locked load append append_locked apply_event accept_evidence
    close_allowed legal_transition next_version metadata get put remove contains without
    event_packet_id trim_space plan_issue plan_take plan_comment plan_transition
all_run =
    Run.end_command counting (Command.transition finish_a) (fresh 20 said_store)
      (prepared (Command.transition finish_a) (fresh 20 said_store))
      (Run.end_command counting (Command.comment comment_a) (fresh 10 taken_store)
        (prepared (Command.comment comment_a) (fresh 10 taken_store))
        (Run.end_command counting (Command.take take_a) (fresh 5 issued_store)
          (prepared (Command.take take_a) (fresh 5 issued_store)) issue_run Run.start issued_room
          refl refl)
        Run.start (omega arith) refl refl)
      Run.start (omega arith) refl refl

thanking : CommentCommand
thanking = record comment_a { expected_version = 6; text = "thanks" }

thanked_store : MemoryEventStore
thanked_store = after (Command.comment thanking) 40 finished_store

thanked_run : Run finished_store thanked_store
unfolding prepare_locked refresh_locked load append append_locked apply_event accept_evidence
    close_allowed legal_transition next_version metadata get put remove contains without
    event_packet_id trim_space plan_issue plan_take plan_comment plan_transition thanked_store
    thanking
thanked_run =
    Run.end_command counting (Command.comment thanking) (fresh 40 finished_store)
      (prepared (Command.comment thanking) (fresh 40 finished_store)) Run.start Run.start
      (omega arith) refl refl

thanked_room : HasRoom thanked_store
unfolding prepare_locked refresh_locked load append append_locked apply_event accept_evidence
    close_allowed legal_transition next_version metadata get put remove contains without
    event_packet_id trim_space plan_issue plan_take plan_comment plan_transition thanked_store
    thanking
thanked_room = omega arith

Run-OnlyComments_example : (q : Packet) × Holding thanked_store "a" q × OnlyComments a_done q
Run-OnlyComments_example =
    Run-OnlyComments "a" a_done thanked_run (Grows.sound (Run-Grows all_run empty_store-IsSound))
      thanked_room a_done_held refl

-- The batch of an issue, on the empty store.
abbrev issue_event : Event
issue_event = Event.issued (record {
  meta = record { id = "e1"; at = 7; actor = "ann" };
  packet_id = "a";
  tenant_id = "t";
  body = scope;
  parent_id = "";
})

abbrev issue_events : List Event
issue_events = issue_event ∷ []

abbrev issue_records : List EventRecord
issue_records = record { packet_id = "a"; stream_version = 1; event = some issue_event } ∷ []

append_locked-Ended_example : Ended issue_events start (append_locked memory issue_events start)
append_locked-Ended_example =
    append_locked-Ended issue_events start (omega arith) empty_store-IsValid

append-Outcome_example :
    Outcome
      (("a", 0) ∷ [])
      issue_records
      empty_store
      (append (("a", 0) ∷ []) issue_records empty_store)
append-Outcome_example =
    append-Outcome (("a", 0) ∷ []) issue_records empty_store (omega arith) empty_store-IsValid

prepare_locked-ok_example :
    Refreshed
      ("a" ∷ [])
      (fresh 5 issued_store)
      (prepared (Command.take take_a) (fresh 5 issued_store))
unfolding prepare_locked refresh_locked load append append_locked apply_event accept_evidence
    close_allowed legal_transition next_version metadata get put remove contains without
    event_packet_id trim_space plan_issue plan_take plan_comment plan_transition
prepare_locked-ok_example =
    prepare_locked-ok ("a" ∷ []) (fresh 5 issued_store) (IsSound.valid issued-IsSound) refl

stream-Ordered_example :
    stream "a" (sort_records issued_store.records) ≡ stream "a" issued_store.records
stream-Ordered_example =
    stream-Ordered issued_store.records (sort_records issued_store.records) "a" 1
      (sort_records-Ordered issued_store.records).0 (sort_records-Ordered issued_store.records).1
      (IsValid.numbered (IsSound.valid issued-IsSound) "a")

append-stale_example :
    append (("a", 0) ∷ []) issue_records issued_store
    ≡ (err (conflict "a" 0 (length (stream "a" issued_store.records))), issued_store)
unfolding prepare_locked refresh_locked load append append_locked apply_event accept_evidence
    close_allowed legal_transition next_version metadata get put remove contains without
    event_packet_id trim_space plan_issue plan_take plan_comment plan_transition
append-stale_example =
    append-stale "a" 0 [] issue_records issued_store (IsSound.valid issued-IsSound)
      (λ z. omega (arith, z))
