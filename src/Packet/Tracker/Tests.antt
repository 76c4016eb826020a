-- ===== src/Packet/Tracker/Tests.antt =====
-- A packet's life, run on the memory store.
use work_tracker.Prelude.{◌≡◌, refl}
use work_tracker.Prelude.Result.{Result, ok, err}
use work_tracker.Prelude.Exec.{◌>>◌}
use work_tracker.Packet.Types.{Status, next_version, metadata, Packet}
use work_tracker.Prelude.Dict.{get, put, remove}
use work_tracker.Prelude.NameSet.{contains, without}
use work_tracker.Prelude.Text.{trim_space}
use work_tracker.Packet.Apply.{
  apply_event, accept_evidence, close_allowed, legal_transition, event_packet_id,
}
use work_tracker.Packet.Refresh.{prepare_locked, refresh_locked}
use work_tracker.Packet.Batch.{append_locked}
use work_tracker.Packet.Store.{MemoryEventStore, memory, load, append}
use work_tracker.Packet.World.{Method}
use work_tracker.Packet.Tracker.{
  issue, take, comment, transition, plan_issue, plan_take, plan_comment, plan_transition,
}
use work_tracker.Packet.Samples.{counting, start, issue_a, take_a, comment_a, finish_a}

abbrev life : Method MemoryEventStore Packet
life = do
  issue memory counting issue_a
  take memory counting take_a
  comment memory counting comment_a
  transition memory counting finish_a

abbrev status_of : {S : Type 0} → Result S Packet → Status
status_of (ok p) = p.status
status_of (err e) = Status.other "error"

life_ends_done : status_of (life start).0 ≡ Status.done
unfolding issue take comment transition plan_issue plan_take plan_comment plan_transition
    prepare_locked refresh_locked load append append_locked apply_event accept_evidence
    close_allowed legal_transition next_version metadata get put remove contains without
    event_packet_id trim_space
life_ends_done = refl
