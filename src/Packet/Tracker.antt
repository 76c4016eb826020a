-- ===== src/Packet/Tracker.antt =====
-- packet/tracker.go: the commands and the readers of `Tracker`.
-- A command prepares the packets that it names, plans its events, and appends them in one batch;
-- each plan is the part of the command between `prepareLocked` and `appendLocked`.
pub mod Plans
pub mod Sound
pub mod Growth
pub mod Commands
pub mod Shared
pub mod Preserved
mod Tests
mod Examples
use work_tracker.Prelude.{
  ℕ, Bool, true, false, not, Option, none, some, List, [], ◌∷◌, ◌++◌, ◌==◌, eqb, length, String,
  map, if◌then◌else◌,
}
use work_tracker.Prelude.Dict.{Dict, get, get_or, is_some}
use work_tracker.Prelude.Result.{Result, ok, err, refuse_if}
use work_tracker.Prelude.Exec.{pure, lift, gets, modify, ◌>>=◌, ◌>>◌}
use work_tracker.Packet.Types.{
  PacketId, EventId, TenantId, Actor, Version, Time, Evidence, Status, CloseReason, status_eq,
  Event, Metadata, Packet, zero_packet, IssueCommand, TakeCommand, CommentCommand,
  TransitionCommand, SupersedeCommand, Error, already_exists, not_found, conflict, Fallible,
}
use work_tracker.Packet.Store.{EventStore}
use work_tracker.Packet.World.{
  Tracker, World, Method, Environment, new_tracker, next_metadata_locked, validate_tenant,
}
use work_tracker.Packet.Loading.{before, sort_slice}
use work_tracker.Packet.Refresh.{refresh_locked, prepare_locked, require_projection_locked}
use work_tracker.Packet.Batch.{append_locked}

module _ {S : Type 0} where
  -- `currentLocked`
  pub current_locked : PacketId → Version → Method S Packet
  unfolding require_projection_locked
  current_locked id expected = do
    require_projection_locked
    actual ← gets (λ w. length (get_or [] (get id w.tracker.streams)))
    lift (refuse_if (not (eqb actual expected)) (conflict id expected actual))
    found ← gets (λ w. get id w.tracker.projection)
    lift (elim found [ none ↦ err not_found | some packet ↦ ok packet ])

  -- `if _, exists := t.streams[id]; exists`
  pub refuse_existing : PacketId → Method S Unit
  refuse_existing id = do
    found ← gets (λ w. get id w.tracker.streams)
    lift (refuse_if (is_some found) already_exists)

  -- `clonePacket(t.projection[id])`
  pub projected : PacketId → Method S Packet
  projected id = gets (λ w. get_or zero_packet (get id w.tracker.projection))

  module _ (env : Environment) where
    pub plan_issue : IssueCommand → Method S (List Event)
    unfolding refuse_existing validate_tenant next_metadata_locked
    plan_issue c = do
      refuse_existing c.packet_id
      validate_tenant env c.tenant_id
      meta ← next_metadata_locked env c.actor
      pure (
          Event.issued (record {
            meta = meta;
            packet_id = c.packet_id;
            tenant_id = c.tenant_id;
            body = c.body;
            parent_id = "";
          })
          ∷ [])

    pub plan_take : TakeCommand → Method S (List Event)
    unfolding current_locked next_metadata_locked
    plan_take c = do
      packet ← current_locked c.packet_id c.expected_version
      taken_meta ← next_metadata_locked env c.actor
      transition_meta ← next_metadata_locked env c.actor
      pure (
          Event.taken (record { meta = taken_meta; packet_id = c.packet_id })
          ∷ Event.status_transitioned (record {
            meta = transition_meta;
            packet_id = c.packet_id;
            from = packet.status;
            to = Status.in_progress;
            evidence = [];
          })
          ∷ [])

    pub plan_comment : CommentCommand → Method S (List Event)
    unfolding current_locked next_metadata_locked
    plan_comment c = do
      current_locked c.packet_id c.expected_version
      meta ← next_metadata_locked env c.actor
      pure (Event.commented (record { meta = meta; packet_id = c.packet_id; text = c.text }) ∷ [])

    -- The close event of a transition to done.
    pub plan_close : TransitionCommand → Method S (List Event)
    unfolding next_metadata_locked status_eq
    plan_close c =
        if status_eq c.to Status.done
        then (do
          closed_meta ← next_metadata_locked env c.actor
          pure (
              Event.closed
                (record { meta = closed_meta; packet_id = c.packet_id; reason = CloseReason.done })
              ∷ []))
        else pure []

    pub plan_transition : TransitionCommand → Method S (List Event)
    unfolding current_locked next_metadata_locked plan_close
    plan_transition c = do
      packet ← current_locked c.packet_id c.expected_version
      transition_meta ← next_metadata_locked env c.actor
      closing ← plan_close c
      pure (
          Event.status_transitioned (record {
            meta = transition_meta;
            packet_id = c.packet_id;
            from = packet.status;
            to = c.to;
            evidence = c.evidence;
          })
          ∷ closing)

    pub plan_supersede : SupersedeCommand → Method S (List Event)
    unfolding current_locked refuse_existing validate_tenant next_metadata_locked
    plan_supersede c = do
      current_locked c.packet_id c.expected_version
      refuse_existing c.replacement_id
      validate_tenant env c.replacement_tenant
      issued_meta ← next_metadata_locked env c.actor
      superseded_meta ← next_metadata_locked env c.actor
      closed_meta ← next_metadata_locked env c.actor
      pure (
          Event.issued (record {
            meta = issued_meta;
            packet_id = c.replacement_id;
            tenant_id = c.replacement_tenant;
            body = c.replacement_body;
            parent_id = c.packet_id;
          })
          ∷ Event.superseded (record {
            meta = superseded_meta;
            packet_id = c.packet_id;
            replacement_id = c.replacement_id;
          })
          ∷ Event.closed (record {
            meta = closed_meta;
            packet_id = c.packet_id;
            reason = CloseReason.superseded;
          })
          ∷ [])

module _ {S : Type 0} (es : EventStore S) where
  pub run_plan : List PacketId → Method S (List Event) → Method S Unit
  run_plan ids plan = do prepare_locked es ids; events ← plan; append_locked es events

  module _ (env : Environment) where
    -- `Tracker.Issue`
    unfoldable pub issue : IssueCommand → Method S Packet
    unfolding run_plan projected
    issue c = do run_plan (c.packet_id ∷ []) (plan_issue env c); projected c.packet_id

    -- `Tracker.Take`
    unfoldable pub take : TakeCommand → Method S Packet
    unfolding run_plan projected
    take c = do run_plan (c.packet_id ∷ []) (plan_take env c); projected c.packet_id

    -- `Tracker.Comment`
    unfoldable pub comment : CommentCommand → Method S Packet
    unfolding run_plan projected
    comment c = do run_plan (c.packet_id ∷ []) (plan_comment env c); projected c.packet_id

    -- `Tracker.Transition`
    unfoldable pub transition : TransitionCommand → Method S Packet
    unfolding run_plan projected
    transition c = do run_plan (c.packet_id ∷ []) (plan_transition env c); projected c.packet_id

    -- `Tracker.Supersede`
    unfoldable pub supersede : SupersedeCommand → Method S (Packet × Packet)
    unfolding run_plan projected
    supersede c = do
      run_plan (c.packet_id ∷ c.replacement_id ∷ []) (plan_supersede env c)
      parent ← projected c.packet_id
      replacement ← projected c.replacement_id
      pure (parent, replacement)

  -- `Tracker.Packet`
  unfoldable pub packet : PacketId → Method S Packet
  packet id = do
    prepare_locked es (id ∷ [])
    found ← gets (λ w. get id w.tracker.projection)
    lift (elim found [ none ↦ err not_found | some p ↦ ok p ])

  abbrev packet_before : Packet → Packet → Bool
  packet_before p q = before p.id q.id

  -- `Tracker.Packets`
  unfoldable pub packets : Method S (List Packet)
  unfolding sort_slice
  packets = do
    prepare_locked es []
    projection ← gets (λ w. w.tracker.projection)
    pure (sort_slice packet_before (map (λ entry. entry.1) projection))

  -- `Tracker.History`
  unfoldable pub history : PacketId → Method S (List Event)
  history id = do
    ready ← gets (λ w. w.tracker.projection_ready)
    refresh_locked es ready (id ∷ [])
    found ← gets (λ w. get id w.tracker.streams)
    lift (elim found [ none ↦ err not_found | some events ↦ ok events ])

  -- `Tracker.RebuildProjection`
  unfoldable pub rebuild_projection : Method S Unit
  rebuild_projection = refresh_locked es true []

-- `Tracker.DropProjection`
unfoldable pub drop_projection : {S : Type 0} → Method S Unit
drop_projection = modify (λ w. record w {
  tracker = record w.tracker { projection = []; event_ids = []; projection_ready = false };
})

-- `NewTrackerWithStore`, past its checks for nil arguments.
unfoldable pub new_tracker_with_store : {S : Type 0} → EventStore S → S → Fallible Tracker
unfolding rebuild_projection
new_tracker_with_store es store =
    let (r, w) =
      rebuild_projection es
        (record { tracker = new_tracker; store = store; now_calls = 0; id_calls = 0 }) in
    elim r [ ok _ ↦ ok w.tracker | err e ↦ err e ]
