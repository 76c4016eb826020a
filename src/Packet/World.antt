-- ===== src/Packet/World.antt =====
-- packet/tracker.go: the state of a `Tracker` and what it is given from outside.
use work_tracker.Prelude.{ℕ, ◌+◌, Bool, true, List, []}
use work_tracker.Prelude.Dict.{Dict}
use work_tracker.Prelude.NameSet.{NameSet}
use work_tracker.Prelude.Exec.{Exec, ◌>>=◌, pure}
use work_tracker.Prelude.Result.{ok}
use work_tracker.Packet.Types.{
  TenantId, EventId, Actor, Time, Event, Metadata, Packet, Error, Fallible,
}

-- `Tracker`, without its lock and what it is given: each method holds the lock from its first line
-- to its return, so that it is one step. A nil map reads as the empty one.
pub record Tracker : Type 0 where
  pub streams : Dict (List Event)
  pub projection : Dict Packet
  pub event_ids : NameSet
  pub projection_ready : Bool

-- `newTrackerWithStore`
abbrev pub new_tracker : Tracker
new_tracker = record { streams = []; projection = []; event_ids = []; projection_ready = true }

-- The fields `now`, `newEventID` and `tenantValidator`. The clock and the identifier source answer
-- their n-th call.
pub record Environment : Type 0 where
  pub now : ℕ → Time
  pub new_event_id : ℕ → Fallible EventId
  pub validate_tenant_id : TenantId → Time → Fallible Unit

-- What a method works on: its tracker, the store, which other trackers may share, and how often the
-- clock and the identifier source were called.
pub record World (S : Type 0) : Type 0 where
  pub tracker : Tracker
  pub store : S
  pub now_calls : ℕ
  pub id_calls : ℕ

abbrev pub Method : Type 0 → Type 0 → Type 0
Method S A = Exec (World S) Error A

module _ {S : Type 0} (env : Environment) where
  -- `t.now().UTC()`
  unfoldable pub read_clock : Method S Time
  read_clock w = (ok (env.now w.now_calls), record w { now_calls = w.now_calls + 1 })

  -- `t.newEventID()`
  unfoldable pub draw_event_id : Method S EventId
  draw_event_id w = (env.new_event_id w.id_calls, record w { id_calls = w.id_calls + 1 })

  -- `nextMetadataLocked`
  unfoldable pub next_metadata_locked : Actor → Method S Metadata
  unfolding read_clock draw_event_id
  next_metadata_locked actor = do
    id ← draw_event_id
    at ← read_clock
    pure (record { id = id; at = at; actor = actor })

  -- `t.tenantValidator.ValidateTenantID(tenant, t.now().UTC())`
  unfoldable pub validate_tenant : TenantId → Method S Unit
  unfolding read_clock
  validate_tenant tenant = do at ← read_clock; λ w. (env.validate_tenant_id tenant at, w)
