-- ===== src/Packet/Refresh.antt =====
-- packet/tracker.go: `refreshLocked` and `prepareLocked`.
pub mod Synced
use work_tracker.Prelude.{Bool, true, not, List, []}
use work_tracker.Prelude.Result.{ok, err, refuse_if}
use work_tracker.Prelude.Exec.{lift, gets, modify, ◌>>=◌, ◌>>◌}
use work_tracker.Packet.Types.{PacketId, invalid_event, projection_unavailable}
use work_tracker.Packet.Store.{EventStore}
use work_tracker.Packet.World.{Method}
use work_tracker.Packet.Loading.{sort_records, any_empty, start_ids, load_records, install}

-- `requireProjectionLocked`
unfoldable pub require_projection_locked : {S : Type 0} → Method S Unit
require_projection_locked = do
  ready ← gets (λ w. w.tracker.projection_ready)
  lift (refuse_if (not ready) projection_unavailable)

module _ {S : Type 0} (es : EventStore S) where
  -- `refreshLocked`
  unfoldable pub refresh_locked : Bool → List PacketId → Method S Unit
  unfolding sort_records any_empty start_ids load_records install
  refresh_locked rebuild ids = do
    records ← λ w. (es.load ids w.store, w)
    lift (refuse_if (any_empty ids) invalid_event)
    t ← gets (λ w. w.tracker)
    loaded ← lift (
        load_records rebuild ids
          (record { streams = []; rebuilt = []; event_ids = start_ids rebuild ids t })
          (sort_records records))
    modify (λ w. record w { tracker = install rebuild ids loaded w.tracker })

  -- `prepareLocked`
  unfoldable pub prepare_locked : List PacketId → Method S Unit
  unfolding require_projection_locked
  prepare_locked ids = do require_projection_locked; refresh_locked true ids
