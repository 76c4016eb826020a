-- ===== src/Packet/Batch.antt =====
-- packet/tracker.go: `appendLocked`, which checks a batch of events against the projection, appends
-- it to the store, and then writes it to the tracker.
pub mod Records
pub mod Expected
pub mod Appended
use work_tracker.Prelude.{ℕ, Bool, true, Option, none, some, List, [], ◌∷◌, ◌++◌, ◌==◌, length, map}
use work_tracker.Prelude.Dict.{Dict, get, get_or, put}
use work_tracker.Prelude.NameSet.{NameSet, contains}
use work_tracker.Prelude.Result.{Result, ok, err, refuse_if, ◌>>=◌, ◌>>◌}
use work_tracker.Packet.Types.{
  PacketId, Version, next_version, Event, metadata, Packet, zero_packet, invalid_event, Fallible,
}
use work_tracker.Packet.Apply.{event_packet_id, apply_event}
use work_tracker.Packet.Store.{EventRecord, EventStore, record_event_id}
use work_tracker.Packet.World.{Tracker, World, Method}
use work_tracker.Packet.Refresh.{refresh_locked}

-- The local variables of `appendLocked`; `next` is `nextVersion`.
pub record Batch : Type 0 where
  pub working : Dict Packet
  pub batch_ids : NameSet
  pub expected : Dict Version
  pub next : Dict Version
  pub records : List EventRecord

abbrev pub empty_batch : Batch
empty_batch = record { working = []; batch_ids = []; expected = []; next = []; records = [] }

-- The first event of a packet notes the version of the packet's cached stream.
pub touch : Tracker → PacketId → Batch → Batch
touch t id b = elim (get id b.working) [
  | some packet ↦ b
  | none ↦
      let version = length (get_or [] (get id t.streams)) in
      record b { expected = put id version b.expected; next = put id (next_version version) b.next }
]

-- The packet as the batch has it so far.
abbrev pub current : Tracker → Batch → PacketId → Packet
current t b id = get_or (get_or zero_packet (get id t.projection)) (get id b.working)

-- What the loop does with an accepted event.
pub enter : Event → Packet → Batch → Batch
enter event packet b =
    let id = event_packet_id event in
    let version = get_or 0 (get id b.next) in
    record {
      working = put id packet b.working;
      batch_ids = (metadata event).id ∷ b.batch_ids;
      expected = b.expected;
      next = put id (next_version version) b.next;
      records =
          b.records ++ record { packet_id = id; stream_version = version; event = some event } ∷ [];
    }

-- One round of the loop over the events.
pub add_event : Tracker → Batch → Event → Fallible Batch
unfolding touch enter
add_event t b event = do
  let id = event_packet_id event
  refuse_if (id == "") invalid_event
  refuse_if (contains (metadata event).id t.event_ids) invalid_event
  refuse_if (contains (metadata event).id b.batch_ids) invalid_event
  packet ← apply_event (current t b id) event
  ok (enter event packet (touch t id b))

pub add_events : Tracker → Batch → List Event → Fallible Batch
unfolding add_event
add_events t b [] = ok b
add_events t b (event ∷ events) = do next ← add_event t b event; add_events t next events

-- The loops that write an appended batch to the tracker.
pub extend_streams : List EventRecord → Dict (List Event) → Dict (List Event)
extend_streams [] streams = streams
extend_streams (r ∷ rs) streams = extend_streams rs (elim r.event [
  | none ↦ streams
  | some event ↦ put r.packet_id (get_or [] (get r.packet_id streams) ++ event ∷ []) streams
])

pub extend_ids : List EventRecord → NameSet → NameSet
extend_ids [] ids = ids
extend_ids (r ∷ rs) ids = extend_ids rs (record_event_id r ∷ ids)

pub extend_projection : Dict Packet → Dict Packet → Dict Packet
extend_projection [] projection = projection
extend_projection ((id, packet) ∷ working) projection =
    put id packet (extend_projection working projection)

pub install_batch : Batch → Tracker → Tracker
unfolding extend_streams extend_ids extend_projection
install_batch b t = record t {
  streams = extend_streams b.records t.streams;
  projection = extend_projection b.working t.projection;
  event_ids = extend_ids b.records t.event_ids;
}

keys {ℓ} : {V : Type ℓ} → Dict V → List PacketId
keys m = map (λ entry. entry.0) m

module _ {S : Type 0} (es : EventStore S) where
  -- How an append ends: the tracker takes the batch, or it refreshes the touched packets (an error
  -- of the refresh is dropped) and passes the store's error on.
  pub finish : Batch → World S → Fallible Unit × S → Fallible Unit × World S
  unfolding install_batch keys
  finish b w (ok _, store) =
      (ok tt, record w { store = store; tracker = install_batch b w.tracker })
  finish b w (err e, store) =
      (err e, (refresh_locked es true (keys b.expected) (record w { store = store })).1)

  -- `appendLocked`
  unfoldable pub append_locked : List Event → Method S Unit
  unfolding add_events finish
  append_locked events w = elim (add_events w.tracker empty_batch events) [
    | ok b ↦ finish b w (es.append b.expected b.records w.store)
    | err e ↦ (err e, w)
  ]
