-- ===== src/Packet/Loading.antt =====
-- packet/store.go: `sortRecords`; packet/tracker.go: the loops of `refreshLocked`, which read the
-- loaded records into local maps and write those to the tracker.
-- `sort.Slice` leaves the order of equal elements open, and `sort_slice` reverses it; no two records of
-- a log are equal for `sortRecords`. `sort` is for `sort.Strings`, where equal elements are the same.
pub mod Order
pub mod Sort
pub mod Rebuilt
pub mod Installed
use Prim.Native.String.{compare}
use text.Mathlib.Text.{is_lt}
use work_tracker.Prelude.{
  ℕ, ◌+◌, Bool, true, false, not, Option, none, some, List, [], ◌∷◌, ◌++◌, ◌==◌, ◌&&◌, eqb, ltb,
  length, String, if◌then◌else◌,
}
use work_tracker.Prelude.Dict.{Dict, get, get_or, put, remove}
use work_tracker.Prelude.NameSet.{NameSet, contains, without}
use work_tracker.Prelude.Result.{Result, ok, err, refuse_if, ◌>>=◌, ◌>>◌}
use work_tracker.Packet.Types.{
  PacketId, Event, metadata, Packet, zero_packet, invalid_event, Fallible,
}
use work_tracker.Packet.Apply.{event_packet_id, apply_event}
use work_tracker.Packet.Store.{EventRecord}
use work_tracker.Packet.World.{Tracker}

-- `left < right` on strings
abbrev pub before : String → String → Bool
before a b = is_lt (compare a b)

-- The order of `sortRecords`.
pub record_before : EventRecord → EventRecord → Bool
record_before a b =
    if a.packet_id == b.packet_id
    then ltb a.stream_version b.stream_version
    else before a.packet_id b.packet_id

-- Inserts before the first element that is not before the new one.
unfoldable pub insert_sorted {ℓ} : {A : Type ℓ} → (A → A → Bool) → A → List A → List A
insert_sorted less x [] = x ∷ []
insert_sorted less x (y ∷ ys) =
    let later = y ∷ insert_sorted less x ys in if less y x then later else x ∷ y ∷ ys

unfoldable pub sort {ℓ} : {A : Type ℓ} → (A → A → Bool) → List A → List A
unfolding insert_sorted
sort less [] = []
sort less (x ∷ xs) = insert_sorted less x (sort less xs)

-- Inserts before the first element that the new one is before.
unfoldable pub insert_slice {ℓ} : {A : Type ℓ} → (A → A → Bool) → A → List A → List A
insert_slice less x [] = x ∷ []
insert_slice less x (y ∷ ys) =
    let later = y ∷ insert_slice less x ys in if less x y then x ∷ y ∷ ys else later

unfoldable pub sort_slice {ℓ} : {A : Type ℓ} → (A → A → Bool) → List A → List A
unfolding insert_slice
sort_slice less [] = []
sort_slice less (x ∷ xs) = insert_slice less x (sort_slice less xs)

-- `sortRecords`
unfoldable pub sort_records : List EventRecord → List EventRecord
unfolding sort_slice record_before
sort_records rs = sort_slice record_before rs

-- The local maps of `refreshLocked`.
pub record Loading : Type 0 where
  pub streams : Dict (List Event)
  pub rebuilt : Dict Packet
  pub event_ids : NameSet

abbrev pub is_full : List PacketId → Bool
is_full [] = true
is_full (id ∷ ids) = false

unfoldable pub any_empty : List PacketId → Bool
any_empty [] = false
any_empty (id ∷ ids) = if id == "" then true else any_empty ids

-- `delete(eventIDs, event.Metadata().ID)` for every event
pub without_events : NameSet → List Event → NameSet
without_events ids [] = ids
without_events ids (e ∷ es) = without_events (without (metadata e).id ids) es

-- The cached identifiers less those of the cached streams of the targets.
pub without_targets : NameSet → Dict (List Event) → List PacketId → NameSet
unfolding without_events
without_targets ids streams [] = ids
without_targets ids streams (id ∷ targets) =
    without_targets (without_events ids (get_or [] (get id streams))) streams targets

unfoldable pub start_ids : Bool → List PacketId → Tracker → NameSet
unfolding without_targets
start_ids rebuild ids t =
    if not (is_full ids) && rebuild then without_targets t.event_ids t.streams ids else []

-- The record's event, where it has one and it is of the record's packet.
pub own_event : EventRecord → Fallible Event
own_event r = elim r.event [
  | none ↦ err invalid_event
  | some e ↦ if event_packet_id e == r.packet_id then ok e else err invalid_event
]

-- The projection after one more event of a packet.
pub rebuild_packet : Bool → PacketId → Event → Dict Packet → Fallible (Dict Packet)
rebuild_packet false id event rebuilt = ok rebuilt
rebuild_packet true id event rebuilt = do
  packet ← apply_event (get_or zero_packet (get id rebuilt)) event
  ok (put id packet rebuilt)

-- One round of the loop over the records.
pub load_record : Bool → List PacketId → Loading → EventRecord → Fallible Loading
unfolding own_event rebuild_packet
load_record rebuild ids acc r = do
  let old = get_or [] (get r.packet_id acc.streams)
  refuse_if (not (is_full ids) && not (contains r.packet_id ids)) invalid_event
  refuse_if (not (eqb r.stream_version (length old + 1))) invalid_event
  event ← own_event r
  refuse_if (contains (metadata event).id acc.event_ids) invalid_event
  rebuilt ← rebuild_packet rebuild r.packet_id event acc.rebuilt
  ok (record {
    streams = put r.packet_id (old ++ event ∷ []) acc.streams;
    rebuilt = rebuilt;
    event_ids = (metadata event).id ∷ acc.event_ids;
  })

unfoldable pub load_records : Bool → List PacketId → Loading → List EventRecord → Fallible Loading
unfolding load_record
load_records rebuild ids acc [] = ok acc
load_records rebuild ids acc (r ∷ rs) = do
  next ← load_record rebuild ids acc r
  load_records rebuild ids next rs

-- What a reload of every stream writes.
pub install_all : Bool → Loading → Tracker → Tracker
install_all true loaded t = record {
  streams = loaded.streams;
  projection = loaded.rebuilt;
  event_ids = loaded.event_ids;
  projection_ready = true;
}
install_all false loaded t = record t { streams = loaded.streams }

-- `delete(m, id)`, and then `m[id] = v` where there is a value.
pub replace {ℓ} : {V : Type ℓ} → PacketId → Option V → Dict V → Dict V
replace id none m = remove id m
replace id (some v) m = put id v (remove id m)

-- What a reload of the targets writes, target by target.
pub install_targets : Bool → List PacketId → Loading → Tracker → Tracker
unfolding replace
install_targets rebuild [] loaded t = t
install_targets rebuild (id ∷ ids) loaded t = install_targets rebuild ids loaded (record t {
  streams = replace id (get id loaded.streams) t.streams;
  projection = if rebuild then replace id (get id loaded.rebuilt) t.projection else t.projection;
})

unfoldable pub install : Bool → List PacketId → Loading → Tracker → Tracker
unfolding install_all install_targets
install rebuild [] loaded t = install_all rebuild loaded t
install rebuild (id ∷ ids) loaded t =
    let t' = install_targets rebuild (id ∷ ids) loaded t in
    if rebuild then record t' { event_ids = loaded.event_ids } else t'
