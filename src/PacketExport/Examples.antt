-- ===== src/PacketExport/Examples.antt =====
-- The export of a packet that was issued and taken, and a packet that both sources have.
use work_tracker.Prelude.{◌≡◌, refl, Bool, true, List, [], ◌∷◌, arith, map, String}
use work_tracker.Prelude.Text.{trim_space}
use work_tracker.Prelude.NameSet.{contains}
use work_tracker.Prelude.Result.{ok}
use work_tracker.Packet.Types.{Time, Event, Packet, Status, zero_packet, next_version, metadata}
use work_tracker.Packet.Apply.{replay, apply_event}
use work_tracker.Packet.Samples.{scope}
use work_tracker.Packet.Store.Identifiers.{Distinct}
use work_tracker.PacketExport.{Record, make_record, check_records, reconcile}
use work_tracker.PacketExport.Accepted.{Exportable, check_records-make_record}
use work_tracker.PacketExport.Reconciled.{find, last, or_else, find-reconcile, reconcile-Distinct}

abbrev format : Time → String
format at = "1970-01-01T00:00:00Z"

abbrev is_time : String → Bool
is_time t = true

abbrev opened : Event
opened = Event.issued (record {
  meta = record { id = "e1"; at = 1; actor = "ann" };
  packet_id = "a";
  tenant_id = "t";
  body = scope;
  parent_id = "";
})

abbrev took : Event
took = Event.taken (record { meta = record { id = "e2"; at = 2; actor = "bob" }; packet_id = "a" })

abbrev events : List Event
events = opened ∷ took ∷ []

abbrev packet : Packet
packet = record zero_packet {
  id = "a";
  tenant_id = "t";
  body = scope;
  status = Status.not_started;
  version = 2;
  taken_by = "bob";
}

packet-Exportable : Exportable format is_time packet events
unfolding replay apply_event next_version metadata trim_space
packet-Exportable = record {
  replayed = refl;
  issued = λ h. absurd (cc h);
  bounded = omega arith;
  id = refl;
  tenant_id = refl;
  timed = (refl, (refl, tt));
}

check_records-make_record_example :
    check_records is_time [] (make_record format packet events ∷ []) ≡ ok tt
unfolding contains
check_records-make_record_example =
    check_records-make_record format is_time [] ((packet, events) ∷ []) (packet-Exportable, tt)
      (refl, tt) (refl, tt)

abbrev older : Record
older = make_record format zero_packet []

abbrev newer : Record
newer = record older { version = 7 }

find-reconcile_example :
    find "" (reconcile (older ∷ []) (newer ∷ []))
    ≡ or_else (last "" (newer ∷ [])) (last "" (older ∷ []))
find-reconcile_example = find-reconcile (older ∷ []) (newer ∷ []) ""

reconcile-Distinct_example : Distinct (map (λ r. r.id) (reconcile (older ∷ []) (newer ∷ [])))
reconcile-Distinct_example = reconcile-Distinct (older ∷ []) (newer ∷ [])
