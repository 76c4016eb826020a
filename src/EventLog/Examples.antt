-- ===== src/EventLog/Examples.antt =====
-- The durable log over a database in memory: one packet is issued in an empty log, and loaded.
use work_tracker.Prelude.{◌+◌, ◌<◌, ◌≡◌, refl, some, List, [], ◌∷◌, arith, eq_iff, length, String}
use work_tracker.Prelude.Dict.{Dict, get}
use work_tracker.Prelude.NameSet.{contains}
use work_tracker.Prelude.Result.{ok}
use work_tracker.Packet.Types.{Event, PacketId, Version, Error, metadata}
use work_tracker.Packet.Apply.{event_packet_id}
use work_tracker.Packet.Samples.{scope}
use work_tracker.Packet.Store.{EventRecord, empty_store}
use work_tracker.Packet.Store.Streams.{stream}
use work_tracker.Packet.Store.Valid.{empty_store-IsValid}
use work_tracker.Documents.{as_written, Database}
use work_tracker.Documents.Table.{Rows, look, table, documents, table-IsDatabase}
use work_tracker.EventLog.Records.{
  Ref, LogDocument, Json, same_ref, encode_record, decode_record, from_library, document_of,
}
use work_tracker.EventLog.Store.{append}
use work_tracker.EventLog.Coding.{ReadsBack, decode_record-encode_record}
use work_tracker.EventLog.Documents.{find}
use work_tracker.EventLog.Lookup.{same_ref-IsTest}
use work_tracker.EventLog.Backed.{Backed}
use work_tracker.EventLog.Refines.{AppendEnds, append-Refined}

-- A library whose texts are the events themselves.
abbrev verbatim : Json Event
verbatim = record { marshal = λ e. ok e; unmarshal = λ k e. ok e }

verbatim-ReadsBack : ReadsBack verbatim
verbatim-ReadsBack e payload h = cc h

abbrev path : String → String
path k = k

abbrev opened : Event
opened = Event.issued (record {
  meta = record { id = "e1"; at = 1; actor = "ann" };
  packet_id = "a";
  tenant_id = "t";
  body = scope;
  parent_id = "";
})

abbrev first : EventRecord
first = record { packet_id = "a"; stream_version = 1; event = some opened }

abbrev batch : List EventRecord
batch = first ∷ []

abbrev expected : Dict Version
expected = ("a", 0) ∷ []

abbrev log : Database Ref (LogDocument Event) Error (Rows Ref (LogDocument Event))
log = table (LogDocument Event) Error same_ref as_written

abbrev no_rows : Rows Ref (LogDocument Event)
no_rows = []

no_rows-Backed : Backed verbatim path (documents same_ref no_rows) empty_store
unfolding look find
no_rows-Backed = record {
  valid = empty_store-IsValid;
  events = λ k r h. absurd (cc h);
  free = λ k h. refl;
  only = λ ref d h. absurd (cc h);
  named = refl;
  streams = λ p. refl;
}

used : (p : PacketId) (v : Version) → get p expected ≡ some v → 0 < v + length (stream p batch)
unfolding get
used p v h = ground (arith, eq_iff "a" p)

append-Refined_example :
    AppendEnds verbatim path
      (documents same_ref)
      expected
      batch
      empty_store
      (append verbatim path log expected batch no_rows)
append-Refined_example =
    append-Refined verbatim path (λ a b h. h) (documents same_ref) log
      (table-IsDatabase same_ref as_written same_ref-IsTest) expected batch empty_store no_rows
      (omega arith) no_rows-Backed used

abbrev rows : Rows Ref (LogDocument Event)
rows = (append verbatim path log expected batch no_rows).1

decode_record-encode_record_example :
    decode_record verbatim (document_of first opened opened) ≡ ok first
unfolding encode_record from_library contains event_packet_id metadata
decode_record-encode_record_example =
    decode_record-encode_record verbatim verbatim-ReadsBack [] 1 first
      (document_of first opened opened) refl (λ h. absurd (cc h)) (omega arith) (omega arith)
