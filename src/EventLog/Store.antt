-- ===== src/EventLog/Store.antt =====
-- eventstore/firestore.go: `Append` and `Load`.
use work_tracker.Prelude.{Bool, true, false, List, [], ◌∷◌, ◌++◌, ◌==◌, String, if◌then◌else◌}
use work_tracker.Prelude.Dict.{Dict}
use work_tracker.Prelude.NameSet.{NameSet, contains}
use work_tracker.Prelude.Result.{ok, err, ◌>>=◌}
use work_tracker.Packet.Types.{PacketId, Version, Error, external, Fallible}
use work_tracker.Packet.Store.{EventRecord, EventStore}
use work_tracker.Documents.{Database}
use work_tracker.EventLog.Records.{
  Ref, LogDocument, Json, from_library, encode_append, decode_documents, sorted_ids, ended,
}
use work_tracker.EventLog.Transaction.{append_body}

abbrev pub is_event : {P : Type 0} → LogDocument P → Bool
is_event (LogDocument.event d) = true
is_event (LogDocument.stream v) = false

abbrev pub is_event_of : {P : Type 0} → PacketId → LogDocument P → Bool
is_event_of id (LogDocument.event d) = d.packet_id == id
is_event_of id (LogDocument.stream v) = false

module _ {P S : Type 0} (json : Json P) (path_id : String → String)
    (db : Database Ref (LogDocument P) Error S) where
  -- `Firestore.Append`
  unfoldable pub append : Dict Version → List EventRecord → S → Fallible Unit × S
  append expected records s = elim (encode_append json expected records) [
    | err e ↦ (err e, s)
    | ok (documents, final) ↦
        let (ending, s') =
          db.transact (append_body path_id expected records documents final (sorted_ids expected))
            s in
        (ended ending, s')
  ]

  -- The loop of `Load` over the packets that are asked for.
  unfoldable pub query_packets : NameSet → List PacketId → S → Fallible (List (LogDocument P))
  query_packets seen [] s = ok []
  query_packets seen (id ∷ ids) s =
      let again = query_packets seen ids s in
      let rest = query_packets (id ∷ seen) ids s in
      if id == ""
      then err (external "cannot load an empty packet id")
      else if contains id seen
      then again
      else elim (db.query (is_event_of id) s) [
        | err e ↦ err (external e)
        | ok documents ↦ do others ← rest; ok (documents ++ others)
      ]

  unfoldable pub all_events : S → Fallible (List (LogDocument P))
  all_events s = from_library (db.query is_event s)

  -- `Firestore.Load`
  unfoldable pub load : List PacketId → S → Fallible (List EventRecord)
  unfolding query_packets all_events decode_documents
  load [] s = do documents ← all_events s; decode_documents json documents
  load (id ∷ ids) s = do documents ← query_packets [] (id ∷ ids) s; decode_documents json documents

  -- `Firestore` as an `EventStore`.
  abbrev pub durable : EventStore S
  durable = record { load = load; append = append }
