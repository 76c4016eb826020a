-- ===== src/EventLog/Transaction.antt =====
-- eventstore/firestore.go: the transaction of `Append`.
use work_tracker.Prelude.{not, List, [], ◌∷◌, ◌++◌, eqb, String}
use work_tracker.Prelude.Dict.{Dict, get, get_or}
use work_tracker.Prelude.Result.{ok, err, ◌>>=◌, ◌>>◌, refuse_if}
use work_tracker.Packet.Types.{PacketId, Version, conflict, external, Fallible}
use work_tracker.Packet.Store.{EventRecord, record_event_id}
use work_tracker.Documents.{Fetch, found, failed, Write}
use work_tracker.EventLog.Records.{
  Ref, event_at, stream_at, EventDocument, LogDocument, decode_stream_version,
}

-- `pathID` makes the identifiers of documents.
module _ {P : Type 0} (path_id : String → String) where
  -- The loop of the transaction that compares the versions. `GetAll` has read every document.
  unfoldable pub check_streams :
      (Ref → Fetch (LogDocument P)) → Dict Version → List PacketId → Fallible Unit
  check_streams reads expected [] = ok tt
  check_streams reads expected (id ∷ ids) = do
    actual ← decode_stream_version (reads (stream_at (path_id id)))
    let wanted = get_or 0 (get id expected)
    refuse_if (not (eqb actual wanted)) (conflict id wanted actual)
    check_streams reads expected ids

  -- The reads of `GetAll`, before any is looked at.
  unfoldable pub get_all : (Ref → Fetch (LogDocument P)) → List PacketId → Fallible Unit
  get_all reads [] = ok tt
  get_all reads (id ∷ ids) = elim (reads (stream_at (path_id id))) [
    | failed e ↦ err (external e)
    | _ ↦ get_all reads ids
  ]

  unfoldable pub create_events :
      List EventRecord → List (EventDocument P) → List (Write Ref (LogDocument P))
  create_events (r ∷ rs) (d ∷ ds) =
      Write.create (event_at (path_id (record_event_id r))) (LogDocument.event d)
      ∷ create_events rs ds
  create_events _ _ = []

  -- The write of one stream's version: an update where the document exists.
  unfoldable pub advance_stream :
      Fetch (LogDocument P) → PacketId → Version → Write Ref (LogDocument P)
  advance_stream (found d) id version =
      Write.update (stream_at (path_id id)) (λ _. LogDocument.stream version)
  advance_stream _ id version = Write.create (stream_at (path_id id)) (LogDocument.stream version)

  unfoldable pub advance_streams :
      (Ref → Fetch (LogDocument P))
      → Dict Version
      → List PacketId
      → List (Write Ref (LogDocument P))
  unfolding advance_stream
  advance_streams reads final [] = []
  advance_streams reads final (id ∷ ids) =
      advance_stream (reads (stream_at (path_id id))) id (get_or 0 (get id final))
      ∷ advance_streams reads final ids

  -- The function of the transaction in `Append`.
  unfoldable pub append_body :
      Dict Version
      → List EventRecord
      → List (EventDocument P)
      → Dict Version
      → List PacketId
      → (Ref → Fetch (LogDocument P))
      → Fallible (Unit {0} × List (Write Ref (LogDocument P)))
  unfolding check_streams get_all create_events advance_streams
  append_body expected records documents final ids reads = do
    get_all reads ids
    check_streams reads expected ids
    ok (tt, create_events records documents ++ advance_streams reads final ids)
