-- ===== src/EventLog/LoadRefines.antt =====
-- The durable `Load` refines the one in memory.
use work_tracker.Prelude.{
  ◌<◌, ◌^◌, ◌≡◌, ◌∙◌, ap, Bool, true, some, List, length, All, All-map, All-of, Among, keep, String,
}
use work_tracker.Prelude.NameSet.{contains}
use work_tracker.Prelude.Result.{ok, err}
use work_tracker.Packet.Types.{PacketId, Error, external, Fallible}
use work_tracker.Packet.Store
use work_tracker.Packet.Store.{EventRecord, MemoryEventStore}
use work_tracker.Documents.{as_written, Database, IsDatabase}
use work_tracker.EventLog.Records.{
  Ref, same_ref, EventDocument, LogDocument, Json, decode_record, decode_documents,
}
use work_tracker.EventLog.Coding.{ReadsBack}
use work_tracker.EventLog.Documents.{LogView}
use work_tracker.EventLog.Backed.{Backed}
use work_tracker.EventLog.Members.{Member, Among-Member, document-Member, Among-keep, keep-Among}
use work_tracker.EventLog.Store.{load}
use work_tracker.EventLog.Loaded.{Decodable, decode_documents-Decodes}

module _ {P S : Type 0} (db : Database Ref (LogDocument P) Error S) where
  -- How a durable load ends, where the documents hold the log `s`: with the records that the log in memory
  -- gives, in an order that the database chooses, or with the error of an empty identifier or of a query.
  pub data LoadEnds (ids : List PacketId) (s : MemoryEventStore) (t : S)
      : Fallible (List EventRecord) → Type 0 where
    loaded :
        (rs : List EventRecord)
        → All (λ r. Among r (Store.load ids s)) rs
        → All (λ r. Among r rs) (Store.load ids s)
        → LoadEnds ids s t (ok rs)
    no_name :
        contains "" ids ≡ true → LoadEnds ids s t (err (external "cannot load an empty packet id"))
    no_answer :
        (p : LogDocument P → Bool) (e : String)
        → db.query p t ≡ err e
        → LoadEnds ids s t (err (external e))

module _ {P S : Type 0} (json : Json P) (law : ReadsBack json) (path_id : String → String)
    (view : S → LogView P) (db : Database Ref (LogDocument P) Error S)
    (is_db : IsDatabase same_ref as_written view db) (s : MemoryEventStore) (t : S)
    (small : length s.records < 2 ^ 63) (b : Backed json path_id (view t) s) where
  -- Documents that hold exactly the records of a part of the log.
  decoded :
      (asked : EventRecord → Bool) (ds : List (LogDocument P))
      → All
          (λ d.
            (e : EventDocument P) × (d ≡ LogDocument.event e)
            × ((r : EventRecord) → e.packet_id ≡ r.packet_id → asked r ≡ true)
            × ((ref : Ref) × (view t ref ≡ some d)))
          ds
      → ((r : EventRecord) (k : Member json law path_id (view t) s small b r)
          → asked r ≡ true
          → Among (LogDocument.event k.document) ds)
      → (rs : List EventRecord) × (decode_documents json ds ≡ ok rs)
        × All (λ r. Among r (keep asked s.records)) rs
        × All (λ r. Among r rs) (keep asked s.records)
  decoded asked ds each all =
      let part : EventRecord → Type 0 = λ r. Among r (keep asked s.records) in
      let d = decode_documents-Decodes json part ds (
        All-map _ (Decodable json part) ds
          (λ d (e, is_e, matches, (ref, at)).
            let (r, k, same) =
              document-Member json law path_id (view t) s small b ref e (at ∙ ap some is_e) in
            (
              e,
              is_e,
              (
                r,
                ap (decode_record json) same ∙ k.decoded,
                Among-keep asked
                    (matches r (ap (λ (x : EventDocument P). x.packet_id) same ∙ k.own)) k.listed,
              ),
            ))
          each) in
      (
        d.records,
        d.answer,
        d.each,
        All-of (λ r. Among r d.records) (keep asked s.records)
            (λ r m.
              let (passes, listed) = keep-Among asked s.records m in
              let k = Among-Member json law path_id (view t) s small b r listed in
              d.every k.document r (all r k passes) k.decoded),
      )
