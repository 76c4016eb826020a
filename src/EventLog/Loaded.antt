-- ===== src/EventLog/Loaded.antt =====
-- What `Load` reads is what the log in memory holds.
use work_tracker.Prelude.{
  ◌≡◌, refl, ◌∙◌, ap, sym, subst, Bool, true, false, some, List, [], ◌∷◌, ◌++◌, ◌==◌, eq_iff, arith,
  Bool-cases, inl, inr, All, All-append, All-map, Among, here, later, Among-left, Among-right,
  String,
}
use work_tracker.Prelude.NameSet.{NameSet, contains}
use work_tracker.Prelude.Result.{ok, err, Result-cases, ok-injective, ◌>>=◌}
use work_tracker.Packet.Types.{PacketId, Error, external, Fallible}
use work_tracker.Packet.Store.{EventRecord}
use work_tracker.Documents.{as_written, Database, IsDatabase}
use work_tracker.EventLog.Records.{
  Ref, same_ref, EventDocument, LogDocument, Json, decode_record, decode_documents,
}
use work_tracker.EventLog.Documents.{LogView}
use work_tracker.EventLog.Members.{Among-cases}
use work_tracker.EventLog.Store.{is_event, is_event_of, query_packets}

module _ {P : Type 0} (json : Json P) where
  -- Documents that are all decoded to records of one kind, and the records.
  pub record Decodes (Q : EventRecord → Type 0) (ds : List (LogDocument P)) : Type 0 where
    pub records : List EventRecord
    pub answer : decode_documents json ds ≡ ok records
    pub each : All Q records
    pub every :
        (d : EventDocument P) (r : EventRecord)
        → Among (LogDocument.event d) ds
        → decode_record json d ≡ ok r
        → Among r records

  abbrev pub Decodable : (EventRecord → Type 0) → LogDocument P → Type 0
  Decodable Q d =
      (e : EventDocument P) × (d ≡ LogDocument.event e)
      × ((r : EventRecord) × (decode_record json e ≡ ok r) × Q r)

  pub decode_documents-Decodes :
      (Q : EventRecord → Type 0) (ds : List (LogDocument P)) → All (Decodable Q) ds → Decodes Q ds
  unfolding decode_documents
  decode_documents-Decodes Q [] a = record {
    records = [];
    answer = refl;
    each = tt;
    every = λ d r m h. elim m [ ];
  }
  decode_documents-Decodes Q (LogDocument.stream v ∷ ds) a =
      let (e, bad, _) = a.0 in absurd (cc bad)
  decode_documents-Decodes Q (LogDocument.event d ∷ ds) a =
      let (e, same, (r, decoded, good)) = a.0 in
      let rest = decode_documents-Decodes Q ds a.1 in
      let is_d : e ≡ d = cc same in
      let first : decode_record json d ≡ ok r = ap (decode_record json) (sym is_d) ∙ decoded in
      record {
        records = r ∷ rest.records;
        answer = rw (first, rest.answer) refl;
        each = (good, rest.each);
        every = λ d' r' m h. elim (Among-cases m) [
          | inr n ↦ later (rest.every d' r' n h)
          | inl same_d ↦
              let at_d : d' ≡ d = cc same_d in
              let same_r : ok r ≡ ok r' = sym first ∙ ap (decode_record json) (sym at_d) ∙ h in
              subst (λ q. Among r' (q ∷ rest.records)) (sym (ok-injective same_r)) here
        ];
      }

module _ {P S : Type 0} (json : Json P) (path_id : String → String) (view : S → LogView P)
    (db : Database Ref (LogDocument P) Error S) (t : S) where
  -- An event document of a packet that is asked for.
  abbrev pub Asked : List PacketId → LogDocument P → Type 0
  Asked ids d =
      (e : EventDocument P) × (d ≡ LogDocument.event e)
      × (contains e.packet_id ids ≡ true)
      × ((ref : Ref) × (view t ref ≡ some d))

  -- How the queries for the packets that are asked for end.
  pub data Queried (seen : NameSet) (ids : List PacketId)
      : Fallible (List (LogDocument P)) → Type 0 where
    gathered :
        (ds : List (LogDocument P))
        → All (Asked ids) ds
        → ((ref : Ref) (e : EventDocument P)
            → view t ref ≡ some (LogDocument.event e)
            → contains e.packet_id ids ≡ true
            → contains e.packet_id seen ≡ false
            → Among (LogDocument.event e) ds)
        → Queried seen ids (ok ds)
    unnamed :
        contains "" ids ≡ true → Queried seen ids (err (external "cannot load an empty packet id"))
    lost :
        (p : LogDocument P → Bool) (e : String)
        → db.query p t ≡ err e
        → Queried seen ids (err (external e))

  module _ (law : IsDatabase same_ref as_written view db) where
    widened :
        (id : PacketId) (ids : List PacketId) (ds : List (LogDocument P))
        → All (Asked ids) ds
        → All (Asked (id ∷ ids)) ds
    unfolding contains
    widened id ids ds =
        All-map (Asked ids) (Asked (id ∷ ids)) ds
          (λ d (e, is_event, asked, at_ref). (e, is_event, ground arith, at_ref))

    of_packet :
        (id : PacketId) (ids : List PacketId) (d : LogDocument P)
        → (is_event_of id d ≡ true) × ((ref : Ref) × (view t ref ≡ some d))
        → Asked (id ∷ ids) d
    unfolding contains
    of_packet id ids (LogDocument.event e) (same, at_ref) =
        (e, refl, ground (arith, eq_iff id e.packet_id, eq_iff e.packet_id id), at_ref)
    of_packet id ids (LogDocument.stream v) (same, at_ref) = absurd (cc same)

    skipped :
        (seen : NameSet) (id : PacketId) (ids : List PacketId) {x : Fallible (List (LogDocument P))}
        → contains id seen ≡ true
        → Queried seen ids x
        → Queried seen (id ∷ ids) x
    unfolding contains
    skipped seen id ids again (gathered ds sound complete) =
        gathered ds (widened id ids ds sound)
          (λ ref e h asked new. complete ref e h (ground (arith, eq_iff id e.packet_id)) new)
    skipped seen id ids again (unnamed h) = unnamed (ground arith)
    skipped seen id ids again (lost p e h) = lost p e h

    joined :
        (seen : NameSet) (id : PacketId) (ids : List PacketId) (ds : List (LogDocument P))
        {x : Fallible (List (LogDocument P))}
        → db.query (is_event_of id) t ≡ ok ds
        → Queried (id ∷ seen) ids x
        → Queried seen (id ∷ ids) (x >>= λ others. ok (ds ++ others))
    unfolding contains
    joined seen id ids ds h (gathered others sound complete) =
        gathered (ds ++ others)
          (All-append (Asked (id ∷ ids)) ds others
            (All-map _ (Asked (id ∷ ids)) ds (of_packet id ids)
              (law.queries (is_event_of id) t ds h))
            (widened id ids others sound))
          (λ ref e there asked new. elim (Bool-cases (e.packet_id == id)) [
            | inl same ↦
                Among-left others
                  (law.complete (is_event_of id) t ds ref (LogDocument.event e) h there same)
            | inr other ↦ Among-right ds (
                complete ref e there (ground (arith, eq_iff id e.packet_id, eq_iff e.packet_id id))
                  (ground (arith, eq_iff id e.packet_id, eq_iff e.packet_id id)))
          ])
    joined seen id ids ds h (unnamed n) = unnamed (ground arith)
    joined seen id ids ds h (lost p e q) = lost p e q

    pub query_packets-Queried :
        (seen : NameSet) (ids : List PacketId)
        → Queried seen ids (query_packets json path_id db seen ids t)
    unfolding query_packets contains
    query_packets-Queried seen [] = gathered [] tt (λ ref e there asked. absurd (cc asked))
    query_packets-Queried seen (id ∷ ids) = elim (Bool-cases (id == "")) [
      | inl no_name ↦ rw no_name (unnamed (ground arith))
      | inr named ↦ elim (Bool-cases (contains id seen)) [
        | inl again ↦ rw (named, again) (skipped seen id ids again (query_packets-Queried seen ids))
        | inr first ↦ elim (Result-cases (db.query (is_event_of id) t)) [
          | inr (e, failed) ↦ rw (named, first, failed) (lost (is_event_of id) e failed)
          | inl (ds, answer) ↦
              rw (named, first, answer)
                (joined seen id ids ds answer (query_packets-Queried (id ∷ seen) ids))
        ]
      ]
    ]
