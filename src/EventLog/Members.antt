-- ===== src/EventLog/Members.antt =====
-- The records of a log that its documents stand for, one by one.
use work_tracker.Prelude.{
  ℕ, ◌+◌, ◌<◌, ◌≤◌, ◌^◌, ◌≡◌, refl, ◌∙◌, ap, sym, ◌⊎◌, subst, Bool, true, some, List, [], ◌∷◌, ◌==◌,
  length, eq_iff, eq_refl, arith, Bool-cases, Option-cases, inl, inr, Among, here, later, keep,
  String,
}
use work_tracker.Prelude.NameSet.{contains}
use work_tracker.Prelude.Result.{ok}
use work_tracker.Packet.Types.{EventId}
use work_tracker.Packet.Store.{EventRecord, MemoryEventStore, record_event_id}
use work_tracker.Packet.Store.Streams.{stream, Numbered}
use work_tracker.Packet.Store.Identifiers.{ids_of, Distinct}
use work_tracker.Packet.Store.Valid.{length-keep-le}
use work_tracker.EventLog.Records.{Ref, event_at, EventDocument, LogDocument, Json, decode_record}
use work_tracker.EventLog.Coding.{ReadsBack, decode_record-Encoded}
use work_tracker.EventLog.Documents.{find, find-none, LogView}
use work_tracker.EventLog.Backed.{Backed}

Among-ids_of :
    {r : EventRecord} {rs : List EventRecord}
    → Among r rs
    → contains (record_event_id r) (ids_of rs) ≡ true
unfolding contains
Among-ids_of {r} here = ground (arith, eq_refl (record_event_id r))
Among-ids_of (later m) = ground (arith, Among-ids_of m)

-- A record of a log is found by its identifier.
pub find-own :
    {r : EventRecord} {rs : List EventRecord}
    → Distinct (ids_of rs)
    → Among r rs
    → find (record_event_id r) rs ≡ some r
unfolding find
find-own {r} u here = ground (arith, eq_refl (record_event_id r))
find-own {r} {rs = x ∷ rs} u (later m) =
    elim (Bool-cases (record_event_id x == record_event_id r)) [
      | inl same ↦ absurd (
          ground (
            arith,
            Among-ids_of m,
            ap (λ k. contains k (ids_of rs))
                ((eq_iff (record_event_id x) (record_event_id r)).0 same),
            u.0,
          ))
      | inr other ↦ rw other (find-own u.1 m)
    ]

pub Among-keep :
    {A : Type 0} (p : A → Bool) {x : A} {xs : List A}
    → p x ≡ true
    → Among x xs
    → Among x (keep p xs)
Among-keep p t here = rw t here
Among-keep p {xs = y ∷ ys} t (later m) = elim (Bool-cases (p y)) [
  | inl kept ↦ rw kept (later (Among-keep p t m))
  | inr dropped ↦ rw dropped (Among-keep p t m)
]

pub Among-cases : {A : Type 0} {x y : A} {xs : List A} → Among x (y ∷ xs) → (x ≡ y) ⊎ Among x xs
Among-cases here = inl refl
Among-cases (later m) = inr m

pub none-Among : {A : Type 0} {x : A} {xs : List A} → xs ≡ [] → Among x xs → ⊥
none-Among {xs = []} h m = elim m [ ]
none-Among {xs = y ∷ ys} h m = cc h

pub keep-Among :
    {A : Type 0} (p : A → Bool) {x : A} (xs : List A)
    → Among x (keep p xs)
    → (p x ≡ true) × Among x xs
keep-Among p [] m = elim m [ ]
keep-Among p {x} (y ∷ ys) m = elim (Bool-cases (p y)) [
  | inr dropped ↦ let (t, n) = keep-Among p ys (subst (Among x) (rw dropped refl) m) in (t, later n)
  | inl kept ↦ elim (Among-cases {y = y} (subst (Among x) (rw kept refl) m)) [
    | inl same ↦ (ap p same ∙ kept, subst (λ z. Among z (y ∷ ys)) (sym same) here)
    | inr n ↦ let (t, n') = keep-Among p ys n in (t, later n')
  ]
]

pub find-Among :
    (k : EventId) (rs : List EventRecord) (r : EventRecord) → find k rs ≡ some r → Among r rs
unfolding find
find-Among k [] r h = absurd (cc h)
find-Among k (x ∷ rs) r h = elim (Bool-cases (record_event_id x == k)) [
  | inl same ↦ subst (λ q. Among q (x ∷ rs)) (ground arith) here
  | inr other ↦ later (find-Among k rs r (ground arith))
]

find-id :
    (k : EventId) (rs : List EventRecord) (r : EventRecord)
    → find k rs ≡ some r
    → record_event_id r ≡ k
unfolding find
find-id k [] r h = absurd (cc h)
find-id k (x ∷ rs) r h = elim (Bool-cases (record_event_id x == k)) [
  | inl same ↦
      let is_r : x ≡ r = ground arith in
      subst (λ q. record_event_id q ≡ k) is_r ((eq_iff (record_event_id x) k).0 same)
  | inr other ↦ find-id k rs r (ground arith)
]

-- The versions in a stream.
Numbered-Among :
    (v : ℕ) (xs : List EventRecord) (r : EventRecord)
    → Numbered v xs
    → Among r xs
    → (v ≤ r.stream_version) × (r.stream_version < v + length xs)
Numbered-Among v [] r n m = elim m [ ]
Numbered-Among v (x ∷ xs) r n here = omega (arith, n.0)
Numbered-Among v (x ∷ xs) r n (later m) = omega (arith, Numbered-Among (v + 1) xs r n.1 m)

module _ {P : Type 0} (json : Json P) (law : ReadsBack json) (path_id : String → String)
    (view : LogView P) (s : MemoryEventStore) (small : length s.records < 2 ^ 63)
    (b : Backed json path_id view s) where
  -- The document of a record of the log, and that it is decoded to the record.
  pub record Member (r : EventRecord) : Type 0 where
    pub document : EventDocument P
    pub there : view (event_at (path_id (record_event_id r))) ≡ some (LogDocument.event document)
    pub own : document.packet_id ≡ r.packet_id
    pub decoded : decode_record json document ≡ ok r
    pub listed : Among r s.records

  pub Among-Member : (r : EventRecord) → Among r s.records → Member r
  Among-Member r m =
      let i = b.events (record_event_id r) r (find-own b.valid.distinct m) in
      let in_stream : Among r (stream r.packet_id s.records) =
        Among-keep (λ (q : EventRecord). q.packet_id == r.packet_id) (eq_refl r.packet_id) m in
      let (positive, bounded) =
        Numbered-Among 1 (stream r.packet_id s.records) r (b.valid.numbered r.packet_id)
          in_stream in
      let short = length-keep-le (λ (q : EventRecord). q.packet_id == r.packet_id) s.records in
      record {
        document = i.document;
        there = i.there;
        own = ap (λ (d : EventDocument P). d.packet_id) i.encoded.document;
        decoded =
            decode_record-Encoded json law i.seen i.want r i.document i.encoded
              (λ unnamed. none-Among (ap (λ p. stream p s.records) unnamed ∙ b.named) in_stream)
              (omega (arith, positive, i.encoded.position))
              (omega (arith, bounded, i.encoded.position, short));
        listed = m;
      }

  -- Every event document is that of a record of the log.
  pub document-Member :
      (ref : Ref) (d : EventDocument P)
      → view ref ≡ some (LogDocument.event d)
      → (r : EventRecord) × (k : Member r) × (d ≡ k.document)
  document-Member ref d h =
      let (k, at_k, listed) = b.only ref d h in
      elim (Option-cases (find k s.records)) [
        | inl absent ↦ absurd (cc (listed, find-none k s.records absent))
        | inr (r, found) ↦
            let member = Among-Member r (find-Among k s.records r found) in
            let its_place = ap (λ q. view (event_at (path_id q))) (find-id k s.records r found) in
            let same : some (LogDocument.event d) ≡ some (LogDocument.event member.document) =
              sym h ∙ ap view at_k ∙ sym its_place ∙ member.there in
            (r, member, cc same)
      ]
