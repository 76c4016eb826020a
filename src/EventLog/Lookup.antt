-- ===== src/EventLog/Lookup.antt =====
-- What is found among the documents after the writes of `Append`.
use work_tracker.Prelude.{
  ◌≡◌, refl, ◌∙◌, ap, sym, ◌⊎◌, eq_refl, subst, true, false, none, some, List, [], ◌∷◌, ◌==◌,
  eq_iff, arith, Bool-cases, inl, inr, if◌then◌else◌, String,
}
use work_tracker.Prelude.Dict.{Dict, get, get_or}
use work_tracker.Prelude.NameSet.{NameSet, contains}
use work_tracker.Packet.Types.{PacketId, EventId, Version}
use work_tracker.Packet.Store.{EventRecord, record_event_id}
use work_tracker.Packet.Store.Identifiers.{ids_of, Distinct}
use work_tracker.Documents.{set}
use work_tracker.EventLog.Records.{
  Ref, event_at, stream_at, same_ref, LogDocument, EventDocument, Json,
}
use work_tracker.EventLog.Encoding.{Coded, nil, cons}
use work_tracker.EventLog.Coding.{Encoded}
use work_tracker.Documents.Writes.{same_path}
use work_tracker.Documents.Table.{IsTest}
use work_tracker.EventLog.Documents.{find, find_absent, LogView, with_events, with_streams}

pub same_ref-IsTest : IsTest same_ref
same_ref-IsTest (event_at a) (event_at b) =
    (λ h. ap event_at ((eq_iff a b).0 h), λ h. (eq_iff a b).1 cc)
same_ref-IsTest (stream_at a) (stream_at b) =
    (λ h. ap stream_at ((eq_iff a b).0 h), λ h. (eq_iff a b).1 cc)
same_ref-IsTest (event_at a) (stream_at b) = (λ h. absurd (cc h), λ h. absurd (cc h))
same_ref-IsTest (stream_at a) (event_at b) = (λ h. absurd (cc h), λ h. absurd (cc h))

module _ {P : Type 0} (path_id : String → String) where
  -- What is found under a reference after the writes.
  pub with_events-stream :
      (rs : List EventRecord) (ds : List (EventDocument P)) (v : LogView P) (q : String)
      → with_events path_id rs ds v (stream_at q) ≡ v (stream_at q)
  unfolding with_events
  with_events-stream [] ds v q = refl
  with_events-stream (r ∷ rs) [] v q = refl
  with_events-stream (r ∷ rs) (d ∷ ds) v q = with_events-stream rs ds _ q

  pub with_streams-event :
      (final : Dict Version) (ids : List PacketId) (v : LogView P) (q : String)
      → with_streams path_id final ids v (event_at q) ≡ v (event_at q)
  unfolding with_streams
  with_streams-event final [] v q = refl
  with_streams-event final (id ∷ ids) v q = with_streams-event final ids _ q

  -- The writes add no other events.
  pub with_streams-only :
      (final : Dict Version) (ids : List PacketId) (v : LogView P) (ref : Ref) (d : EventDocument P)
      → with_streams path_id final ids v ref ≡ some (LogDocument.event d)
      → v ref ≡ some (LogDocument.event d)
  unfolding with_streams
  with_streams-only final [] v ref d h = h
  with_streams-only final (id ∷ ids) v ref d h =
      let before = with_streams-only final ids _ ref d h in ground (arith, before)

  pub with_events-only :
      (rs : List EventRecord) (ds : List (EventDocument P)) (v : LogView P) (ref : Ref)
      (d : EventDocument P)
      → with_events path_id rs ds v ref ≡ some (LogDocument.event d)
      → (v ref ≡ some (LogDocument.event d))
        ⊎ ((k : EventId) × (ref ≡ event_at (path_id k)) × (contains k (ids_of rs) ≡ true))
  unfolding with_events contains
  with_events-only [] ds v ref d h = inl h
  with_events-only (r ∷ rs) [] v ref d h = inl h
  with_events-only (r ∷ rs) (d' ∷ ds) v ref d h = elim (with_events-only rs ds _ ref d h) [
    | inr (k, at_k, there) ↦ inr (k, at_k, ground arith)
    | inl before ↦ elim (Bool-cases (same_ref (event_at (path_id (record_event_id r))) ref)) [
      | inl here ↦ inr (
        record_event_id r,
        sym ((same_ref-IsTest (event_at (path_id (record_event_id r))) ref).0 here),
        ground (arith, eq_refl (record_event_id r)),
      )
      | inr other ↦ inl (ground arith)
    ]
  ]

  -- The document of a record of the batch.
  pub record IsStored (json : Json P) (v : LogView P) (k : EventId) (r : EventRecord) : Type 0 where
    pub document : EventDocument P
    pub there : v (event_at (path_id k)) ≡ some (LogDocument.event document)
    pub seen : NameSet
    pub want : Version
    pub encoded : Encoded json seen want r document

  module _ (distinct : (a b : String) → path_id a ≡ path_id b → a ≡ b) where
    pub with_streams-stream :
        (final : Dict Version) (ids : List PacketId) (v : LogView P) (p : PacketId)
        → with_streams path_id final ids v (stream_at (path_id p)) ≡ (
            if contains p ids
            then some (LogDocument.stream (get_or 0 (get p final)))
            else v (stream_at (path_id p)))
    unfolding with_streams contains
    with_streams-stream final [] v p = refl
    with_streams-stream final (id ∷ ids) v p = ground (
      arith,
      eq_iff id p,
      same_path path_id distinct id p,
      with_streams-stream final ids
          (set same_ref (stream_at (path_id id)) (LogDocument.stream (get_or 0 (get id final))) v)
          p,
    )

    pub with_events-absent :
        (rs : List EventRecord) (ds : List (EventDocument P)) (v : LogView P) (k : EventId)
        → find k rs ≡ none
        → with_events path_id rs ds v (event_at (path_id k)) ≡ v (event_at (path_id k))
    unfolding with_events find
    with_events-absent [] ds v k h = refl
    with_events-absent (r ∷ rs) [] v k h = refl
    with_events-absent (r ∷ rs) (d ∷ ds) v k h = ground (
      arith,
      same_path path_id distinct (record_event_id r) k,
      with_events-absent rs ds
          (set same_ref (event_at (path_id (record_event_id r))) (LogDocument.event d) v) k,
    )

    pub with_events-IsStored :
        {json : Json P} {rs : List EventRecord} {ds : List (EventDocument P)} (v : LogView P)
        (k : EventId) {r : EventRecord}
        → Coded json rs ds
        → Distinct (ids_of rs)
        → find k rs ≡ some r
        → IsStored json (with_events path_id rs ds v) k r
    unfolding with_events find
    with_events-IsStored v k nil u h = absurd (cc h)
    with_events-IsStored {json = json} {rs = x ∷ rs} {ds = d ∷ ds} v k (cons seen want e c) u h =
        let w = set same_ref (event_at (path_id (record_event_id x))) (LogDocument.event d) v in
        elim (Bool-cases (record_event_id x == k)) [
          | inl here ↦
              let at_k : record_event_id x ≡ k = (eq_iff (record_event_id x) k).0 here in
              let later : find k rs ≡ none =
                find_absent k rs (subst (λ j. contains j (ids_of rs) ≡ false) at_k u.0) in
              record {
                document = d;
                there =
                    with_events-absent rs ds w k later
                    ∙ ground (arith, same_path path_id distinct (record_event_id x) k);
                seen = seen;
                want = want;
                encoded = subst (λ q. Encoded json seen want q d) (ground arith) e;
              }
          | inr there ↦ with_events-IsStored w k c u.1 (ground arith)
        ]
