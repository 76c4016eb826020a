-- ===== src/Packet/Store/Valid.antt =====
-- The invariant of `MemoryEventStore` and the contract of `Append`.
use work_tracker.Prelude.{
  ◌+◌, ◌<◌, ◌≤◌, ◌≡◌, refl, ◌≢◌, ◌∙◌, ap, subst, sym, Bool, none, some, List, [], ◌∷◌, ◌++◌, ◌==◌,
  arith, keep, length, length-append, Bool-cases, Option-cases, inl, inr, All, All-append,
}
use work_tracker.Prelude.Dict.{Dict, get, get_or}
use work_tracker.Prelude.NameSet.{contains, contains-append}
use work_tracker.Prelude.Result.{Result, ok, err, Result-cases}
use work_tracker.Packet.Types.{
  PacketId, EventId, Version, next_version, next_version-eq-add, version_mod, Error,
}
use work_tracker.Packet.Store.{
  EventRecord, MemoryEventStore, empty_store, append, check_append, check_expected, validate_append,
  validate_records, expected_next, check_ids, commit,
}
use work_tracker.Packet.Store.Streams.{
  stream, Numbered, IsOwn, keep-append, Numbered-append, check_expected_sound, get-expected_next,
  next_of, validate_records-Numbered, validate_records_untouched, validate_records-IsOwn,
  get-advance_versions,
}
use work_tracker.Packet.Store.Identifiers.{
  ids_of, Distinct, Apart, ids_of-append, check_ids_sound, Distinct-append, contains-add_ids,
  Apart-same,
}

pub record IsValid (s : MemoryEventStore) : Type 0 where
  -- every stream is numbered from one without a gap
  pub numbered : (p : PacketId) → Numbered 1 (stream p s.records)
  -- the version that is kept for a packet is the length of its stream
  pub counted : (p : PacketId) → get_or 0 (get p s.versions) ≡ length (stream p s.records)
  -- every event is of its record's packet
  pub own : All IsOwn s.records
  -- the identifiers that are kept are those of the log, and none stands twice
  pub listed : (k : EventId) → contains k s.event_ids ≡ contains k (ids_of s.records)
  pub distinct : Distinct (ids_of s.records)

pub empty_store-IsValid : IsValid empty_store
unfolding get contains
empty_store-IsValid = record {
  numbered = λ p. tt;
  counted = λ p. refl;
  own = tt;
  listed = λ k. refl;
  distinct = tt;
}

-- What a batch has passed when `Append` accepts it.
pub record Fits (expected : Dict Version) (rs : List EventRecord) (s : MemoryEventStore)
    : Type 0 where
  -- every expected version is that of the stored stream
  pub current :
      (p : PacketId) (v : Version) → get p expected ≡ some v → v ≡ length (stream p s.records)
  -- the records of each packet continue its stream, and a packet with no expected version has none
  pub continues : (p : PacketId) → Numbered (length (stream p s.records) + 1) (stream p rs)
  pub expected_only : (p : PacketId) → get p expected ≡ none → stream p rs ≡ []
  pub own : All IsOwn rs
  pub new_ids : Apart (ids_of s.records) (ids_of rs)
  pub distinct : Distinct (ids_of rs)
  pub nonempty : rs ≢ []

pub length-keep-le {ℓ} : {A : Type ℓ} (p : A → Bool) (xs : List A) → length (keep p xs) ≤ length xs
length-keep-le p [] = omega arith
length-keep-le p (x ∷ xs) = elim (Bool-cases (p x)) [
  | inl kept ↦ rw kept (omega (arith, length-keep-le p xs))
  | inr dropped ↦ rw dropped (omega (arith, length-keep-le p xs))
]

module _ (expected : Dict Version) (rs : List EventRecord) (s : MemoryEventStore) where
  -- The three groups of checks, one by one.
  passed :
      check_append expected rs s ≡ ok tt
      → (check_expected s.versions expected ≡ ok tt)
        × (validate_append expected rs ≡ ok tt)
        × (check_ids s.event_ids [] rs ≡ ok tt)
  unfolding check_append
  passed h = ground arith

  pub validated :
      validate_append expected rs ≡ ok tt
      → (next : Dict Version) × (expected_next expected ≡ ok next)
        × (validate_records next rs ≡ ok tt)
        × (rs ≢ [])
  unfolding validate_append
  validated h = elim (Result-cases (expected_next expected)) [
    | inl (next, e) ↦ (next, e, ground arith, ground arith)
    | inr (x, e) ↦ absurd (ground arith)
  ]

  module _ (bound : length s.records + length rs + 1 < version_mod) (valid : IsValid s) where
    -- The stream of a packet at its expected version goes on from there.
    continues_from :
        (next : Dict Version) (p : PacketId) {v : Version}
        → get p next ≡ next_of (get p expected)
        → validate_records next rs ≡ ok tt
        → get p expected ≡ some v
        → v ≡ length (stream p s.records)
        → Numbered (length (stream p s.records) + 1) (stream p rs)
    continues_from next p {v} built looped found current =
        let short = length-keep-le (λ (r : EventRecord). r.packet_id == p) s.records in
        let step : next_version v ≡ length (stream p s.records) + 1 =
          next_version-eq-add v (omega arith) ∙ omega arith in
        subst (λ n. Numbered n (stream p rs)) step
          (validate_records-Numbered next rs p looped (built ∙ ap next_of found) (omega arith))

    -- A batch that has its expected versions, passes `validateAppend`, and has new identifiers.
    pub Fits-of_parts :
        ((p : PacketId) (v : Version) → get p expected ≡ some v → v ≡ length (stream p s.records))
        → validate_append expected rs ≡ ok tt
        → Apart (ids_of s.records) (ids_of rs)
        → Distinct (ids_of rs)
        → Fits expected rs s
    Fits-of_parts current batch_ok new_ids distinct =
        let (next, built, looped, some_records) = validated batch_ok in
        let untouched = λ (p : PacketId) (g : get p expected ≡ none).
          validate_records_untouched next rs p looped
            (get-expected_next expected p built ∙ ap next_of g) in
        record {
          current = current;
          continues = λ p. elim (Option-cases (get p expected)) [
            | inl absent ↦ rw (untouched p absent) tt
            | inr (v, found) ↦
                continues_from next p (get-expected_next expected p built) looped found
                  (current p v found)
          ];
          expected_only = untouched;
          own = validate_records-IsOwn next rs looped;
          new_ids = new_ids;
          distinct = distinct;
          nonempty = some_records;
        }

    Fits-of_check : check_append expected rs s ≡ ok tt → Fits expected rs s
    Fits-of_check h =
        let (versions_ok, batch_ok, ids_ok) = passed h in
        let ids = check_ids_sound s.event_ids [] rs ids_ok in
        Fits-of_parts
          (λ p v g.
            sym (check_expected_sound s.versions expected p versions_ok g) ∙ valid.counted p)
          batch_ok (Apart-same s.event_ids (ids_of s.records) (ids_of rs) valid.listed ids.0) ids.2

    pub commit-IsValid : Fits expected rs s → IsValid (commit rs s)
    unfolding commit
    commit-IsValid f = record {
      numbered = λ p. rw (keep-append (λ (r : EventRecord). r.packet_id == p) s.records rs) (
          Numbered-append 1 (stream p s.records) (stream p rs) (valid.numbered p)
            (subst (λ n. Numbered n (stream p rs)) (omega arith) (f.continues p)));
      counted = λ p. rw (keep-append (λ (r : EventRecord). r.packet_id == p) s.records rs) (
          get-advance_versions s.versions rs p (valid.counted p) (f.continues p)
          ∙ sym (length-append (stream p s.records) (stream p rs)));
      own = All-append IsOwn s.records rs valid.own f.own;
      listed = λ k. rw (
        contains-add_ids k s.event_ids rs,
        ids_of-append s.records rs,
        contains-append k (ids_of s.records) (ids_of rs),
        valid.listed k,
      );
      distinct =
          rw (ids_of-append s.records rs)
            (Distinct-append (ids_of s.records) (ids_of rs) valid.distinct f.distinct f.new_ids);
    }

-- How an append ends: it takes the whole batch, which then fits, or it reports an error and changes
-- nothing.
pub data Outcome (expected : Dict Version) (rs : List EventRecord) (s : MemoryEventStore)
    : Result Error Unit × MemoryEventStore → Type 0 where
  stored :
      {s' : MemoryEventStore}
      → Fits expected rs s
      → s'.records ≡ s.records ++ rs
      → IsValid s'
      → Outcome expected rs s (ok tt, s')
  refused : (e : Error) → Outcome expected rs s (err e, s)

-- `Append` on a valid store whose versions do not wrap is atomic and keeps the invariant: either every
-- check holds of the batch and the log is the old log with the batch behind it, or there is an error
-- and the store is unchanged.
pub append-Outcome :
    (expected : Dict Version) (rs : List EventRecord) (s : MemoryEventStore)
    → length s.records + length rs + 1 < version_mod
    → IsValid s
    → Outcome expected rs s (append expected rs s)
unfolding append
append-Outcome expected rs s bound valid = elim (Result-cases (check_append expected rs s)) [
  | inl (_, fine) ↦
      let f = Fits-of_check expected rs s bound valid fine in
      rw (fine, append) (Outcome.stored f refl (commit-IsValid expected rs s bound valid f))
  | inr (e, refusal) ↦ rw (refusal, append) (Outcome.refused e)
]
