-- ===== src/Packet/Store/Streams.antt =====
-- Streams of a log, and what the version checks of `Append` establish about them.
use work_tracker.Prelude.{
  ℕ, ◌+◌, ◌<◌, ◌≡◌, refl, ◌∙◌, ap, subst, Bool, false, Option, none, some, List, [], ◌∷◌, ◌++◌,
  ◌==◌, arith, keep, length, eq_iff, Bool-cases, Option-cases, inl, inr, All,
}
use work_tracker.Prelude.Dict.{Dict, get, get_or, put, get-put}
use work_tracker.Prelude.Result.{ok, Result-cases}
use work_tracker.Packet.Types.{PacketId, Version, next_version, next_version-eq-add, version_mod}
use work_tracker.Packet.Store.{
  EventRecord, check_expected, expected_next, validate_records, advance_versions, is_foreign,
}

-- The records of one packet, in the order of the log.
abbrev pub stream : PacketId → List EventRecord → List EventRecord
stream p = keep (λ r. r.packet_id == p)

-- The stream versions run on from `v` without a gap.
abbrev pub Numbered : Version → List EventRecord → Type 0
Numbered v [] = Unit
Numbered v (r ∷ rs) = (r.stream_version ≡ v) × Numbered (v + 1) rs

-- Every record has an event, and the event is of the record's packet.
abbrev pub IsOwn : EventRecord → Type 0
IsOwn r = is_foreign r ≡ false

pub keep-append {ℓ} :
    {A : Type ℓ} (p : A → Bool) (xs ys : List A) → keep p (xs ++ ys) ≡ keep p xs ++ keep p ys
keep-append p [] ys = refl
keep-append p (x ∷ xs) ys = elim (Bool-cases (p x)) [
  | inl kept ↦ rw kept (ap (λ r. x ∷ r) (keep-append p xs ys))
  | inr dropped ↦ rw dropped (keep-append p xs ys)
]

pub Numbered-append :
    (v : ℕ) (xs ys : List EventRecord)
    → Numbered v xs
    → Numbered (v + length xs) ys
    → Numbered v (xs ++ ys)
Numbered-append v [] ys a b = subst (λ n. Numbered n ys) (omega arith) b
Numbered-append v (x ∷ xs) ys a b =
    (a.0, Numbered-append (v + 1) xs ys a.1 (subst (λ n. Numbered n ys) (omega arith) b))

-- An append that passes the comparison names each stream at its stored version.
pub check_expected_sound :
    (versions expected : Dict Version) (p : PacketId) {v : Version}
    → check_expected versions expected ≡ ok tt
    → get p expected ≡ some v
    → get_or 0 (get p versions) ≡ v
unfolding check_expected get
check_expected_sound versions [] p h g = cc
check_expected_sound versions ((id, w) ∷ expected) p {v} h g =
    ground (arith, eq_iff id p, check_expected_sound versions expected p {v = v})

-- The map `next` holds the successor of each expected version.
abbrev pub next_of : Option Version → Option Version
next_of none = none
next_of (some v) = some (next_version v)

pub get-expected_next :
    (expected : Dict Version) {next : Dict Version} (p : PacketId)
    → expected_next expected ≡ ok next
    → get p next ≡ next_of (get p expected)
unfolding expected_next get
get-expected_next [] p h = ground arith
get-expected_next ((id, w) ∷ expected) {next} p h = elim (Result-cases (expected_next expected)) [
  | inl (rest, e) ↦
      ground
        (arith, eq_iff id p, get-put id p (next_version w) rest, get-expected_next expected p e)
  | inr (x, e) ↦ absurd (ground arith)
]

-- Expected versions are of packets with names.
pub expected_next-named :
    (expected : Dict Version) {next : Dict Version}
    → expected_next expected ≡ ok next
    → get "" expected ≡ none
unfolding expected_next get
expected_next-named [] h = refl
expected_next-named ((id, v) ∷ expected) h = elim (Result-cases (expected_next expected)) [
  | inl (rest, e) ↦ ground (arith, expected_next-named expected e)
  | inr (x, e) ↦ absurd (ground arith)
]

-- What the loop of `validateAppend` has checked of its first record.
record Checked (next : Dict Version) (r : EventRecord) (rs : List EventRecord) : Type 0 where
  want : Version
  touched : get r.packet_id next ≡ some want
  own : IsOwn r
  position : r.stream_version ≡ want
  rest : validate_records (put r.packet_id (next_version want) next) rs ≡ ok tt

checked :
    (next : Dict Version) (r : EventRecord) (rs : List EventRecord)
    → validate_records next (r ∷ rs) ≡ ok tt
    → Checked next r rs
unfolding validate_records
checked next r rs h = elim (Option-cases (get r.packet_id next)) [
  | inl absent ↦ absurd (ground arith)
  | inr (want, found) ↦ record {
    want = want;
    touched = found;
    own = ground arith;
    position = ground arith;
    rest = ground arith;
  }
]

-- Records that pass `validateAppend` are of the expected packets, and continue their streams.
pub validate_records-Numbered :
    (next : Dict Version) (rs : List EventRecord) (p : PacketId) {v : Version}
    → validate_records next rs ≡ ok tt
    → get p next ≡ some v
    → v + length rs < version_mod
    → Numbered v (stream p rs)
validate_records-Numbered next [] p h g b = tt
validate_records-Numbered next (r ∷ rs) p {v} h g b =
    let c = checked next r rs h in
    let put_lem = get-put r.packet_id p (next_version c.want) next in
    elim (Bool-cases (r.packet_id == p)) [
      | inl same ↦
          let at_p : r.packet_id ≡ p = (eq_iff r.packet_id p).0 same in
          let here : c.want ≡ v = ground (arith, c.touched) in
          rw same (
            ground (arith, c.position),
            validate_records-Numbered (put r.packet_id (next_version c.want) next) rs p c.rest
                (ground (arith, put_lem, next_version-eq-add v (omega arith))) (omega arith),
          )
      | inr other ↦ rw other (
          validate_records-Numbered (put r.packet_id (next_version c.want) next) rs p c.rest
            (ground (arith, put_lem)) (omega arith))
    ]

pub validate_records_untouched :
    (next : Dict Version) (rs : List EventRecord) (p : PacketId)
    → validate_records next rs ≡ ok tt
    → get p next ≡ none
    → stream p rs ≡ []
validate_records_untouched next [] p h g = refl
validate_records_untouched next (r ∷ rs) p h g =
    let c = checked next r rs h in
    let put_lem = get-put r.packet_id p (next_version c.want) next in
    elim (Bool-cases (r.packet_id == p)) [
      | inl same ↦ absurd (ground (arith, c.touched, eq_iff r.packet_id p))
      | inr other ↦ rw other (
          validate_records_untouched (put r.packet_id (next_version c.want) next) rs p c.rest
            (ground (arith, put_lem)))
    ]

pub validate_records-IsOwn :
    (next : Dict Version) (rs : List EventRecord) → validate_records next rs ≡ ok tt → All IsOwn rs
validate_records-IsOwn next [] h = tt
validate_records-IsOwn next (r ∷ rs) h =
    let c = checked next r rs h in
    (c.own, validate_records-IsOwn (put r.packet_id (next_version c.want) next) rs c.rest)

-- The stored version of a stream after a batch that continues it from `n`.
pub get-advance_versions :
    (versions : Dict Version) (rs : List EventRecord) (p : PacketId) {n : ℕ}
    → get_or 0 (get p versions) ≡ n
    → Numbered (n + 1) (stream p rs)
    → get_or 0 (get p (advance_versions versions rs)) ≡ n + length (stream p rs)
unfolding advance_versions
get-advance_versions versions [] p g m = omega arith
get-advance_versions versions (r ∷ rs) p {n} g m =
    let put_lem = get-put r.packet_id p r.stream_version versions in
    elim (Bool-cases (r.packet_id == p)) [
      | inl same ↦ rw same (
          let m' : (r.stream_version ≡ n + 1) × Numbered (n + 1 + 1) (stream p rs) = rw same at m in
          get-advance_versions (put r.packet_id r.stream_version versions) rs p {n = n + 1}
            (ground (arith, put_lem)) m'.1
          ∙ omega arith)
      | inr other ↦ rw other (
          get-advance_versions (put r.packet_id r.stream_version versions) rs p
            (ground (arith, put_lem)) (rw other at m))
    ]
