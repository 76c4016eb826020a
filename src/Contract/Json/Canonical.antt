-- ===== src/Contract/Json/Canonical.antt =====
-- The canonical form is a fixed point of `Canonicalize`.
use work_tracker.Prelude.{
  ◌≡◌, refl, sym, Bool, true, false, List, [], ◌∷◌, arith, Bool-cases, inl, inr, String,
  if◌then◌else◌,
}
use work_tracker.Prelude.Result.{ok, err, Result-cases}
use work_tracker.Packet.Loading.{before, insert_sorted, sort}
use work_tracker.Contract.Json.{
  Value, Elements, Members, null, bool, text, number, array, object, no_elements, element,
  no_members, member, Library, Next, end_of_input, more_input, Coded, key_before, is_float_text,
  normalize_number, encode_canonical, encode_elements, encode_members, canonicalize,
}
use work_tracker.Prelude.Order.{compare-asymmetric}
use work_tracker.Contract.Json.Sorted.{sort-sort}

before-asymmetric : (a b : String) → before a b ≡ true → before b a ≡ false
before-asymmetric a b h = compare-asymmetric a b h

unfoldable pub insert_member : String → Value → Members → Members
insert_member k v no_members = member k v no_members
insert_member k v (member j w fs) =
    let later = member j w (insert_member k v fs) in
    if before j k then later else member k v (member j w fs)

module _ (lib : Library) where
  -- The text of a number, where it has one.
  unfoldable pub number_text : String → Coded String → String
  number_text t (ok n) = n
  number_text t (err e) = t

  -- A value with its objects sorted by key, and its numbers normalized.
  unfoldable mutual
    unfolding insert_member number_text

    pub normal : Value → Value
    normal null = null
    normal (bool b) = bool b
    normal (text s) = text s
    normal (number t) = number (number_text t (normalize_number lib t))
    normal (array xs) = array (normal_elements xs)
    normal (object fs) = object (normal_members fs)

    pub normal_elements : Elements → Elements
    normal_elements no_elements = no_elements
    normal_elements (element v xs) = element (normal v) (normal_elements xs)

    pub normal_members : Members → Members
    normal_members no_members = no_members
    normal_members (member k v fs) = insert_member k (normal v) (normal_members fs)

  -- What `Canonicalize` relies on: the decoder reads the text that was written of a value that it gave, and
  -- the shortest text of a float is read as that float.
  pub record Rereads : Type 0 where
    pub values :
        (raw : String) (v : Value) (next : Next) (t : String)
        → lib.decode raw ≡ ok (v, next)
        → encode_canonical lib v ≡ ok t
        → lib.decode t ≡ ok (normal v, end_of_input)
    pub floats :
        (t n : String) → lib.float_text t ≡ ok n → is_float_text n ≡ true → lib.float_text n ≡ ok n

  module _ (law : Rereads) where
    number-normal : (t n : String) → normalize_number lib t ≡ ok n → normalize_number lib n ≡ ok n
    unfolding normalize_number
    number-normal t n h = elim (Bool-cases (is_float_text t)) [
      | inl float ↦ ground (arith, law.floats t n)
      | inr plain ↦ ground arith
    ]

    insert-encoded :
        (k : String) (v : Value) (fs : Members) {t : String} {es : List (String × String)}
        → encode_canonical lib v ≡ ok t
        → encode_members lib fs ≡ ok es
        → encode_members lib (insert_member k v fs) ≡ ok (insert_sorted key_before (k, t) es)
    unfolding insert_member encode_canonical insert_sorted
    insert-encoded k v no_members h g = ground arith
    insert-encoded k v (member j w fs) {t} {es} h g = elim (Result-cases (encode_canonical lib w)) [
      | inr (e, bad) ↦ absurd (ground arith)
      | inl (u, encoded) ↦ elim (Result-cases (encode_members lib fs)) [
        | inr (e, bad) ↦ absurd (ground arith)
        | inl (rest, more) ↦
            let parts : (j, u) ∷ rest ≡ es = ground arith in
            elim (Bool-cases (before j k)) [
              | inl first ↦ rw (sym parts, first, encoded, insert-encoded k v fs h more) refl
              | inr after ↦ rw (sym parts, after, h, encoded, more) refl
            ]
      ]
    ]

    mutual
      unfolding normal encode_canonical sort number_text

      encode-normal :
          (v : Value) {t : String}
          → encode_canonical lib v ≡ ok t
          → encode_canonical lib (normal v) ≡ ok t
      encode-normal null h = h
      encode-normal (bool b) h = h
      encode-normal (text s) h = h
      encode-normal (number n) {t} h = rw (h, number_text) (number-normal n t h)
      encode-normal (array xs) h = elim (Result-cases (encode_elements lib false xs)) [
        | inr (e, bad) ↦ absurd (ground arith)
        | inl (ts, good) ↦ ground (arith, elements-normal false xs good)
      ]
      encode-normal (object fs) h = elim (Result-cases (encode_members lib fs)) [
        | inr (e, bad) ↦ absurd (ground arith)
        | inl (es, good) ↦
            rw (members-normal fs good, sort-sort key_before (λ a b. before-asymmetric a.0 b.0) es)
              (ground arith)
      ]

      elements-normal :
          (b : Bool) (xs : Elements) {t : String}
          → encode_elements lib b xs ≡ ok t
          → encode_elements lib b (normal_elements xs) ≡ ok t
      elements-normal b no_elements h = h
      elements-normal b (element v xs) h = elim (Result-cases (encode_canonical lib v)) [
        | inr (e, bad) ↦ absurd (ground arith)
        | inl (u, one) ↦ elim (Result-cases (encode_elements lib true xs)) [
          | inr (e, bad) ↦ absurd (ground arith)
          | inl (ts, more) ↦ ground (arith, encode-normal v one, elements-normal true xs more)
        ]
      ]

      members-normal :
          (fs : Members) {es : List (String × String)}
          → encode_members lib fs ≡ ok es
          → encode_members lib (normal_members fs) ≡ ok (sort key_before es)
      members-normal no_members {es} h =
          let none_there : [] ≡ es = ground arith in rw (sym none_there) refl
      members-normal (member k v fs) {es} h = elim (Result-cases (encode_canonical lib v)) [
        | inr (e, bad) ↦ absurd (ground arith)
        | inl (u, one) ↦ elim (Result-cases (encode_members lib fs)) [
          | inr (e, bad) ↦ absurd (ground arith)
          | inl (rest, more) ↦
              let parts : (k, u) ∷ rest ≡ es = ground arith in
              rw (sym parts) (
                insert-encoded k (normal v) (normal_members fs) (encode-normal v one)
                  (members-normal fs more))
        ]
      ]

    -- The canonical form of a JSON text is its own canonical form, where the decoder reads back
    -- the texts that were written of its values and a normalized float is its own text.
    pub canonicalize_twice :
        (raw t : String) → canonicalize lib raw ≡ ok t → canonicalize lib t ≡ ok t
    unfolding canonicalize
    canonicalize_twice raw t h = elim (Result-cases (lib.decode raw)) [
      | inr (e, bad) ↦ absurd (ground arith)
      | inl ((v, more_input), good) ↦ absurd (ground arith)
      | inl ((v, end_of_input), good) ↦
          let encoded : encode_canonical lib v ≡ ok t = ground arith in
          rw (law.values raw v end_of_input t good encoded) (encode-normal v encoded)
    ]
