-- ===== src/Contract/Envelope/Examples.antt =====
-- An export of a number and a text, over a small library.
use Prim.Native.String.{◌++◌ as glue}
use work_tracker.Prelude.{
  ℕ, ◌+◌, ◌≡◌, ◌≢◌, refl, ◌↔◌, ◌∙◌, ap, sym, subst, Bool, true, none, some, ◌==◌, eq_iff, arith,
  String, Bool-cases, inl, inr, ◌&&◌, eqb, if◌then◌else◌,
}
use work_tracker.Prelude.Text.{trim_space}
use work_tracker.Prelude.Result.{ok, err, ok-injective}
use work_tracker.Credential.Texts.{matches, digit, hex_digit, contains_any, one_of}
use work_tracker.Packet.Loading.{sort, insert_sorted}
use work_tracker.Contract.Json
use work_tracker.Contract.Json.{
  Value, text, number, object, member, no_members, Coded, Next, end_of_input, invalid_json,
  canonicalize, encode_canonical, join_entries, normalize_number,
}
use work_tracker.Contract.Envelope.{
  Envelope, Publication, Wire, freshness_bound, zero_time, build, serialize, verify,
  verify_integrity, canonical_json, from_json,
}
use work_tracker.Contract.Envelope.Published.{IsWire, verify-build}
use work_tracker.Contract.Envelope.Trusted.{
  Trusted, RereadsExpiry, verify-ok_iff, verify_integrity-verify,
}
use work_tracker.Contract.Json.Canonical.{
  Rereads, canonicalize_twice, normal, insert_member, number_text,
}
use work_tracker.Contract.Provenance.{
  Source, validate_source, split, is_repository_part, is_commit_id, normalize_repository,
  invalid_provenance,
}

abbrev raw_text : String
raw_text = "{\"b\": 1, \"a\": 2}"

abbrev canonical_text : String
canonical_text = "{\"a\":2,\"b\":1}"

abbrev value : Value
value = object (member "b" (number "1") (member "a" (number "2") no_members))

abbrev sorted_value : Value
sorted_value = object (member "a" (number "2") (member "b" (number "1") no_members))

abbrev made_at : ℕ
made_at = 1

abbrev made_text : String
made_text = "0001-01-01T00:00:00.000000001Z"

abbrev expiry_text : String
expiry_text = "0001-01-03T00:00:00.000000001Z"

abbrev origin : Source
origin = record { repository = "owner/name"; commit = "0123456789abcdef0123456789abcdef01234567" }

abbrev published : Envelope
published = record {
  schema = "s";
  published_at = made_text;
  expires_at = expiry_text;
  source = origin;
  digest = "sha256:00";
  payload = canonical_text;
}

-- The canonical text of the envelope, and its value.
abbrev envelope_text : String
envelope_text =
    "{\"digest\":\"sha256:00\",\"expires_at\":\"0001-01-03T00:00:00.000000001Z\",\"payload\":{\"a\":2,\"b\":1},\"published_at\":\"0001-01-01T00:00:00.000000001Z\",\"schema\":\"s\",\"source\":{\"commit\":\"0123456789abcdef0123456789abcdef01234567\",\"repository\":\"owner/name\"}}"

abbrev envelope_value : Value
envelope_value = object (
    member "digest" (text "sha256:00") (
      member "expires_at" (text expiry_text) (
        member "payload" sorted_value (
          member "published_at" (text made_text) (
            member "schema" (text "s") (
              member "source"
                (object (
                  member "commit" (text origin.commit)
                    (member "repository" (text origin.repository) no_members)))
                no_members))))))

abbrev decode : String → Coded (Value × Next)
decode t =
    if t == raw_text
    then ok (value, end_of_input)
    else if t == canonical_text
    then ok (sorted_value, end_of_input)
    else if t == envelope_text
    then ok (envelope_value, end_of_input)
    else err invalid_json

abbrev library : Json.Library
library = record {
  decode = decode;
  quote = λ s. glue "\"" (glue s "\"");
  float_text = λ t. err Json.invalid_number;
}

-- The text of a value is read as its normal form.
rereads :
    (w v n : Value) (s t : String)
    → encode_canonical library w ≡ ok s
    → normal library w ≡ n
    → decode s ≡ ok (n, end_of_input)
    → w ≡ v
    → encode_canonical library v ≡ ok t
    → decode t ≡ ok (normal library v, end_of_input)
rereads w v n s t written sorted read same e =
    let is_t : s ≡ t = ok-injective (sym written ∙ ap (encode_canonical library) same ∙ e) in
    ap decode (sym is_t)
    ∙ read
    ∙ ap (λ u. ok (u, end_of_input)) (sym sorted ∙ ap (normal library) same)

library-Rereads : Rereads library
unfolding encode_canonical join_entries normalize_number sort insert_sorted normal insert_member
    contains_any one_of number_text
library-Rereads = record {
  values = λ raw v next t d e. elim (Bool-cases (raw == raw_text)) [
    | inl here ↦ rereads value v sorted_value canonical_text t refl refl refl (ground arith) e
    | inr not_raw ↦ elim (Bool-cases (raw == canonical_text)) [
      | inl here ↦
          rereads sorted_value v sorted_value canonical_text t refl refl refl (ground arith) e
      | inr not_canonical ↦ elim (Bool-cases (raw == envelope_text)) [
        | inl here ↦
            rereads envelope_value v envelope_value envelope_text t refl refl refl (ground arith) e
        | inr none_of_them ↦ absurd (ground arith)
      ]
    ]
  ];
  floats = λ t n h. absurd (cc h);
}

canonicalize_twice_example : canonicalize library canonical_text ≡ ok canonical_text
unfolding canonicalize encode_canonical join_entries normalize_number sort insert_sorted
    contains_any one_of
canonicalize_twice_example = canonicalize_twice library library-Rereads raw_text canonical_text refl

-- Whether an envelope is the one that the library knows.
abbrev is_published : Envelope → Bool
is_published e =
    e.schema == published.schema
    && e.published_at == published.published_at
    && e.expires_at == published.expires_at
    && e.source.repository == origin.repository
    && e.source.commit == origin.commit
    && e.digest == published.digest
    && e.payload == published.payload

published_eq : (e : Envelope) → is_published e ≡ true → published ≡ e
published_eq e h = ground (
  arith,
  eq_iff e.schema published.schema,
  eq_iff e.published_at published.published_at,
  eq_iff e.expires_at published.expires_at,
  eq_iff e.source.repository origin.repository,
  eq_iff e.source.commit origin.commit,
  eq_iff e.digest published.digest,
  eq_iff e.payload published.payload,
)

abbrev wire : Wire Unit
wire = record {
  json = library;
  marshal = λ u. ok raw_text;
  marshal_envelope = λ e. if is_published e then ok envelope_text else err invalid_json;
  decode_envelope =
      λ t. if t == envelope_text then ok (published, end_of_input) else err invalid_json;
  decode_expiry = λ t. if t == envelope_text then ok expiry_text else err invalid_json;
  format_time = λ at. if eqb at made_at then made_text else expiry_text;
  parse_time = λ t.
      if t == made_text
      then some made_at
      else if t == expiry_text
      then some (made_at + freshness_bound)
      else none;
  sha256_hex = λ t. "00";
}

wire-IsWire : IsWire wire
unfolding serialize canonical_json encode_canonical join_entries normalize_number sort insert_sorted
    contains_any one_of canonicalize
wire-IsWire = record {
  json = library-Rereads;
  nothing = λ t h. cc h;
  envelopes = λ e text written canonical. elim (Bool-cases (is_published e)) [
    | inr not_known ↦ absurd (ground arith)
    | inl known ↦
        let is_text : envelope_text ≡ text = ok-injective (
          subst
            (λ b. canonical_json wire (if b then ok envelope_text else err invalid_json) ≡ ok text)
            known written) in
        subst (λ t. wire.decode_envelope t ≡ ok (e, end_of_input)) is_text
          (ap (λ x. ok (x, end_of_input)) (published_eq e known))
  ];
}

wire-RereadsExpiry : RereadsExpiry wire
wire-RereadsExpiry t e h = elim (Bool-cases (t == envelope_text)) [
  | inr not_known ↦ absurd (ground arith)
  | inl known ↦ ground arith
]

abbrev publication : Publication
publication = record { published_at = made_at; source = origin }

published_built : build wire "s" tt publication ≡ ok published
unfolding build from_json canonical_json validate_source split is_repository_part is_commit_id
    matches hex_digit digit trim_space encode_canonical join_entries normalize_number sort
    insert_sorted contains_any one_of canonicalize
published_built = refl

published_serialized : serialize wire published ≡ ok envelope_text
unfolding serialize canonical_json encode_canonical join_entries normalize_number sort insert_sorted
    contains_any one_of canonicalize
published_serialized = refl

verify-build_example : verify wire envelope_text "s" 5 ≡ ok published
verify-build_example =
    verify-build wire wire-IsWire "s" tt publication published envelope_text 5 published_built
      published_serialized refl refl (λ h. omega (arith, h)) (omega arith)

verify-ok_iff_example :
    (verify wire envelope_text "s" 5 ≡ ok published) ↔ Trusted wire envelope_text "s" 5 published
verify-ok_iff_example = verify-ok_iff wire envelope_text "s" 5 published

published_verified : verify wire envelope_text "s" 5 ≡ ok published
published_verified =
    verify-build wire wire-IsWire "s" tt publication published envelope_text 5 published_built
      published_serialized refl refl (λ h. omega (arith, h)) (omega arith)

expires_later : wire.parse_time published.expires_at ≢ some (zero_time + 1)
expires_later h = ground (arith, h)

verify_integrity-verify_example : verify_integrity wire envelope_text "s" ≡ ok published
verify_integrity-verify_example =
    verify_integrity-verify wire wire-RereadsExpiry envelope_text "s" 5 published published_verified
      expires_later

-- The forms of a remote that `git` gives.
scp_remote : normalize_repository (λ u. none) " git@github.com:owner/name.git" ≡ ok "owner/name"
unfolding normalize_repository split trim_space
scp_remote = refl

no_owner : normalize_repository (λ u. none) "git@github.com:name.git" ≡ err invalid_provenance
unfolding normalize_repository split trim_space
no_owner = refl
