-- ===== src/Contract/Envelope/Published.antt =====
-- What is published is verified while it is fresh.
use work_tracker.Prelude.{ℕ, ◌+◌, ◌<◌, ◌≡◌, ◌≢◌, subst, some, eq_iff, arith, String, inl, inr}
use work_tracker.Prelude.Result.{ok, Result-cases}
use work_tracker.Contract.Json.{end_of_input, canonicalize}
use work_tracker.Contract.Json.Canonical.{Rereads, canonicalize_twice}
use work_tracker.Contract.Provenance.{validate_source}
use work_tracker.Contract.Envelope.{
  Envelope, Publication, Wire, freshness_bound, zero_time, build, serialize, verify, check_envelope,
  canonical_json, from_json, parse_field, digest_canonical,
}

-- What is relied on of JSON: `Rereads`; it finds no value in an empty input; an envelope with a canonical
-- payload is decoded from its canonical text.
pub record IsWire {V : Type 0} (wire : Wire V) : Type 0 where
  pub json : Rereads wire.json
  pub nothing : (t : String) → canonicalize wire.json "" ≢ ok t
  pub envelopes :
      (e : Envelope) (text : String)
      → serialize wire e ≡ ok text
      → canonicalize wire.json e.payload ≡ ok e.payload
      → wire.decode_envelope text ≡ ok (e, end_of_input)

-- A time is parsed from its text, as those of the years up to 9999 are.
abbrev pub Parses : {V : Type 0} → Wire V → ℕ → Type 0
Parses wire at = wire.parse_time (wire.format_time at) ≡ some at

module _ {V : Type 0} (wire : Wire V) (law : IsWire wire) where
  -- What `Build` has made.
  pub record Built (schema : String) (payload : V) (p : Publication) (e : Envelope) : Type 0 where
    pub schema_same : e.schema ≡ schema
    pub stated : p.published_at ≢ zero_time
    pub published : e.published_at ≡ wire.format_time p.published_at
    pub expires : e.expires_at ≡ wire.format_time (p.published_at + freshness_bound)
    pub sourced : validate_source e.source ≡ ok tt
    pub canonical : canonicalize wire.json e.payload ≡ ok e.payload
    pub digested : e.digest ≡ digest_canonical wire e.payload

  build-Built :
      (schema : String) (payload : V) (p : Publication) {e : Envelope}
      → build wire schema payload p ≡ ok e
      → Built schema payload p e
  unfolding build from_json canonical_json
  build-Built schema payload p {e} h = elim (Result-cases (validate_source p.source)) [
    | inr (x, bad) ↦ absurd (ground arith)
    | inl (_, sourced) ↦ elim (Result-cases (wire.marshal payload)) [
      | inr (x, bad) ↦ absurd (ground arith)
      | inl (raw, written) ↦ elim (Result-cases (canonicalize wire.json raw)) [
        | inr (x, bad) ↦ absurd (ground arith)
        | inl (text, good) ↦
            let payload_is : text ≡ e.payload = ground arith in
            record {
              schema_same = ground arith;
              stated = ground arith;
              published = ground arith;
              expires = ground arith;
              sourced = ground arith;
              canonical =
                  subst (λ t. canonicalize wire.json t ≡ ok t) payload_is
                    (canonicalize_twice wire.json law.json raw text good);
              digested = ground arith;
            }
      ]
    ]
  ]

  -- An export that Build makes and Serialize writes is what Verify gives of the text, for its
  -- schema and at any time other than the zero time and before the expiry. It assumes of the
  -- libraries that JSON reads back canonical texts and envelopes, and that the two times are
  -- parsed from their texts.
  pub verify-build :
      (schema : String) (payload : V) (p : Publication) (e : Envelope) (text : String) (now : ℕ)
      → build wire schema payload p ≡ ok e
      → serialize wire e ≡ ok text
      → Parses wire p.published_at
      → Parses wire (p.published_at + freshness_bound)
      → now ≢ zero_time
      → now < p.published_at + freshness_bound
      → verify wire text schema now ≡ ok e
  unfolding verify from_json check_envelope parse_field
  verify-build schema payload p e text now made written start end positive fresh =
      let b = build-Built schema payload p made in
      let decoded = law.envelopes e text written b.canonical in
      let full : e.payload ≢ "" = λ empty.
        law.nothing e.payload
          (subst (λ t. canonicalize wire.json t ≡ ok e.payload) empty b.canonical) in
      ground (
        arith,
        decoded,
        start,
        end,
        full,
        b.schema_same,
        b.published,
        b.expires,
        b.sourced,
        b.canonical,
        b.digested,
        eq_iff e.payload "",
        eq_iff e.schema schema,
        eq_iff e.digest (digest_canonical wire e.payload),
      )
