-- ===== src/Contract/Envelope/Trusted.antt =====
-- When `Verify` accepts an export.
use work_tracker.Prelude.{
  ℕ, ◌+◌, ◌-◌, ◌<◌, ◌≡◌, ◌≢◌, ◌↔◌, ◌∙◌, ap, some, eq_iff, arith, String, Option-cases, inl, inr,
}
use work_tracker.Prelude.Result.{ok, Result-cases}
use work_tracker.Contract.Json.{end_of_input, more_input, canonicalize}
use work_tracker.Contract.Provenance.{validate_source}
use work_tracker.Contract.Envelope.{
  Envelope, Wire, freshness_bound, zero_time, verify, verify_integrity, check_envelope, from_json,
  parse_field, digest_canonical,
}

module _ {V : Type 0} (wire : Wire V) where
  -- The conditions of an export that is honoured.
  pub record Trusted (text schema : String) (now : ℕ) (e : Envelope) : Type 0 where
    pub sent : Envelope
    pub published_at : ℕ
    pub decoded : wire.decode_envelope text ≡ ok (sent, end_of_input)
    pub schema_same : sent.schema ≡ schema
    pub starts : wire.parse_time sent.published_at ≡ some published_at
    pub ends : wire.parse_time sent.expires_at ≡ some (published_at + freshness_bound)
    pub stated : now ≢ zero_time
    pub fresh : now < published_at + freshness_bound
    pub full : sent.payload ≢ ""
    pub canonical : canonicalize wire.json sent.payload ≡ ok e.payload
    pub digested : sent.digest ≡ digest_canonical wire e.payload
    pub sourced : validate_source sent.source ≡ ok tt
    pub same : e ≡ record sent { payload = e.payload }

  verify-Trusted :
      (text schema : String) (now : ℕ) {e : Envelope}
      → Trusted text schema now e
      → verify wire text schema now ≡ ok e
  unfolding verify from_json check_envelope parse_field
  verify-Trusted text schema now {e} t = ground (
    arith,
    t.decoded,
    t.schema_same,
    t.starts,
    t.ends,
    t.stated,
    t.fresh,
    t.full,
    t.canonical,
    t.digested,
    t.sourced,
    t.same,
    eq_iff t.sent.payload "",
    eq_iff t.sent.schema schema,
    eq_iff t.sent.digest (digest_canonical wire e.payload),
  )

  check_envelope-ok :
      (sent : Envelope) (schema : String) (now : ℕ) (text : String) {e : Envelope}
      → wire.decode_envelope text ≡ ok (sent, end_of_input)
      → check_envelope wire sent schema now ≡ ok e
      → Trusted text schema now e
  unfolding from_json check_envelope parse_field
  check_envelope-ok sent schema now text {e} decoded h =
      elim (Option-cases (wire.parse_time sent.published_at)) [
        | inl bad ↦ absurd (ground arith)
        | inr (start, starts) ↦ elim (Option-cases (wire.parse_time sent.expires_at)) [
          | inl bad ↦ absurd (ground arith)
          | inr (end, ends) ↦ elim (Result-cases (canonicalize wire.json sent.payload)) [
            | inr (x, bad) ↦ absurd (ground arith)
            | inl (text, good) ↦ elim (Result-cases (validate_source sent.source)) [
              | inr (x, bad) ↦ absurd (ground arith)
              | inl (_, sourced) ↦
                  let canonical_is : text ≡ e.payload = ground arith in
                  let digest_is = eq_iff sent.digest (digest_canonical wire text) in
                  record {
                    sent = sent;
                    published_at = start;
                    decoded = decoded;
                    schema_same = (eq_iff sent.schema schema).0 (ground arith);
                    starts = starts;
                    ends = ground arith;
                    stated = ground arith;
                    fresh = ground arith;
                    full = λ empty. absurd (ground (arith, (eq_iff sent.payload "").1 empty));
                    canonical = good ∙ ap ok canonical_is;
                    digested = digest_is.0 (ground arith) ∙ ap (digest_canonical wire) canonical_is;
                    sourced = sourced;
                    same = ground arith;
                  }
            ]
          ]
        ]
      ]

  -- Verify accepts a text exactly when it is one envelope of the schema, whose two times parse and
  -- are the freshness bound apart, at a time other than the zero time and before the expiry, with
  -- a payload that is there and has the digest in its canonical form, and with a valid source;
  -- what it gives is the envelope with the canonical payload.
  pub verify-ok_iff :
      (text schema : String) (now : ℕ) (e : Envelope)
      → (verify wire text schema now ≡ ok e) ↔ Trusted text schema now e
  unfolding verify from_json
  verify-ok_iff text schema now e = (
    λ h. elim (Result-cases (wire.decode_envelope text)) [
      | inr (x, bad) ↦ absurd (ground arith)
      | inl ((sent, more_input), good) ↦ absurd (ground arith)
      | inl ((sent, end_of_input), good) ↦
          check_envelope-ok sent schema now text good (ground arith)
    ],
    λ t. verify-Trusted text schema now t,
  )

  -- Of a text that is one envelope and nothing after it, a decode of the expiry alone gives the envelope's.
  abbrev pub RereadsExpiry : Type 0
  RereadsExpiry =
      (text : String) (e : Envelope)
      → wire.decode_envelope text ≡ ok (e, end_of_input)
      → wire.decode_expiry text ≡ ok e.expires_at

  -- VerifyIntegrity gives of a text what Verify gives of it at any time at which Verify accepts
  -- it. It assumes of the JSON library that, of a text with one envelope and nothing after it, it
  -- reads the expiry alone as with the rest, and of the expiry that it is not a nanosecond after
  -- the zero time, where the check for a current time would refuse.
  pub verify_integrity-verify :
      RereadsExpiry
      → (text schema : String) (now : ℕ) (e : Envelope) → verify wire text schema now ≡ ok e
      → wire.parse_time e.expires_at ≢ some (zero_time + 1)
      → verify_integrity wire text schema ≡ ok e
  unfolding verify_integrity from_json parse_field
  verify_integrity-verify law text schema now e h after_zero =
      let t = (verify-ok_iff text schema now e).0 h in
      let last = t.published_at + freshness_bound - 1 in
      let late : Trusted text schema last e = record {
        sent = t.sent;
        published_at = t.published_at;
        decoded = t.decoded;
        schema_same = t.schema_same;
        starts = t.starts;
        ends = t.ends;
        stated = λ is_zero. after_zero (
            ap wire.parse_time (ap (λ (x : Envelope). x.expires_at) t.same)
            ∙ t.ends
            ∙ ap some (omega (arith, is_zero)));
        fresh = omega arith;
        full = t.full;
        canonical = t.canonical;
        digested = t.digested;
        sourced = t.sourced;
        same = t.same;
      } in
      ground (arith, law text t.sent t.decoded, t.ends, verify-Trusted text schema last late)
