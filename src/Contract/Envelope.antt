-- ===== src/Contract/Envelope.antt =====
-- contract/envelope.go: `Build`, `Serialize`, `Verify` and `VerifyIntegrity`. Times are nanoseconds from
-- two days before the year 0: every RFC 3339 text, of any year and offset, is of a time after that.
pub mod Published
pub mod Trusted
pub mod Examples
use Prim.Native.String.{◌++◌ as glue}
use work_tracker.Prelude.{
  ℕ, ◌+◌, ◌-◌, ◌*◌, Bool, true, false, not, Option, none, some, ◌==◌, eqb, ltb, String,
  if◌then◌else◌,
}
use work_tracker.Prelude.Text.{is_blank}
use work_tracker.Prelude.Result.{Result, ok, err, ◌>>=◌, ◌>>◌, refuse_if}
use work_tracker.Contract.Json
use work_tracker.Contract.Json.{Coded, Next, require_eof, canonicalize}
use work_tracker.Contract.Provenance.{
  Source, ContractError, invalid_export, stale_export, digest_mismatch, export_not_found, other,
  Checked, validate_source,
}

-- `FreshnessBound`, 48 hours
abbrev pub freshness_bound : ℕ
freshness_bound = 48 * 3600 * 1000000000

-- Go's zero time, the first instant of the year 1, of which `IsZero` is the test: the year 0 has 366
-- days.
abbrev pub zero_time : ℕ
zero_time = 368 * 86400 * 1000000000

pub record Publication : Type 0 where
  pub published_at : ℕ
  pub source : Source

pub record Envelope : Type 0 where
  pub schema : String
  pub published_at : String
  pub expires_at : String
  pub source : Source
  pub digest : String
  pub payload : String

-- What is called of the libraries: JSON, its texts of a payload and of an envelope, a decode of an envelope
-- with no other fields and what stands after it, and of the expiry alone; RFC 3339 times; and the hexadecimal
-- SHA-256.
pub record Wire (V : Type 0) : Type 0 where
  pub json : Json.Library
  pub marshal : V → Coded String
  pub marshal_envelope : Envelope → Coded String
  pub decode_envelope : String → Coded (Envelope × Next)
  pub decode_expiry : String → Coded String
  pub format_time : ℕ → String
  pub parse_time : String → Option ℕ
  pub sha256_hex : String → String

-- An error of JSON, wrapped.
unfoldable pub from_json : {A : Type 0} → Coded A → Checked A
from_json (ok a) = ok a
from_json (err e) = err invalid_export

-- The answer to a read of a file.
pub data FileRead : Type 0 where
  missing : FileRead
  unreadable : String → FileRead
  contents : String → FileRead

module _ {V : Type 0} (wire : Wire V) where
  -- `CanonicalJSON`
  unfoldable pub canonical_json : Coded String → Coded String
  canonical_json marshalled = do raw ← marshalled; canonicalize wire.json raw

  -- `DigestCanonical`
  abbrev pub digest_canonical : String → String
  digest_canonical payload = glue "sha256:" (wire.sha256_hex payload)

  -- `Build`
  unfoldable pub build : String → V → Publication → Checked Envelope
  unfolding from_json canonical_json
  build schema payload p = do
    refuse_if (is_blank schema) invalid_export
    refuse_if (eqb p.published_at zero_time) invalid_export
    validate_source p.source
    canonical ← from_json (canonical_json (wire.marshal payload))
    ok (record {
      schema = schema;
      published_at = wire.format_time p.published_at;
      expires_at = wire.format_time (p.published_at + freshness_bound);
      source = p.source;
      digest = digest_canonical canonical;
      payload = canonical;
    })

  -- `Serialize`
  unfoldable pub serialize : Envelope → Coded String
  unfolding canonical_json
  serialize e = canonical_json (wire.marshal_envelope e)

  -- `time.Parse` of a field
  unfoldable pub parse_field : String → Checked ℕ
  parse_field text = elim (wire.parse_time text) [ none ↦ err invalid_export | some at ↦ ok at ]

  -- The checks of `Verify` after the decoding.
  unfoldable pub check_envelope : Envelope → String → ℕ → Checked Envelope
  unfolding parse_field from_json
  check_envelope e schema now = do
    refuse_if (not (e.schema == schema)) invalid_export
    published_at ← parse_field e.published_at
    expires_at ← parse_field e.expires_at
    refuse_if (not (eqb expires_at (published_at + freshness_bound))) invalid_export
    refuse_if (eqb now zero_time) invalid_export
    refuse_if (not (ltb now expires_at)) stale_export
    refuse_if (e.payload == "") invalid_export
    canonical ← from_json (canonicalize wire.json e.payload)
    refuse_if (not (e.digest == digest_canonical canonical)) digest_mismatch
    validate_source e.source
    ok (record e { payload = canonical })

  -- `Verify`
  unfoldable pub verify : String → String → ℕ → Checked Envelope
  unfolding check_envelope from_json
  verify text schema now = do
    (e, next) ← from_json (wire.decode_envelope text)
    from_json (require_eof wire.json next)
    check_envelope e schema now

  -- `VerifyIntegrity`
  unfoldable pub verify_integrity : String → String → Checked Envelope
  unfolding verify parse_field from_json
  verify_integrity text schema = do
    expiry ← from_json (wire.decode_expiry text)
    expires_at ← parse_field expiry
    verify text schema (expires_at - 1)

  -- `VerifyFile`
  unfoldable pub verify_file : FileRead → String → ℕ → Checked Envelope
  verify_file missing schema now = err export_not_found
  verify_file (unreadable e) schema now = err (other e)
  verify_file (contents text) schema now = verify text schema now
