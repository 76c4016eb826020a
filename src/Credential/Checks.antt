-- ===== src/Credential/Checks.antt =====
-- agentcredential/credential.go: `validateCreate`, `ValidateStoredRecord`, `ValidateAuthentication`.
use Prim.Native.String.{len}
use work_tracker.Prelude.{
  ℕ, ◌-◌, ◌*◌, Bool, false, not, ◌&&◌, ◌||◌, Option, none, some, ◌==◌, eqb, leb, ltb, String,
}
use work_tracker.Prelude.Dict.{is_some}
use work_tracker.Prelude.Result.{◌>>◌, refuse_if}
use work_tracker.Credential.Types.{
  Time, Hash, Workload, Metadata, StoredRecord, CreateCommand, unknown_credential,
  revoked_credential, expired_credential, invalid_credential, invalid_workload, workload_tenant,
  Fallible,
}
use work_tracker.Credential.Texts.{
  is_packet_id, is_identifier, valid_identity_value, valid_workload_subject,
}

-- `MaximumLifetime`: one hour.
abbrev pub maximum_lifetime : ℕ
maximum_lifetime = 3600 * 1000000000

-- `validWorkloadIssuer` reads the issuer by `url.ParseRequestURI`: a parameter that says whether the
-- text parses as an https URL with a host and without user, query and fragment.
abbrev pub UrlTest : Type 0
UrlTest = String → Bool

module _ (is_plain_https : UrlTest) where
  -- `validWorkloadIssuer`
  unfoldable pub valid_workload_issuer : String → Bool
  valid_workload_issuer value =
      valid_identity_value value && leb (len value) 512 && is_plain_https value

  unfoldable pub valid_workload : Workload → Bool
  unfolding valid_workload_issuer
  valid_workload workload =
      workload.kind == "workload"
      && valid_workload_issuer workload.issuer
      && valid_workload_subject workload.subject

  abbrev pub valid_attempt : String → Bool
  valid_attempt attempt = valid_identity_value attempt && leb (len attempt) 256

  -- `validateCreate`
  unfoldable pub validate_create : CreateCommand → Time → Fallible Unit
  validate_create c at = do
    refuse_if (not (valid_identity_value c.tenant_id)) invalid_credential
    refuse_if (not (valid_identity_value c.workload_tenant_id)) invalid_workload
    refuse_if (not (c.workload_tenant_id == c.tenant_id)) workload_tenant
    refuse_if (not (valid_workload c.workload)) invalid_workload
    refuse_if (not (is_packet_id c.packet_id)) invalid_credential
    refuse_if (not (valid_attempt c.attempt_id)) invalid_credential
    refuse_if (not (valid_identity_value c.created_by)) invalid_credential
    refuse_if (eqb c.expires_at 0 || not (ltb at c.expires_at)) invalid_credential
    refuse_if (ltb maximum_lifetime (c.expires_at - at)) invalid_credential

  -- The first condition of `ValidateStoredRecord`, negated.
  unfoldable pub valid_issue : Metadata → Bool
  valid_issue m =
      is_identifier m.id
      && valid_identity_value m.tenant_id
      && valid_workload m.workload
      && is_packet_id m.binding.packet_id
      && valid_attempt m.binding.attempt_id
      && valid_identity_value m.created_by
      && not (eqb m.created_at 0)
      && eqb m.created_at m.binding.issued_at
      && ltb m.binding.issued_at m.binding.expires_at
      && leb (m.binding.expires_at - m.binding.issued_at) maximum_lifetime

  -- The second: a revocation has its author, and only a revocation has one.
  unfoldable pub valid_revocation : Metadata → Bool
  valid_revocation m = elim m.revoked_at [
    | none ↦ m.revoked_by == ""
    | some at ↦ valid_identity_value m.revoked_by
  ]

  -- `t != nil && t.Before(created)`
  abbrev pub predates : Option Time → Time → Bool
  predates none created = false
  predates (some t) created = ltb t created

  -- `ValidateStoredRecord`
  unfoldable pub validate_stored_record : StoredRecord → Fallible Unit
  validate_stored_record r = do
    refuse_if (not (valid_issue r.metadata)) invalid_credential
    refuse_if (not (valid_revocation r.metadata)) invalid_credential
    refuse_if (predates r.metadata.revoked_at r.metadata.created_at) invalid_credential
    refuse_if (predates r.metadata.last_used_at r.metadata.created_at) invalid_credential

-- `ValidateAuthentication`
unfoldable pub validate_authentication : StoredRecord → Hash → Time → Fallible Unit
validate_authentication r hash at = do
  refuse_if (not (r.hash == hash)) unknown_credential
  refuse_if (is_some r.metadata.revoked_at) revoked_credential
  refuse_if (not (ltb at r.metadata.binding.expires_at)) expired_credential
