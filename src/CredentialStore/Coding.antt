-- ===== src/CredentialStore/Coding.antt =====
-- What is stored of a credential is what comes back.
use work_tracker.Prelude.{
  ℕ, ap, ◌∙◌, ◌≡◌, refl, ◌<◌, Bool, true, false, some, ◌==◌, eq_iff, arith, String,
}
use work_tracker.Prelude.Result.{ok, err}
use work_tracker.Credential.Types.{StoredRecord, Fallible, invalid_credential}
use work_tracker.Credential.Texts.{
  is_identifier, is_packet_id, valid_identity_value, valid_workload_subject,
}
use work_tracker.Credential.Checks.{
  UrlTest, validate_stored_record, valid_issue, valid_revocation, valid_workload_issuer,
  valid_workload,
}
use work_tracker.CredentialStore.{
  encode_document, decode_document, is_incomplete, is_inconsistent, decoded, checked, set_last_used,
  failed_validation,
}

nonempty : (p : String → Bool) (s : String) → p "" ≡ false → p s ≡ true → (s == "") ≡ false
nonempty p s h k = ground (arith, eq_iff s "")

empty_identifier : is_identifier "" ≡ false
unfolding is_identifier
empty_identifier = refl

empty_packet_id : is_packet_id "" ≡ false
unfolding is_packet_id
empty_packet_id = refl

empty_value : valid_identity_value "" ≡ false
unfolding valid_identity_value
empty_value = refl

empty_subject : valid_workload_subject "" ≡ false
unfolding valid_workload_subject
empty_subject = refl

-- The first two checks of `ValidateStoredRecord`, and the last.
passed_checks :
    (url : UrlTest) (r : StoredRecord)
    → validate_stored_record url r ≡ ok tt
    → (valid_issue url r.metadata ≡ true) × (valid_revocation url r.metadata ≡ true)
unfolding validate_stored_record
passed_checks url r h = ground arith

module _ (url : UrlTest) (r : StoredRecord) (issued : valid_issue url r.metadata ≡ true)
    (revoked : valid_revocation url r.metadata ≡ true) where
  complete : is_incomplete (encode_document r) ≡ false
  unfolding is_incomplete encode_document valid_issue valid_workload valid_workload_issuer
  complete = ground (
    arith,
    nonempty is_identifier r.metadata.id empty_identifier,
    nonempty valid_identity_value r.metadata.tenant_id empty_value,
    nonempty is_packet_id r.metadata.binding.packet_id empty_packet_id,
    nonempty valid_identity_value r.metadata.binding.attempt_id empty_value,
    nonempty valid_identity_value r.metadata.workload.issuer empty_value,
    nonempty valid_workload_subject r.metadata.workload.subject empty_subject,
    nonempty valid_identity_value r.metadata.created_by empty_value,
  )

  consistent : is_inconsistent (encode_document r) ≡ false
  unfolding is_inconsistent encode_document valid_revocation
  consistent = ground (arith, nonempty valid_identity_value r.metadata.revoked_by empty_value)

  decoded-encode_document : decoded (encode_document r) r.hash ≡ r
  unfolding decoded encode_document valid_issue valid_workload
  decoded-encode_document = ground (arith, eq_iff r.metadata.workload.kind "workload")

  -- Past its own checks `decodeDocument` is the last one, of the record itself.
  decode-encode : decode_document url (encode_document r) ≡ checked (validate_stored_record url r) r
  unfolding decode_document encode_document
  decode-encode = rw (complete, consistent, decoded-encode_document) refl

-- A record that passes ValidateStoredRecord comes back from its document as it was.
pub decode_document-encode_document :
    (url : UrlTest) (r : StoredRecord)
    → validate_stored_record url r ≡ ok tt
    → decode_document url (encode_document r) ≡ ok r
unfolding checked
decode_document-encode_document url r h =
    let (issued, revoked) = passed_checks url r h in rw (decode-encode url r issued revoked, h) refl

used_early :
    (url : UrlTest) (r : StoredRecord) (at : ℕ)
    → (valid_issue url r.metadata ≡ true) × (valid_revocation url r.metadata ≡ true)
    → at < r.metadata.created_at
    → validate_stored_record url
        (record r { metadata = record r.metadata { last_used_at = some at } })
      ≡ err invalid_credential
unfolding validate_stored_record valid_issue valid_revocation
used_early url r at h early = ground arith

-- The document of a valid record fails its validation once a use is recorded at a time before the
-- creation.
pub early_use-refused :
    (url : UrlTest) (r : StoredRecord) (at : ℕ)
    → validate_stored_record url r ≡ ok tt
    → at < r.metadata.created_at
    → decode_document url (set_last_used at (encode_document r))
      ≡ err (failed_validation invalid_credential)
unfolding encode_document valid_issue valid_revocation checked
early_use-refused url r at h early =
    let (issued, revoked) = passed_checks url r h in
    let u : StoredRecord = record r { metadata = record r.metadata { last_used_at = some at } } in
    decode-encode url u issued revoked
    ∙ ap (λ (x : Fallible Unit). checked x u) (used_early url r at (issued, revoked) early)
