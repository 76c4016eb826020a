-- ===== src/CredentialStore/Examples.antt =====
-- The store over a database in memory that rounds timestamps, with identifiers for paths.
use work_tracker.Prelude.{◌≡◌, refl, ◌≤◌, arith, true, [], ◌∷◌, none, some, String, ◌==◌, eq_iff}
use work_tracker.Prelude.Text.{trim_space}
use work_tracker.Prelude.Dict.{Dict, get}
use work_tracker.Prelude.Result.{ok, err}
use work_tracker.Documents.{Database}
use work_tracker.Documents.Table.{look, table, documents, table-IsDatabase}
use work_tracker.Credential.Types.{StoredRecord, invalid_credential}
use work_tracker.Credential.Memory
use work_tracker.Credential.Memory.{Records}
use work_tracker.Credential.Checks.{
  UrlTest, validate_stored_record, valid_issue, valid_revocation, valid_workload,
}
use work_tracker.Credential.Texts.{
  is_identifier, is_packet_id, valid_identity_value, valid_workload_subject,
}
use work_tracker.CredentialStore.{
  CredentialDocument, StoreError, encode_document, decode_document, authenticate, revoke, create,
  failed_validation, set_last_used,
}
use work_tracker.CredentialStore.Coding.{decode_document-encode_document, early_use-refused}
use work_tracker.CredentialStore.Kept.{whole, kept_document, kept_record}
use work_tracker.CredentialStore.Standing.{Stands, Refined}
use work_tracker.CredentialStore.Refines.{authenticate-Refined, revoke-Refined, create-Refined}

abbrev https : UrlTest
https _ = true

abbrev session : StoredRecord
session = record {
  metadata = record {
    id = "0123456789abcdef0123456789abcdef";
    tenant_id = "t";
    workload = record { kind = "workload"; issuer = "https://i"; subject = "agent" };
    binding = record {
      packet_id = "0001-E01-T01";
      attempt_id = "1";
      issued_at = 10000;
      expires_at = 90000;
    };
    created_by = "ann";
    created_at = 10000;
    revoked_by = "";
    revoked_at = none;
    last_used_at = none;
  };
  hash = "digest";
}

session_valid : validate_stored_record https session ≡ ok tt
unfolding validate_stored_record valid_issue valid_revocation valid_workload is_identifier
    trim_space is_packet_id valid_identity_value valid_workload_subject
session_valid = refl

abbrev identifier : String
identifier = "0123456789abcdef0123456789abcdef"

abbrev stored : Records
stored = (identifier, session) ∷ []

abbrev rows : Dict CredentialDocument
rows = (identifier, encode_document session) ∷ []

abbrev path : String → String
path k = k

abbrev database : Database String CredentialDocument StoreError (Dict CredentialDocument)
database = table CredentialDocument StoreError ◌==◌ kept_document

session_kept : kept_record session ≡ session
unfolding whole
session_kept = refl

rows_stand : Stands https path (documents ◌==◌ rows) stored
unfolding get look
rows_stand = record {
  represents = λ k. ground (arith, eq_iff identifier k);
  valid = λ k r h. ground (arith, eq_iff identifier k, session_valid);
  is_kept = λ k r h. ground (arith, eq_iff identifier k, session_kept);
}

decode_document-encode_document_example :
    decode_document https (encode_document session) ≡ ok session
decode_document-encode_document_example =
    decode_document-encode_document https session session_valid

early_use-refused_example :
    decode_document https (set_last_used 5000 (encode_document session))
    ≡ err (failed_validation invalid_credential)
early_use-refused_example = early_use-refused https session 5000 session_valid (omega arith)

late : (r : StoredRecord) → get identifier stored ≡ some r → r.metadata.created_at ≤ 20500
unfolding get
late r h = ground arith

authenticate-Refined_example :
    Refined https path
      (documents ◌==◌)
      kept_record
      stored
      (Memory.authenticate identifier "digest" (whole 20500) stored)
      (authenticate https database path identifier "digest" 20500 rows)
authenticate-Refined_example =
    authenticate-Refined https database path (documents ◌==◌) (λ a b h. h)
      (table-IsDatabase ◌==◌ kept_document eq_iff) stored rows rows_stand identifier "digest" 20500
      late

revoke-Refined_example :
    Refined https path
      (documents ◌==◌)
      kept_record
      stored
      (Memory.revoke "t" identifier "ann" (whole 20500) stored)
      (revoke https database path "t" identifier "ann" 20500 rows)
unfolding valid_identity_value trim_space
revoke-Refined_example =
    revoke-Refined https database path (documents ◌==◌) (λ a b h. h)
      (table-IsDatabase ◌==◌ kept_document eq_iff) stored rows rows_stand "t" identifier "ann" 20500
      refl late

-- The same credential, issued within a microsecond.
abbrev issued : StoredRecord
issued = record session {
  metadata = record session.metadata {
    binding = record session.metadata.binding { issued_at = 10400; expires_at = 90700 };
    created_at = 10400;
  };
}

issued_kept :
    validate_stored_record https (kept_record issued) ≡ validate_stored_record https issued
unfolding validate_stored_record valid_issue valid_revocation valid_workload is_identifier
    trim_space is_packet_id valid_identity_value valid_workload_subject whole
issued_kept = refl

nothing_stands : Stands https path (documents ◌==◌ []) []
unfolding get look
nothing_stands = record {
  represents = λ k. refl;
  valid = λ k r h. absurd (cc h);
  is_kept = λ k r h. absurd (cc h);
}

create-Refined_example :
    Refined https path
      (documents ◌==◌)
      (λ u. u)
      []
      (Memory.create https (kept_record issued) [])
      (create https database path issued [])
create-Refined_example =
    create-Refined https database path (documents ◌==◌) (λ a b h. h)
      (table-IsDatabase ◌==◌ kept_document eq_iff) [] [] nothing_stands issued issued_kept
