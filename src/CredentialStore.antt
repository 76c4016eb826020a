-- ===== src/CredentialStore.antt =====
-- credentialstore/firestore.go: the durable store of credentials.
pub mod Coding
pub mod Kept
pub mod Standing
pub mod Steps
pub mod Uses
pub mod Revokes
pub mod Refines
mod Examples
use work_tracker.Prelude.{
  ℕ, Bool, true, false, not, ◌||◌, ◌&&◌, Option, none, some, List, [], ◌∷◌, ◌==◌, eqb, ltb, String,
  if◌then◌else◌,
}
use work_tracker.Prelude.Dict.{is_some}
use work_tracker.Prelude.Result.{Result, ok, err, ◌>>=◌, ◌>>◌, refuse_if}
use work_tracker.Packet.Loading.{sort_slice}
use work_tracker.Documents.{
  Fetch, found, not_found, failed, Created, created, already_exists, create_failed, Write, Ending,
  Database,
}
use work_tracker.Credential.Types
use work_tracker.Credential.Types.{Time, Hash, StoredRecord, Fallible}
use work_tracker.Credential.Checks.{UrlTest, validate_stored_record, validate_authentication}
use work_tracker.Credential.Memory.{listed_before}

-- `credentialDocument`, in UTC. The digest is `none` where the bytes are not as many as a digest has.
pub record CredentialDocument : Type 0 where
  pub schema_version : ℕ
  pub id : String
  pub tenant_id : String
  pub packet_id : String
  pub attempt_id : String
  pub workload_issuer : String
  pub workload_subject : String
  pub issued_at : Time
  pub expires_at : Time
  pub created_by : String
  pub created_at : Time
  pub credential_hash : Option Hash
  pub revoked_by : String
  pub revoked_at : Option Time
  pub last_used_at : Option Time

-- A sentinel error of `agentcredential`, an error of `decodeDocument`, or one of the database.
pub data StoreError : Type 0 where
  credential_error : Types.Error → StoreError
  unsupported_schema incomplete inconsistent_revocation : StoreError
  failed_validation : Types.Error → StoreError
  database_error : String → StoreError

abbrev pub Stored : Type 0 → Type 0
Stored A = Result StoreError A

abbrev document_schema : ℕ
document_schema = 2

-- `encodeDocument`
unfoldable pub encode_document : StoredRecord → CredentialDocument
encode_document r = record {
  schema_version = document_schema;
  id = r.metadata.id;
  tenant_id = r.metadata.tenant_id;
  packet_id = r.metadata.binding.packet_id;
  attempt_id = r.metadata.binding.attempt_id;
  workload_issuer = r.metadata.workload.issuer;
  workload_subject = r.metadata.workload.subject;
  issued_at = r.metadata.binding.issued_at;
  expires_at = r.metadata.binding.expires_at;
  created_by = r.metadata.created_by;
  created_at = r.metadata.created_at;
  credential_hash = some r.hash;
  revoked_by = r.metadata.revoked_by;
  revoked_at = r.metadata.revoked_at;
  last_used_at = r.metadata.last_used_at;
}

-- The second condition of `decodeDocument`.
pub is_incomplete : CredentialDocument → Bool
is_incomplete d =
    d.id == ""
    || d.tenant_id == ""
    || d.packet_id == ""
    || d.attempt_id == ""
    || d.workload_issuer == ""
    || d.workload_subject == ""
    || d.created_by == ""
    || eqb d.issued_at 0
    || eqb d.expires_at 0
    || eqb d.created_at 0
    || not (is_some d.credential_hash)

-- The third: a revocation has its author, and only a revocation has one.
pub is_inconsistent : CredentialDocument → Bool
is_inconsistent d =
    (not (is_some d.revoked_at) && not (d.revoked_by == ""))
    || (is_some d.revoked_at && d.revoked_by == "")

pub decoded : CredentialDocument → Hash → StoredRecord
decoded d hash = record {
  metadata = record {
    id = d.id;
    tenant_id = d.tenant_id;
    workload = record {
      kind = "workload";
      issuer = d.workload_issuer;
      subject = d.workload_subject;
    };
    binding = record {
      packet_id = d.packet_id;
      attempt_id = d.attempt_id;
      issued_at = d.issued_at;
      expires_at = d.expires_at;
    };
    created_by = d.created_by;
    created_at = d.created_at;
    revoked_by = d.revoked_by;
    revoked_at = d.revoked_at;
    last_used_at = d.last_used_at;
  };
  hash = hash;
}

-- An error of `ValidateStoredRecord`, wrapped.
pub checked : Fallible Unit → StoredRecord → Stored StoredRecord
checked (ok _) r = ok r
checked (err e) r = err (failed_validation e)

-- `decodeDocument`
unfoldable pub decode_document : UrlTest → CredentialDocument → Stored StoredRecord
unfolding is_incomplete is_inconsistent decoded checked
decode_document url d = do
  refuse_if (not (eqb d.schema_version document_schema)) unsupported_schema
  refuse_if (is_incomplete d) incomplete
  refuse_if (is_inconsistent d) inconsistent_revocation
  elim d.credential_hash [
    | none ↦ err incomplete
    | some hash ↦ checked (validate_stored_record url (decoded d hash)) (decoded d hash)
  ]

-- The record behind a read, for a `NotFound` `ErrUnknownCredential`.
unfoldable pub decode_fetched : UrlTest → Fetch CredentialDocument → Stored StoredRecord
decode_fetched url (found d) = decode_document url d
decode_fetched url not_found = err (credential_error Types.unknown_credential)
decode_fetched url (failed e) = err (database_error e)

pub decode_all : UrlTest → List CredentialDocument → Stored (List StoredRecord)
decode_all url [] = ok []
decode_all url (d ∷ ds) = do r ← decode_document url d; rs ← decode_all url ds; ok (r ∷ rs)

-- The fields that a use and a revocation write, as they are handed to the database: that keeps the
-- time to the microsecond.
abbrev pub set_last_used : Time → CredentialDocument → CredentialDocument
set_last_used at d = record d { last_used_at = some at }

abbrev pub set_revoked : Time → String → CredentialDocument → CredentialDocument
set_revoked at actor d = record d { revoked_at = some at; revoked_by = actor }

abbrev CredentialWrite : Type 0
CredentialWrite = Write String CredentialDocument

-- An error of `agentcredential` as one of the store.
abbrev from_check : Fallible Unit → Stored Unit
from_check (ok _) = ok tt
from_check (err e) = err (credential_error e)

-- `LastUsedAt == nil || used.After(*LastUsedAt)`
abbrev pub is_later : Time → Option Time → Bool
is_later at none = true
is_later at (some last) = ltb last at

-- The transaction in `Authenticate`, past its read.
unfoldable pub authenticate_step :
    String → Hash → Time → StoredRecord → Stored (StoredRecord × List CredentialWrite)
authenticate_step ref hash at r = do
  from_check (validate_authentication r hash at)
  ok (
      if is_later at r.metadata.last_used_at
      then (
        record r { metadata = record r.metadata { last_used_at = some at } },
        Write.update ref (set_last_used at) ∷ [],
      )
      else (r, []))

-- The transaction in `Revoke`, past its read.
unfoldable pub revoke_step :
    String → String → String → Time → StoredRecord → Stored (StoredRecord × List CredentialWrite)
revoke_step ref tenant actor at r = do
  refuse_if (not (r.metadata.tenant_id == tenant)) (credential_error Types.unknown_credential)
  ok (elim r.metadata.revoked_at [
    | some _ ↦ (r, [])
    | none ↦ (
      record r { metadata = record r.metadata { revoked_at = some at; revoked_by = actor } },
      Write.update ref (set_revoked at actor) ∷ [],
    )
  ])

abbrev pub ended : {A : Type 0} → Ending StoreError A → Stored A
ended (Ending.refused e) = err e
ended (Ending.committed a) = ok a
ended (Ending.aborted e) = err (database_error e)

-- What `Create` answers for what the database does.
abbrev pub create_answer : Created → Stored Unit
create_answer created = ok tt
create_answer already_exists = err (credential_error Types.credential_exists)
create_answer (create_failed e) = err (database_error e)

-- The store is given the database and the encoding of path identifiers.
module _ {S : Type 0} (url : UrlTest) (db : Database String CredentialDocument StoreError S)
    (path_id : String → String) where
  -- `Firestore.Create`
  unfoldable pub create : StoredRecord → S → Stored Unit × S
  create r s = elim (validate_stored_record url r) [
    | err e ↦ (err (credential_error e), s)
    | ok _ ↦
        let (answer, s') = db.create_document (path_id r.metadata.id) (encode_document r) s in
        (create_answer answer, s')
  ]

  -- `Firestore.Get`
  unfoldable pub find : String → String → S → Stored StoredRecord
  unfolding decode_fetched
  find tenant identifier s = do
    r ← decode_fetched url (db.get_document (path_id identifier) s)
    refuse_if (not (r.metadata.tenant_id == tenant)) (credential_error Types.unknown_credential)
    ok r

  -- `Firestore.List`
  unfoldable pub list : String → S → Stored (List StoredRecord)
  unfolding decode_all
  list tenant s = elim (db.query (λ d. d.tenant_id == tenant) s) [
    | err e ↦ err (database_error e)
    | ok ds ↦ do rs ← decode_all url ds; ok (sort_slice listed_before rs)
  ]

  -- `Firestore.Authenticate`
  unfoldable pub authenticate : String → Hash → Time → S → Stored StoredRecord × S
  authenticate identifier hash at s =
      let (ending, s') =
        db.transact
          (λ reads.
            decode_fetched url (reads (path_id identifier))
            >>= authenticate_step (path_id identifier) hash at)
          s in
      (ended ending, s')

  -- `Firestore.Revoke`
  unfoldable pub revoke : String → String → String → Time → S → Stored StoredRecord × S
  revoke tenant identifier actor at s =
      let (ending, s') =
        db.transact
          (λ reads.
            decode_fetched url (reads (path_id identifier))
            >>= revoke_step (path_id identifier) tenant actor at)
          s in
      (ended ending, s')
