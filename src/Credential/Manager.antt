-- ===== src/Credential/Manager.antt =====
-- agentcredential/credential.go: `Manager`, over any `Store`.
use Prim.Native.String.{◌++◌}
use work_tracker.Prelude.{ℕ, not, ◌||◌, Option, none, some, List, map, String}
use work_tracker.Prelude.Result.{ok, err, refuse_if}
use work_tracker.Prelude.Exec.{Exec, ◌>>=◌, ◌>>◌, pure, lift}
use work_tracker.Credential.Types.{
  Time, Hash, Identity, Metadata, StoredRecord, Issued, CreateCommand, Error, malformed_header,
  unknown_credential, invalid_credential, Fallible,
}
use work_tracker.Credential.Texts.{
  is_identifier, valid_identity_value, bearer_value, credential_identifier,
}
use work_tracker.Credential.Checks.{UrlTest, validate_create, validate_stored_record}
use work_tracker.Credential.Memory

-- The interface `Store`.
pub record Store (S : Type 0) : Type 0 where
  pub create : StoredRecord → Exec S Error Unit
  pub get : String → String → Exec S Error StoredRecord
  pub list : String → Exec S Error (List StoredRecord)
  pub authenticate : String → Hash → Time → Exec S Error StoredRecord
  pub revoke : String → String → String → Time → Exec S Error StoredRecord

-- `MemoryStore` as a `Store`.
abbrev pub memory : UrlTest → Store Memory.Records
memory url = record {
  create = Memory.create url;
  get = λ tenant identifier records. (Memory.find tenant identifier records, records);
  list = λ tenant records. (ok (Memory.list tenant records), records);
  authenticate = Memory.authenticate;
  revoke = Memory.revoke;
}

-- What the manager calls of the standard library: the hexadecimal text of 16 random bytes, the raw
-- URL base64 of 32, SHA-256, and the length of what a base64 text decodes to.
pub record Crypto : Type 0 where
  pub random_identifier : Fallible String
  pub random_value : Fallible String
  pub sum : String → Hash
  pub decoded_length : String → Option ℕ

-- The record that `Create` stores.
pub new_record : CreateCommand → Time → String → Hash → StoredRecord
new_record c at identifier hash = record {
  metadata = record {
    id = identifier;
    tenant_id = c.tenant_id;
    workload = c.workload;
    binding = record {
      packet_id = c.packet_id;
      attempt_id = c.attempt_id;
      issued_at = at;
      expires_at = c.expires_at;
    };
    created_by = c.created_by;
    created_at = at;
    revoked_by = "";
    revoked_at = none;
    last_used_at = none;
  };
  hash = hash;
}

abbrev pub identity_of : StoredRecord → Identity
identity_of r = record {
  tenant_id = r.metadata.tenant_id;
  workload = r.metadata.workload;
  binding = r.metadata.binding;
}

abbrev or_error : {A : Type 0} → Error → Option A → Fallible A
or_error e none = err e
or_error e (some a) = ok a

module _ {S : Type 0} (store : Store S) (crypto : Crypto) where
  -- `Manager.Create`
  unfoldable pub create : UrlTest → CreateCommand → Time → Exec S Error Issued
  unfolding new_record
  create url c at = do
    lift (validate_create url c at)
    identifier ← lift crypto.random_identifier
    text ← lift crypto.random_value
    let value = "wta_" ++ (identifier ++ ("." ++ text))
    let stored = new_record c at identifier (crypto.sum value)
    lift (validate_stored_record url stored)
    store.create stored
    pure (record { credential = value; metadata = stored.metadata })

  -- `Manager.Authenticate`
  unfoldable pub authenticate : String → Time → Exec S Error Identity
  authenticate authorization at = do
    value ← lift (or_error malformed_header (bearer_value authorization))
    identifier ←
        lift (or_error unknown_credential (credential_identifier crypto.decoded_length value))
    r ← store.authenticate identifier (crypto.sum value) at
    pure (identity_of r)

module _ {S : Type 0} (store : Store S) where
  -- `Manager.Get`
  unfoldable pub get : String → String → Exec S Error Metadata
  get tenant identifier = do
    lift (
        refuse_if (not (valid_identity_value tenant) || not (is_identifier identifier))
          unknown_credential)
    r ← store.get tenant identifier
    pure r.metadata

  -- `Manager.List`
  unfoldable pub list : String → Exec S Error (List Metadata)
  list tenant = do
    lift (refuse_if (not (valid_identity_value tenant)) invalid_credential)
    records ← store.list tenant
    pure (map (λ r. r.metadata) records)

  -- `Manager.Revoke`
  unfoldable pub revoke : String → String → String → Time → Exec S Error Metadata
  revoke tenant identifier actor at = do
    lift (
        refuse_if
          (not (valid_identity_value tenant)
            || not (valid_identity_value actor)
            || not (is_identifier identifier))
          unknown_credential)
    r ← store.revoke tenant identifier actor at
    pure r.metadata
