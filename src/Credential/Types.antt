-- ===== src/Credential/Types.antt =====
-- agentcredential/credential.go: the types and the errors. Times are nanoseconds from Go's zero
-- time; a pointer to a time is an option. The digest is a text: only its equality is used.
use work_tracker.Prelude.{ℕ, String, Option}
use work_tracker.Prelude.Result.{Result}

abbrev pub Time : Type 0
Time = ℕ

abbrev pub Hash : Type 0
Hash = String

pub record Workload : Type 0 where
  pub kind : String
  pub issuer : String
  pub subject : String

pub record Binding : Type 0 where
  pub packet_id : String
  pub attempt_id : String
  pub issued_at : Time
  pub expires_at : Time

pub record Identity : Type 0 where
  pub tenant_id : String
  pub workload : Workload
  pub binding : Binding

pub record Metadata : Type 0 where
  pub id : String
  pub tenant_id : String
  pub workload : Workload
  pub binding : Binding
  pub created_by : String
  pub created_at : Time
  pub revoked_by : String
  pub revoked_at : Option Time
  pub last_used_at : Option Time

pub record StoredRecord : Type 0 where
  pub metadata : Metadata
  pub hash : Hash

pub record Issued : Type 0 where
  pub credential : String
  pub metadata : Metadata

pub record CreateCommand : Type 0 where
  pub tenant_id : String
  pub packet_id : String
  pub attempt_id : String
  pub workload_tenant_id : String
  pub workload : Workload
  pub created_by : String
  pub expires_at : Time

-- The sentinel errors; `random_failed` is an error of the random source.
pub data Error : Type 0 where
  malformed_header unknown_credential revoked_credential expired_credential : Error
  invalid_credential invalid_workload workload_tenant credential_exists random_failed : Error

abbrev pub Fallible : Type 0 → Type 0
Fallible A = Result Error A
