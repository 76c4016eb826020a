-- ===== src/Tenant.antt =====
-- tenant/directory.go: the published tenant directory. The records are given decoded, and the expiry
-- parsed; Loading has the decoding.
use work_tracker.Prelude.{
  ℕ, Bool, true, false, not, ◌||◌, Option, none, some, List, [], ◌∷◌, ◌==◌, map, ltb, eqb, String,
  if◌then◌else◌,
}
use work_tracker.Prelude.Text.{is_blank}
use work_tracker.Prelude.Dict.{Dict, get, put, is_some}
use work_tracker.Prelude.Result.{Result, ok, err, ◌>>=◌, ◌>>◌, refuse_if}
use work_tracker.Packet.Loading.{before, sort_slice}
pub mod Admission
pub mod Loading
mod Examples

-- `other` holds the texts that are none of the three constants.
pub data TenantStatus : Type 0 where
  active suspended retired : TenantStatus
  other : String → TenantStatus

-- `Record`, with its `version`, an int64, cut off at 0: only whether it is below 1 is read.
pub record TenantRecord : Type 0 where
  pub id : String
  pub slug : String
  pub display_name : String
  pub status : TenantStatus
  pub created_at : String
  pub version : ℕ

pub record Directory : Type 0 where
  pub records : Dict TenantRecord
  pub expires_at : ℕ

pub data DirectoryError : Type 0 where
  invalid_directory unknown_tenant retired_tenant stale_export : DirectoryError

abbrev pub Checked : Type 0 → Type 0
Checked A = Result DirectoryError A

pub supported : TenantStatus → Bool
supported (TenantStatus.other _) = false
supported _ = true

-- `validateRecord`, given whether a text parses as an RFC 3339 time
unfoldable pub validate_record : (String → Bool) → TenantRecord → Checked Unit
unfolding supported
validate_record is_time r = do
  refuse_if (is_blank r.id || is_blank r.slug || is_blank r.display_name) invalid_directory
  refuse_if (not (supported r.status)) invalid_directory
  refuse_if (not (is_time r.created_at)) invalid_directory
  refuse_if (ltb r.version 1) invalid_directory

-- The loop of `fromEnvelope`.
unfoldable pub index_records :
    (String → Bool) → Dict TenantRecord → List TenantRecord → Checked (Dict TenantRecord)
index_records is_time by_id [] = ok by_id
index_records is_time by_id (r ∷ rs) = do
  validate_record is_time r
  refuse_if (is_some (get r.id by_id)) invalid_directory
  index_records is_time (put r.id r by_id) rs

-- `fromEnvelope`, past the decoding
unfoldable pub from_envelope : (String → Bool) → List TenantRecord → ℕ → Checked Directory
from_envelope is_time rs expires_at = do
  by_id ← index_records is_time [] rs
  ok (record { records = by_id; expires_at = expires_at })

abbrev pub is_retired : TenantStatus → Bool
is_retired TenantStatus.retired = true
is_retired _ = false

-- `Directory.ValidateTenantID`, where the nil directory is `none`
unfoldable pub validate_tenant_id : Option Directory → String → ℕ → Checked Unit
validate_tenant_id none id at = err invalid_directory
validate_tenant_id (some directory) id at = do
  refuse_if (not (ltb at directory.expires_at)) stale_export
  elim (get id directory.records) [
    | none ↦ err unknown_tenant
    | some r ↦ refuse_if (is_retired r.status) retired_tenant
  ]

abbrev id_before : TenantRecord → TenantRecord → Bool
id_before a b = before a.id b.id

-- `Directory.Records`
unfoldable pub records : Option Directory → List TenantRecord
unfolding sort_slice
records none = []
records (some directory) = sort_slice id_before (map (λ entry. entry.1) directory.records)
