-- ===== src/Credential/Memory.antt =====
-- agentcredential/memory.go: `MemoryStore`. Each method holds the store's lock: one step.
pub mod Lifecycle
pub mod Revoked
mod Examples
use work_tracker.Prelude.{
  Bool, true, false, not, ◌||◌, Option, none, some, List, [], ◌∷◌, map, ◌==◌, eqb, ltb, keep,
  String, if◌then◌else◌,
}
use work_tracker.Prelude.Dict.{Dict, get, put}
use work_tracker.Prelude.Result.{Result, ok, err}
use work_tracker.Packet.Loading.{before, sort_slice}
use work_tracker.Credential.Types.{
  Time, Hash, Metadata, StoredRecord, Error, unknown_credential, credential_exists, Fallible,
}
use work_tracker.Credential.Checks.{UrlTest, validate_stored_record, validate_authentication}

abbrev pub Records : Type 0
Records = Dict StoredRecord

-- `MemoryStore.Create`
unfoldable pub create : UrlTest → StoredRecord → Records → Fallible Unit × Records
create url record_in records = elim (validate_stored_record url record_in) [
  | err e ↦ (err e, records)
  | ok _ ↦ elim (get record_in.metadata.id records) [
    | some _ ↦ (err credential_exists, records)
    | none ↦ (ok tt, put record_in.metadata.id record_in records)
  ]
]

-- `!exists || record.Metadata.TenantID != tenantID`
pub of_tenant : String → Option StoredRecord → Fallible StoredRecord
of_tenant tenant none = err unknown_credential
of_tenant tenant (some r) = if r.metadata.tenant_id == tenant then ok r else err unknown_credential

-- `MemoryStore.Get`
unfoldable pub find : String → String → Records → Fallible StoredRecord
unfolding of_tenant
find tenant identifier records = of_tenant tenant (get identifier records)

pub listed_before : StoredRecord → StoredRecord → Bool
listed_before a b =
    if eqb a.metadata.created_at b.metadata.created_at
    then before a.metadata.id b.metadata.id
    else ltb a.metadata.created_at b.metadata.created_at

-- `MemoryStore.List`
unfoldable pub list : String → Records → List StoredRecord
unfolding sort_slice listed_before
list tenant records =
    sort_slice listed_before
      (keep (λ r. r.metadata.tenant_id == tenant) (map (λ entry. entry.1) records))

-- The record after a successful use.
unfoldable pub use_record : Time → StoredRecord → StoredRecord
use_record at r =
    let used = record r { metadata = record r.metadata { last_used_at = some at } } in
    elim r.metadata.last_used_at [ none ↦ used | some last ↦ if ltb last at then used else r ]

-- `MemoryStore.Authenticate`. Where the last use is not moved, the source does not write.
unfoldable pub authenticate : String → Hash → Time → Records → Fallible StoredRecord × Records
unfolding use_record
authenticate identifier hash at records = elim (get identifier records) [
  | none ↦ (err unknown_credential, records)
  | some r ↦ elim (validate_authentication r hash at) [
    | err e ↦ (err e, records)
    | ok _ ↦ (ok (use_record at r), put identifier (use_record at r) records)
  ]
]

-- The record after a revocation: the first one stays.
unfoldable pub revoke_record : String → Time → StoredRecord → StoredRecord
revoke_record actor at r = elim r.metadata.revoked_at [
  | none ↦ record r { metadata = record r.metadata { revoked_at = some at; revoked_by = actor } }
  | some _ ↦ r
]

-- `MemoryStore.Revoke`
unfoldable pub revoke : String → String → String → Time → Records → Fallible StoredRecord × Records
unfolding of_tenant revoke_record
revoke tenant identifier actor at records = elim (of_tenant tenant (get identifier records)) [
  | err e ↦ (err e, records)
  | ok r ↦ (ok (revoke_record actor at r), put identifier (revoke_record actor at r) records)
]
