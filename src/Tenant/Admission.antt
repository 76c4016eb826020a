-- ===== src/Tenant/Admission.antt =====
-- Which tenants a directory admits.
use work_tracker.Prelude.{
  ℕ, inl, inr, ◌≡◌, refl, ◌<◌, ◌≢◌, ◌↔◌, false, some, arith, String, Option-cases,
}
use work_tracker.Prelude.Dict.{get}
use work_tracker.Prelude.Result.{ok}
use work_tracker.Tenant.{TenantStatus, TenantRecord, Directory, validate_tenant_id, is_retired}

is_retired_iff : (s : TenantStatus) → (is_retired s ≡ false) ↔ (s ≢ TenantStatus.retired)
is_retired_iff TenantStatus.active = (λ _. λ e. cc, λ _. refl)
is_retired_iff TenantStatus.suspended = (λ _. λ e. cc, λ _. refl)
is_retired_iff TenantStatus.retired = (λ e. cc, λ f. absurd (f refl))
is_retired_iff (TenantStatus.other s) = (λ _. λ e. cc, λ _. refl)

-- A directory admits a tenant exactly before its expiry, where it lists the tenant with a status
-- other than retired.
pub validate_tenant_id-ok_iff :
    (directory : Directory) (id : String) (at : ℕ)
    → (validate_tenant_id (some directory) id at ≡ ok tt) ↔ (
        (at < directory.expires_at)
        × ((r : TenantRecord) × (get id directory.records ≡ some r)
            × (r.status ≢ TenantStatus.retired)))
unfolding validate_tenant_id
validate_tenant_id-ok_iff directory id at = elim (Option-cases (get id directory.records)) [
  | inl absent ↦ (λ h. ground arith, λ (fresh, (r, found, live)). ground arith)
  | inr (r, found) ↦ (
    λ h. (ground arith, (r, found, (is_retired_iff r.status).0 (ground arith))),
    λ (fresh, (r', found', live)).
        let live' : is_retired r.status ≡ false =
          (is_retired_iff r.status).1 (λ e. live (ground arith)) in
        ground arith,
  )
]
