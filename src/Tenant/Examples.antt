-- ===== src/Tenant/Examples.antt =====
-- A directory with an active tenant.
use work_tracker.Prelude.{◌≡◌, refl, arith, [], ◌∷◌, some}
use work_tracker.Prelude.Dict.{get}
use work_tracker.Prelude.Result.{ok}
use work_tracker.Tenant.{TenantStatus, TenantRecord, Directory, validate_tenant_id}
use work_tracker.Tenant.Admission.{validate_tenant_id-ok_iff}

abbrev acme : TenantRecord
acme = record {
  id = "t";
  slug = "acme";
  display_name = "Acme";
  status = TenantStatus.active;
  created_at = "2026-01-01T00:00:00Z";
  version = 1;
}

abbrev directory : Directory
directory = record { records = ("t", acme) ∷ []; expires_at = 100 }

validate_tenant_id-ok_iff_example : validate_tenant_id (some directory) "t" 50 ≡ ok tt
unfolding get
validate_tenant_id-ok_iff_example =
    (validate_tenant_id-ok_iff directory "t" 50).1 (omega arith, (acme, refl, λ e. cc))
