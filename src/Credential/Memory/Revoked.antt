-- ===== src/Credential/Memory/Revoked.antt =====
-- A credential from a call of `Revoke` that succeeds on.
use work_tracker.Prelude.{
  ◌≡◌, refl, ap, ◌∙◌, sym, inl, inr, some, List, ◌==◌, arith, eq_iff, String, if◌then◌else◌,
  Bool-cases, Option-cases,
}
use work_tracker.Prelude.Dict.{get, get-put}
use work_tracker.Prelude.Result.{ok, err}
use work_tracker.Credential.Types.{Time, Hash, StoredRecord, unknown_credential, revoked_credential}
use work_tracker.Credential.Checks.{UrlTest}
use work_tracker.Credential.Memory.{Records, authenticate, revoke, revoke_record, of_tenant}
use work_tracker.Credential.Memory.Lifecycle.{Operation, run, revoked_for_good}

-- A revocation is recorded, with the author of the first one.
revoke_record-IsRevoked :
    (actor : String) (at : Time) (r : StoredRecord)
    → (t : Time) × ((revoke_record actor at r).metadata.revoked_at ≡ some t)
unfolding revoke_record
revoke_record-IsRevoked actor at r = elim (Option-cases r.metadata.revoked_at) [
  | inl open' ↦ (at, rw (revoke_record, open') refl)
  | inr (t, shut) ↦ (t, rw (revoke_record, shut) shut)
]

revoke-stored :
    (tenant k actor : String) (at : Time) (records : Records) {r : StoredRecord}
    → (revoke tenant k actor at records).0 ≡ ok r
    → (get k (revoke tenant k actor at records).1 ≡ some r)
      × ((t : Time) × (r.metadata.revoked_at ≡ some t))
unfolding revoke of_tenant
revoke-stored tenant k actor at records {r} h = elim (Option-cases (get k records)) [
  | inl absent ↦ absurd (ground arith)
  | inr (x, found) ↦ elim (Bool-cases (x.metadata.tenant_id == tenant)) [
    | inr foreign ↦ absurd (ground arith)
    | inl own ↦
        let is_r : revoke_record actor at x ≡ r = ground arith in
        let (t, shut) = revoke_record-IsRevoked actor at x in
        (
          rw (found, revoke, own, get-put) (rw ((eq_iff k k).1 refl) (ap some is_r)),
          (t, sym (ap (λ (y : StoredRecord). y.metadata.revoked_at) is_r) ∙ shut),
        )
  ]
]

-- After a call of Revoke that succeeds, no use of the credential succeeds and none is recorded, at
-- any time, with any digest, whatever is created, used and revoked in between.
pub revoke-for_good :
    (url : UrlTest) (ops : List Operation) (tenant k actor : String) (at : Time) (records : Records)
    (r : StoredRecord) (hash : Hash) (later : Time)
    → (revoke tenant k actor at records).0 ≡ ok r
    → authenticate k hash later (run url ops (revoke tenant k actor at records).1) ≡ (
      err (if r.hash == hash then revoked_credential else unknown_credential),
      run url ops (revoke tenant k actor at records).1,
    )
revoke-for_good url ops tenant k actor at records r hash later h =
    let (found, (t, shut)) = revoke-stored tenant k actor at records h in
    revoked_for_good url ops k (revoke tenant k actor at records).1 r t hash later found shut
