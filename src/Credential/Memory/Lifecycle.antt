-- ===== src/Credential/Memory/Lifecycle.antt =====
-- A credential's life in `MemoryStore`: what stays, who may use it, and that a revocation is final.
use work_tracker.Prelude.{
  ◌≡◌, subst, refl, ◌↔◌, ◌∙◌, ap, ◌<◌, inl, inr, none, some, List, [], ◌∷◌, ◌==◌, arith, eq_iff,
  String, if◌then◌else◌, Bool-cases, Option-cases,
}
use work_tracker.Prelude.Dict.{get, put, get-put}
use work_tracker.Prelude.Result.{ok, err, Result-cases}
use work_tracker.Credential.Types.{Time, Hash, StoredRecord, unknown_credential, revoked_credential}
use work_tracker.Credential.Checks.{UrlTest, validate_stored_record, validate_authentication}
use work_tracker.Credential.Memory.{
  Records, create, authenticate, revoke, use_record, revoke_record, of_tenant,
}

-- The calls that write.
pub data Operation : Type 0 where
  creation : StoredRecord → Operation
  use_of : String → Hash → Time → Operation
  revocation : String → String → String → Time → Operation

pub apply : UrlTest → Operation → Records → Records
apply url (creation r) records = (create url r records).1
apply url (use_of identifier hash at) records = (authenticate identifier hash at records).1
apply url (revocation tenant identifier actor at) records =
    (revoke tenant identifier actor at records).1

pub run : UrlTest → List Operation → Records → Records
run url [] records = records
run url (op ∷ ops) records = run url ops (apply url op records)

-- What a later state of a stored credential keeps of an earlier one.
pub record Kept (r r' : StoredRecord) : Type 0 where
  -- only the revocation and the last use may differ
  pub same : r' ≡ record r {
    metadata = record r.metadata {
      revoked_by = r'.metadata.revoked_by;
      revoked_at = r'.metadata.revoked_at;
      last_used_at = r'.metadata.last_used_at;
    };
  }
  -- and a revocation that is there stays
  pub revoked :
      {t : Time}
      → r.metadata.revoked_at ≡ some t
      → (r'.metadata.revoked_at ≡ some t) × (r'.metadata.revoked_by ≡ r.metadata.revoked_by)

Kept-refl : (r : StoredRecord) → Kept r r
Kept-refl r = record { same = refl; revoked = λ h. (h, refl) }

Kept-trans : (a b c : StoredRecord) → Kept a b → Kept b c → Kept a c
Kept-trans a b c k l = record {
  same = cc (k.same, l.same);
  revoked = λ h. let (h', by) = k.revoked h in let (h'', by') = l.revoked h' in (h'', by' ∙ by);
}

Kept-use : (at : Time) (r : StoredRecord) → Kept r (use_record at r)
unfolding use_record
Kept-use at r = record { same = ground arith; revoked = λ h. ground arith }

Kept-revoke : (actor : String) (at : Time) (r : StoredRecord) → Kept r (revoke_record actor at r)
unfolding revoke_record
Kept-revoke actor at r = record { same = ground arith; revoked = λ h. ground arith }

-- A stored credential after a write.
abbrev Survives : String → StoredRecord → Records → Type 0
Survives k r records = (r' : StoredRecord) × (get k records ≡ some r') × Kept r r'

unchanged :
    (k : String) (r : StoredRecord) (records : Records)
    → get k records ≡ some r
    → Survives k r records
unchanged k r records h = (r, h, Kept-refl r)

rewritten :
    (f : StoredRecord → StoredRecord) (keeps : (x : StoredRecord) → Kept x (f x)) (id k : String)
    (records : Records) (x r : StoredRecord)
    → get id records ≡ some x
    → get k records ≡ some r
    → Survives k r (put id (f x) records)
rewritten f keeps id k records x r at_id at_k = elim (Bool-cases (id == k)) [
  | inl same ↦
      let x_is_r : x ≡ r = ground (arith, eq_iff id k) in
      (f x, rw (get-put, same), rw x_is_r (keeps r))
  | inr other ↦ (r, rw (get-put, other) at_k, Kept-refl r)
]

create-Survives :
    (url : UrlTest) (new : StoredRecord) (k : String) (records : Records) {r : StoredRecord}
    → get k records ≡ some r
    → Survives k r (create url new records).1
unfolding create get
create-Survives url new k records {r} h = elim (Result-cases (validate_stored_record url new)) [
  | inr (e, bad) ↦ rw (bad, create) (unchanged k r records h)
  | inl (_, good) ↦ elim (Option-cases (get new.metadata.id records)) [
    | inr (x, taken) ↦ rw (good, create, taken) (unchanged k r records h)
    | inl free ↦
        rw (good, create, free)
          (
            r,
            get-put new.metadata.id k new records ∙ ground (arith, eq_iff new.metadata.id k),
            Kept-refl r,
          )
  ]
]

authenticate-Survives :
    (id : String) (hash : Hash) (at : Time) (k : String) (records : Records) {r : StoredRecord}
    → get k records ≡ some r
    → Survives k r (authenticate id hash at records).1
unfolding authenticate get
authenticate-Survives id hash at k records {r} h = elim (Option-cases (get id records)) [
  | inl absent ↦ rw (absent, authenticate) (unchanged k r records h)
  | inr (x, found) ↦ elim (Result-cases (validate_authentication x hash at)) [
    | inr (e, bad) ↦ rw (found, authenticate, bad) (unchanged k r records h)
    | inl (_, good) ↦
        rw (found, authenticate, good)
          (rewritten (use_record at) (Kept-use at) id k records x r found h)
  ]
]

revoke-Survives :
    (tenant id actor : String) (at : Time) (k : String) (records : Records) {r : StoredRecord}
    → get k records ≡ some r
    → Survives k r (revoke tenant id actor at records).1
unfolding of_tenant revoke get
revoke-Survives tenant id actor at k records {r} h = elim (Option-cases (get id records)) [
  | inl absent ↦ rw (absent, revoke) (unchanged k r records h)
  | inr (x, found) ↦ elim (Bool-cases (x.metadata.tenant_id == tenant)) [
    | inr foreign ↦ rw (found, revoke, foreign) (unchanged k r records h)
    | inl own ↦
        rw (found, revoke, own)
          (rewritten (revoke_record actor at) (Kept-revoke actor at) id k records x r found h)
  ]
]

apply-Survives :
    (url : UrlTest) (op : Operation) (k : String) (records : Records) {r : StoredRecord}
    → get k records ≡ some r
    → Survives k r (apply url op records)
unfolding apply
apply-Survives url (creation new) k records h = create-Survives url new k records h
apply-Survives url (use_of id hash at) k records h = authenticate-Survives id hash at k records h
apply-Survives url (revocation tenant id actor at) k records h =
    revoke-Survives tenant id actor at k records h

-- A stored credential survives any writes with its digest, workload and binding, and a revocation
-- stays with its time and author.
pub run-Kept :
    (url : UrlTest) (ops : List Operation) (k : String) (records : Records) (r : StoredRecord)
    → get k records ≡ some r
    → (r' : StoredRecord) × (get k (run url ops records) ≡ some r') × Kept r r'
unfolding run
run-Kept url [] k records r h = unchanged k r records h
run-Kept url (op ∷ ops) k records r h =
    let (r', found, kept) = apply-Survives url op k records h in
    let (r'', later, still) = run-Kept url ops k (apply url op records) r' found in
    (r'', later, Kept-trans r r' r'' kept still)

-- A use of a stored credential succeeds exactly with its digest, before its expiry, and while it
-- is not revoked.
pub authenticate-ok_iff :
    (id : String) (hash : Hash) (at : Time) (records : Records) (r : StoredRecord)
    → get id records ≡ some r
    → ((authenticate id hash at records).0 ≡ ok (use_record at r))
      ↔ ((r.hash ≡ hash) × (r.metadata.revoked_at ≡ none) × (at < r.metadata.binding.expires_at))
unfolding authenticate validate_authentication
authenticate-ok_iff id hash at records r found =
    (λ h. ground (arith, eq_iff r.hash hash), λ h. ground (arith, eq_iff r.hash hash))

revoked-refused :
    (k : String) (records : Records) (r : StoredRecord) (t : Time) (hash : Hash) (at : Time)
    → get k records ≡ some r
    → r.metadata.revoked_at ≡ some t
    → authenticate k hash at records
      ≡ (err (if r.hash == hash then revoked_credential else unknown_credential), records)
unfolding authenticate validate_authentication
revoked-refused k records r t hash at found revoked = ground (arith, eq_iff r.hash hash)

pub revoked_for_good :
    (url : UrlTest) (ops : List Operation) (k : String) (records : Records) (r : StoredRecord)
    (t : Time) (hash : Hash) (at : Time)
    → get k records ≡ some r
    → r.metadata.revoked_at ≡ some t
    → authenticate k hash at (run url ops records) ≡ (
      err (if r.hash == hash then revoked_credential else unknown_credential),
      run url ops records,
    )
revoked_for_good url ops k records r t hash at found revoked =
    let (r', later, kept) = run-Kept url ops k records r found in
    let same_hash : r'.hash ≡ r.hash = ap (λ (x : StoredRecord). x.hash) kept.same in
    let refused =
      revoked-refused k (run url ops records) r' t hash at later (kept.revoked revoked).0 in
    subst
      (λ (h : Hash).
        authenticate k hash at (run url ops records)
        ≡ (err (if h == hash then revoked_credential else unknown_credential), run url ops records))
      same_hash refused
