-- ===== src/CredentialStore/Refines.antt =====
-- The durable store behaves as `MemoryStore`, or reports that the database failed.
use work_tracker.Prelude.{
  ◌≡◌, refl, sym, ap, subst, ◌∙◌, inl, inr, ◌≤◌, true, none, some, ◌==◌, arith, String,
  Option-cases,
}
use mathlib.Core.Option
use work_tracker.Prelude.Dict.{get, put}
use work_tracker.Prelude.Result.{ok, err, Result-cases}
use work_tracker.Documents.{Database, IsDatabase, Created, CreateEnds, set}
use work_tracker.Credential.Texts.{valid_identity_value}
use work_tracker.Credential.Types
use work_tracker.Credential.Types.{Time, Hash, StoredRecord, Fallible}
use work_tracker.Credential.Checks.{UrlTest, validate_stored_record}
use work_tracker.Credential.Memory
use work_tracker.Credential.Memory.{Records, use_record, revoke_record}
use work_tracker.CredentialStore.{
  CredentialDocument, StoreError, encode_document, authenticate_step, revoke_step, authenticate,
  revoke, create, create_answer,
}
use work_tracker.CredentialStore.Kept.{
  whole, kept_document, kept_record, keep_twice, kept-encode_document,
}
use work_tracker.CredentialStore.Standing.{View, Stands, Stands-put, Refined}
use work_tracker.CredentialStore.Steps.{transact-Refined}
use work_tracker.CredentialStore.Uses.{authenticate_step-StepEnds}
use work_tracker.CredentialStore.Revokes.{revoke_step-StepEnds}

unknown_use :
    (k : String) (hash : Hash) (at : Time) (records : Records)
    → get k records ≡ none
    → Memory.authenticate k hash at records ≡ (err Types.unknown_credential, records)
unfolding Memory.authenticate
unknown_use k hash at records absent = rw (absent, Memory.authenticate) refl

unknown_revocation :
    (tenant k actor : String) (at : Time) (records : Records)
    → get k records ≡ none
    → Memory.revoke tenant k actor at records ≡ (err Types.unknown_credential, records)
unfolding Memory.revoke
unknown_revocation tenant k actor at records absent = rw (absent, Memory.revoke) refl

invalid_create :
    (url : UrlTest) (r : StoredRecord) (records : Records) {e : Types.Error}
    → validate_stored_record url r ≡ err e
    → Memory.create url r records ≡ (err e, records)
unfolding Memory.create
invalid_create url r records bad = rw (Memory.create, bad) refl

module _ {S : Type 0} (url : UrlTest) (db : Database String CredentialDocument StoreError S)
    (path_id : String → String) (view : S → View)
    (distinct : (a b : String) → path_id a ≡ path_id b → a ≡ b)
    (law : IsDatabase ◌==◌ kept_document view db) (records : Records) (s : S)
    (stands : Stands url path_id (view s) records) where
  -- Where documents represent the records of the memory store, Authenticate over the database
  -- answers as the memory store does at the time rounded down to the microsecond, but for rounding
  -- the times of the answer, and the documents represent its records afterwards, or ends with an
  -- error of the database and the documents represent the records before or after. It assumes that
  -- the database behaves as documented, where it keeps times rounded down to the microsecond, that
  -- different identifiers have different paths, and that the time is not before the creation of
  -- the credential.
  pub authenticate-Refined :
      (k : String) (hash : Hash) (at : Time)
      → ((r : StoredRecord) → get k records ≡ some r → r.metadata.created_at ≤ at)
      → Refined url path_id view kept_record records
          (Memory.authenticate k hash (whole at) records)
          (authenticate url db path_id k hash at s)
  unfolding authenticate
  authenticate-Refined k hash at late =
      transact-Refined url path_id distinct view records s stands k
        (authenticate_step (path_id k) hash at) (Memory.authenticate k hash (whole at) records)
        (λ absent. unknown_use k hash (whole at) records absent)
        (λ r there.
          authenticate_step-StepEnds url (path_id k) k records r (stands.valid k r there)
            (stands.is_kept k r there) there hash at (late r there))
        (law.transacts StoredRecord _ s)

  -- Where documents represent the records of the memory store, Revoke over the database, by an
  -- actor whose name is valid, answers as the memory store does at the time rounded down to the
  -- microsecond, but for rounding the times of the answer, and the documents represent its records
  -- afterwards, or ends with an error of the database and the documents represent the records
  -- before or after. It assumes that the database behaves as documented, where it keeps times
  -- rounded down to the microsecond, that different identifiers have different paths, and that the
  -- time is not before the creation of the credential.
  pub revoke-Refined :
      (tenant k actor : String) (at : Time)
      → valid_identity_value actor ≡ true
      → ((r : StoredRecord) → get k records ≡ some r → r.metadata.created_at ≤ at)
      → Refined url path_id view kept_record records
          (Memory.revoke tenant k actor (whole at) records)
          (revoke url db path_id tenant k actor at s)
  unfolding revoke
  revoke-Refined tenant k actor at good late =
      transact-Refined url path_id distinct view records s stands k
        (revoke_step (path_id k) tenant actor at) (Memory.revoke tenant k actor (whole at) records)
        (λ absent. unknown_revocation tenant k actor (whole at) records absent)
        (λ r there.
          revoke_step-StepEnds url (path_id k) k records r (stands.valid k r there)
            (stands.is_kept k r there) there tenant actor at (late r there) good)
        (law.transacts StoredRecord _ s)

  absent_record : (k : String) → view s (path_id k) ≡ none → get k records ≡ none
  absent_record k h = ground (arith, stands.represents k)

  stored_record :
      (k : String) {d : CredentialDocument}
      → view s (path_id k) ≡ some d
      → (r : StoredRecord) × (get k records ≡ some r)
  stored_record k {d} h = elim (Option-cases (get k records)) [
    | inl absent ↦ absurd (cc (h, stands.represents k, ap (Option.map encode_document) absent))
    | inr there ↦ there
  ]

  -- `r` is a record as the database keeps it.
  module _ (r : StoredRecord) (valid : validate_stored_record url r ≡ ok tt)
      (is_kept : kept_record r ≡ r) where
    memory_creates :
        get r.metadata.id records ≡ none
        → Memory.create url r records ≡ (ok tt, put r.metadata.id r records)
    unfolding Memory.create
    memory_creates absent = rw (Memory.create, valid, absent) refl

    memory_rejects :
        {x : StoredRecord}
        → get r.metadata.id records ≡ some x
        → Memory.create url r records ≡ (err Types.credential_exists, records)
    unfolding Memory.create
    memory_rejects there = rw (Memory.create, valid, there) refl

    -- The documents that hold the new record.
    abbrev extended : View
    extended = set ◌==◌ (path_id r.metadata.id) (encode_document r) (view s)

    after_create :
        {s' : S}
        → view s (path_id r.metadata.id) ≡ none
        → view s' ≡ extended
        → Stands url path_id (view s') (Memory.create url r records).1
    after_create {s'} absent now = rw (memory_creates (absent_record r.metadata.id absent)) (
        subst (λ v. Stands url path_id v (put r.metadata.id r records)) (sym now)
          (Stands-put url path_id distinct r.metadata.id r stands valid is_kept))

    unchanged_stands : {s' : S} → view s' ≡ view s → Stands url path_id (view s') records
    unchanged_stands same = subst (λ v. Stands url path_id v records) (sym same) stands

    create-ends :
        {written : CredentialDocument} {x : Created × S}
        → kept_document written ≡ encode_document r
        → CreateEnds ◌==◌ kept_document view (path_id r.metadata.id) written s x
        → Refined url path_id view
            (λ u. u)
            records
            (Memory.create url r records)
            (create_answer x.0, x.1)
    create-ends same_kept (CreateEnds.stored absent now) =
        Refined.same_answer tt (rw (memory_creates (absent_record r.metadata.id absent)) refl) (
          after_create absent
            (now ∙ ap (λ d. set ◌==◌ (path_id r.metadata.id) d (view s)) same_kept))
    create-ends same_kept (CreateEnds.taken old there same) =
        let (x, at_x) = stored_record r.metadata.id there in
        Refined.same_error Types.credential_exists (rw (memory_rejects at_x) refl)
          (rw (memory_rejects at_x) (unchanged_stands same))
    create-ends same_kept (CreateEnds.lost e same) =
        Refined.no_answer e (inl (unchanged_stands same))
    create-ends same_kept (CreateEnds.stored_late e absent now) = Refined.no_answer e (
        inr (
          after_create absent
            (now ∙ ap (λ d. set ◌==◌ (path_id r.metadata.id) d (view s)) same_kept)))

  -- Where documents represent the records of the memory store, Create over the database answers as
  -- the memory store does for the record with its times rounded down to the microsecond, and the
  -- documents represent its records afterwards, or ends with an error of the database and the
  -- documents represent the records before or after. It assumes that the database behaves as
  -- documented, where it keeps times rounded down to the microsecond, that different identifiers
  -- have different paths, and that the validation treats the record as it treats the rounded one.
  pub create-Refined :
      (r : StoredRecord)
      → validate_stored_record url (kept_record r) ≡ validate_stored_record url r
      → Refined url path_id view
          (λ u. u)
          records
          (Memory.create url (kept_record r) records)
          (create url db path_id r s)
  unfolding create
  create-Refined r same = elim (Result-cases (validate_stored_record url r)) [
    | inr (e, bad) ↦
        rw (create, bad, invalid_create url (kept_record r) records (same ∙ bad))
          (Refined.same_error e refl stands)
    | inl (_, valid) ↦
        rw (create, valid)
          (create-ends (kept_record r) (same ∙ valid) (keep_twice r) (kept-encode_document r)
            (law.creates (path_id r.metadata.id) (encode_document r) s))
  ]
