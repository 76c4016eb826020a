-- ===== src/CredentialStore/Steps.antt =====
-- Transactions that read one credential, and write it or nothing.
use work_tracker.Prelude.{
  ◌≡◌, refl, sym, ap, subst, ◌∙◌, inl, inr, none, some, List, [], ◌∷◌, ◌==◌, String, Option-cases,
}
use mathlib.Core.Option
use work_tracker.Prelude.Dict.{get, put}
use work_tracker.Prelude.Result.{ok, err, ◌>>=◌}
use work_tracker.Documents.{Fetch, Write, Ending, IsRead, TransactEnds, Applies, set}
use work_tracker.Documents.Writes.{Applies-nil, Applies-update}
use work_tracker.Credential.Types
use work_tracker.Credential.Types.{Time, Hash, StoredRecord, Fallible}
use work_tracker.Credential.Checks.{UrlTest, validate_stored_record}
use work_tracker.Credential.Memory.{Records}
use work_tracker.CredentialStore.{
  CredentialDocument, StoreError, credential_error, database_error, Stored, encode_document,
  decode_fetched, ended,
}
use work_tracker.CredentialStore.Kept.{kept_document, kept_record, keep_twice}
use work_tracker.CredentialStore.Standing.{
  View, Stands, Stands-put, Stands-put_same, Refined, fetch_none, fetch_some, fetch_failed,
}

-- What a transaction does with the record that it has read, beside what the memory store does with it.
pub data StepEnds (url : UrlTest) (path : String) (k : String) (r : StoredRecord)
    (records : Records)
    : Stored (StoredRecord × List (Write String CredentialDocument))
      → Fallible StoredRecord × Records
      → Type 0 where
  declines :
      (e : Types.Error) → StepEnds url path k r records (err (credential_error e)) (err e, records)
  keeps : StepEnds url path k r records (ok (r, [])) (ok r, put k r records)
  changes :
      (r' : StoredRecord) (f : CredentialDocument → CredentialDocument)
      → kept_document (f (encode_document r)) ≡ encode_document (kept_record r')
      → validate_stored_record url (kept_record r') ≡ ok tt
      → StepEnds url path k r records
          (ok (r', Write.update path f ∷ []))
          (ok (kept_record r'), put k (kept_record r') records)

pair_of :
    {A B : Type 0} {a a' : A} {b b' : B}
    → ◌≡◌ {A = Stored (A × B)} (ok (a, b)) (ok (a', b'))
    → (a ≡ a') × (b ≡ b')
pair_of h = (cc, cc)

module _ (url : UrlTest) (path_id : String → String)
    (distinct : (a b : String) → path_id a ≡ path_id b → a ≡ b) where
  abbrev pub Step : Type 0
  Step = StoredRecord → Stored (StoredRecord × List (Write String CredentialDocument))

  abbrev reading :
      String
      → Step
      → (String → Fetch CredentialDocument)
      → Stored (StoredRecord × List (Write String CredentialDocument))
  reading k step reads = decode_fetched url (reads (path_id k)) >>= step

  module _ {S : Type 0} (view : S → View) (records : Records) (s : S)
      (stands : Stands url path_id (view s) records) (k : String) (step : Step)
      (memory : Fallible StoredRecord × Records)
      (absent : get k records ≡ none → memory ≡ (err Types.unknown_credential, records))
      (present : (r : StoredRecord)
        → get k records ≡ some r
        → StepEnds url (path_id k) k r records (step r) memory) where
    -- The documents after the writes of a step.
    written :
        {r : StoredRecord} {x : Stored (StoredRecord × List (Write String CredentialDocument))}
        {m : Fallible StoredRecord × Records} {a : StoredRecord}
        {ws : List (Write String CredentialDocument)} {v' : View}
        → get k records ≡ some r
        → StepEnds url (path_id k) k r records x m
        → x ≡ ok (a, ws)
        → Applies ◌==◌ kept_document ws (view s) v'
        → (m.0 ≡ ok (kept_record a)) × Stands url path_id v' m.1
    written {r} found_r (declines e) h w = absurd (cc h)
    written {r} {v' = v'} found_r keeps h w =
        let (is_a, is_ws) = pair_of h in
        let v = Applies-nil (subst (λ l. Applies ◌==◌ kept_document l (view s) v') (sym is_ws) w) in
        (
          ap ok (sym (stands.is_kept k r found_r) ∙ ap kept_record is_a),
          subst (λ u. Stands url path_id u (put k r records)) (sym v)
              (Stands-put_same url path_id distinct k r stands found_r),
        )
    written {r} {v' = v'} found_r (changes r' f same valid) h w =
        let (is_a, is_ws) = pair_of h in
        let (d, at_d, v) =
          Applies-update (subst (λ l. Applies ◌==◌ kept_document l (view s) v') (sym is_ws) w) in
        let was : d ≡ encode_document r =
          cc (at_d, stands.represents k, ap (Option.map encode_document) found_r) in
        (
          ap (λ x. ok (kept_record x)) is_a,
          subst (λ u. Stands url path_id u (put k (kept_record r') records))
              (ap (λ (x : CredentialDocument). set ◌==◌ (path_id k) x (view s))
                  (sym same ∙ ap (λ x. kept_document (f x)) (sym was))
                ∙ sym v)
              (Stands-put url path_id distinct k (kept_record r') stands valid (keep_twice r')),
        )

    -- The records after a step that a read of the document has reached.
    finished :
        (reads : String → Fetch CredentialDocument) {a : StoredRecord}
        {ws : List (Write String CredentialDocument)} {v' : View}
        → IsRead (view s) reads
        → reading k step reads ≡ ok (a, ws)
        → Applies ◌==◌ kept_document ws (view s) v'
        → (memory.0 ≡ ok (kept_record a)) × Stands url path_id v' memory.1
    finished reads is_read h w = elim (is_read (path_id k)) [
      | inr (e, bad) ↦
          absurd (cc (h, fetch_failed url path_id distinct (view s) records stands k reads bad))
      | inl read ↦ elim (Option-cases (get k records)) [
        | inl none_there ↦ absurd (
            cc (h, fetch_none url path_id distinct (view s) records stands k reads none_there read))
        | inr (r, r_there) ↦
            written r_there (present r r_there)
              (sym (
                  ap (λ x. x >>= step)
                    (fetch_some url path_id distinct (view s) records stands k reads r_there read))
                ∙ h)
              w
      ]
    ]

    abbrev Answers : StoreError → S → Type 0
    Answers e s' = Refined url path_id view kept_record records memory (err e, s')

    answered :
        {e : StoreError} {s' : S} (x : Types.Error)
        → e ≡ credential_error x
        → memory ≡ (err x, records)
        → view s' ≡ view s
        → Answers e s'
    answered {s' = s'} x is_x mem same =
        subst (λ e. Answers e s') (sym is_x)
          (Refined.same_error x (ap (λ m. m.0) mem) (
            subst (λ m. Stands url path_id (view s') m.1) (sym mem)
              (subst (λ v. Stands url path_id v records) (sym same) stands)))

    declined :
        {r : StoredRecord} {x : Stored (StoredRecord × List (Write String CredentialDocument))}
        {m : Fallible StoredRecord × Records} {e : StoreError}
        → StepEnds url (path_id k) k r records x m
        → x ≡ err e
        → (y : Types.Error) × (e ≡ credential_error y) × (m ≡ (err y, records))
    declined (declines y) h = (y, cc, refl)
    declined keeps h = absurd (cc h)
    declined (changes r' f same valid) h = absurd (cc h)

    -- An error of a step, or of the read before it.
    stopped :
        (reads : String → Fetch CredentialDocument) {e : StoreError} {s' : S}
        → IsRead (view s) reads
        → reading k step reads ≡ err e
        → view s' ≡ view s
        → Answers e s'
    stopped reads {e} {s'} is_read h same = elim (is_read (path_id k)) [
      | inr (why, bad) ↦
          let is_why : e ≡ database_error why =
            cc (h, fetch_failed url path_id distinct (view s) records stands k reads bad) in
          subst (λ e. Answers e s') (sym is_why)
            (Refined.no_answer why
              (inl (subst (λ v. Stands url path_id v records) (sym same) stands)))
      | inl read ↦ elim (Option-cases (get k records)) [
        | inl none_there ↦
            answered Types.unknown_credential
              (cc (
                h,
                fetch_none url path_id distinct (view s) records stands k reads none_there read,
              ))
              (absent none_there) same
        | inr (r, r_there) ↦
            let (y, is_y, mem) = declined (present r r_there) (
              sym (
                ap (λ x. x >>= step)
                  (fetch_some url path_id distinct (view s) records stands k reads r_there read))
              ∙ h) in
            answered y is_y mem same
      ]
    ]

    pub transact-Refined :
        {x : Ending StoreError StoredRecord × S}
        → TransactEnds ◌==◌ kept_document view (reading k step) s x
        → Refined url path_id view kept_record records memory (ended x.0, x.1)
    transact-Refined (TransactEnds.refused e reads is_read h same) = stopped reads is_read h same
    transact-Refined (TransactEnds.committed a ws reads is_read h w) =
        let (answer, after) = finished reads is_read h w in Refined.same_answer a answer after
    transact-Refined (TransactEnds.aborted e same) =
        Refined.no_answer e (inl (subst (λ v. Stands url path_id v records) (sym same) stands))
    transact-Refined (TransactEnds.committed_late e a ws reads is_read h w) =
        Refined.no_answer e (inr (finished reads is_read h w).1)
