-- ===== src/CredentialStore/Standing.antt =====
-- When the documents of the durable store are those of a memory store's records, whose times are
-- whole microseconds as the database keeps them.
use work_tracker.Prelude.{
  ◌≡◌, refl, sym, ap, subst, ◌∙◌, ◌⊎◌, inl, inr, Option, none, some, ◌==◌, eq_iff, arith, String,
  Bool-cases,
}
use mathlib.Core.Option
use work_tracker.Prelude.Dict.{get, put, get-put}
use work_tracker.Prelude.Result.{ok, err}
use work_tracker.Documents.{Fetch, fetched, set}
use work_tracker.Credential.Types
use work_tracker.Credential.Types.{Time, Hash, StoredRecord, Fallible}
use work_tracker.Credential.Checks.{UrlTest, validate_stored_record}
use work_tracker.Credential.Memory.{Records}
use work_tracker.Documents.Writes.{same_path}
use work_tracker.CredentialStore.{
  CredentialDocument, credential_error, database_error, Stored, encode_document, decode_fetched,
}
use work_tracker.CredentialStore.Kept.{kept_record}
use work_tracker.CredentialStore.Coding.{decode_document-encode_document}

some_record : {a b : StoredRecord} → ◌≡◌ {A = Option StoredRecord} (some a) (some b) → a ≡ b
some_record h = cc

abbrev pub View : Type 0
View = String → Option CredentialDocument

module _ (url : UrlTest) (path_id : String → String) where
  -- The documents are those of the records, under their paths, and each record is valid and
  -- has whole times.
  pub record Stands (view : View) (records : Records) : Type 0 where
    pub represents : (k : String) → view (path_id k) ≡ Option.map encode_document (get k records)
    pub valid :
        (k : String) (r : StoredRecord)
        → get k records ≡ some r
        → validate_stored_record url r ≡ ok tt
    pub is_kept : (k : String) (r : StoredRecord) → get k records ≡ some r → kept_record r ≡ r

  module _ {S : Type 0} (view : S → View) where
    -- An operation answers as the memory store does, up to the rounding `keep` of its answer, and
    -- leaves the documents of its records; or the database fails, and the operation has taken place
    -- or it has not.
    pub data Refined {A : Type 0} (keep : A → A) (records : Records) (memory : Fallible A × Records)
        : Stored A × S → Type 0 where
      same_answer :
          {s' : S} (a : A)
          → memory.0 ≡ ok (keep a)
          → Stands (view s') memory.1
          → Refined keep records memory (ok a, s')
      same_error :
          {s' : S} (e : Types.Error)
          → memory.0 ≡ err e
          → Stands (view s') memory.1
          → Refined keep records memory (err (credential_error e), s')
      no_answer :
          {s' : S} (e : String)
          → Stands (view s') records ⊎ Stands (view s') memory.1
          → Refined keep records memory (err (database_error e), s')

  module _ (distinct : (a b : String) → path_id a ≡ path_id b → a ≡ b) where
    is_kept-put :
        {view : View} {records : Records} (k : String) (r : StoredRecord)
        → Stands view records
        → kept_record r ≡ r
        → (j : String) (x : StoredRecord) → get j (put k r records) ≡ some x
        → kept_record x ≡ x
    is_kept-put {records = records} k r s w j x h = elim (Bool-cases (k == j)) [
      | inl here ↦
          let is_r : r ≡ x = some_record (sym (rw (get-put, here) refl) ∙ h) in
          subst (λ y. kept_record y ≡ y) is_r w
      | inr there ↦ s.is_kept j x (sym (rw (get-put, there) refl) ∙ h)
    ]

    pub Stands-put :
        {view : View} {records : Records} (k : String) (r : StoredRecord)
        → Stands view records
        → validate_stored_record url r ≡ ok tt
        → kept_record r ≡ r
        → Stands (set ◌==◌ (path_id k) (encode_document r) view) (put k r records)
    Stands-put {view} {records} k r s v w = record {
      represents = λ j.
          rw (same_path path_id distinct k j, get-put)
            (elim (Bool-cases (k == j)) [
              | inl here ↦ rw here refl
              | inr there ↦ rw there (s.represents j)
            ]);
      valid = λ j x h. ground (arith, get-put k j r records, s.valid j x);
      is_kept = λ j x h. is_kept-put k r s w j x h;
    }

    -- Writing a record that is there already changes nothing.
    pub Stands-put_same :
        {view : View} {records : Records} (k : String) (r : StoredRecord)
        → Stands view records
        → get k records ≡ some r
        → Stands view (put k r records)
    Stands-put_same {view} {records} k r s present = record {
      represents = λ j. elim (Bool-cases (k == j)) [
        | inl here ↦
            let one : k ≡ j = (eq_iff k j).0 here in
            rw (get-put, here)
              (s.represents j
                ∙ ap (Option.map encode_document) (ap (λ x. get x records) (sym one) ∙ present))
        | inr there ↦ rw (get-put, there) (s.represents j)
      ];
      valid = λ j x h. ground (arith, get-put k j r records, eq_iff k j, s.valid j x);
      is_kept = λ j x h. is_kept-put k r s (s.is_kept k r present) j x h;
    }

    module _ (view : View) (records : Records) (s : Stands view records) (k : String)
        (reads : String → Fetch CredentialDocument) where
      pub fetch_none :
          get k records ≡ none
          → reads (path_id k) ≡ fetched (view (path_id k))
          → decode_fetched url (reads (path_id k)) ≡ err (credential_error Types.unknown_credential)
      unfolding decode_fetched
      fetch_none absent read = rw (read, s.represents k, absent) refl

      pub fetch_some :
          {r : StoredRecord}
          → get k records ≡ some r
          → reads (path_id k) ≡ fetched (view (path_id k))
          → decode_fetched url (reads (path_id k)) ≡ ok r
      unfolding decode_fetched
      fetch_some {r} present read =
          rw (read, s.represents k, present)
            (decode_document-encode_document url r (s.valid k r present))

      pub fetch_failed :
          {e : String}
          → reads (path_id k) ≡ Fetch.failed e
          → decode_fetched url (reads (path_id k)) ≡ err (database_error e)
      unfolding decode_fetched
      fetch_failed read = rw read refl
