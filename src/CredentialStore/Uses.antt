-- ===== src/CredentialStore/Uses.antt =====
-- What the transaction of `Authenticate` does with a record, beside what the memory store does with it.
use work_tracker.Prelude.{
  ◌≡◌, refl, ap, sym, ◌∙◌, inl, inr, ◌≤◌, true, false, some, [], ◌∷◌, arith, String, Bool-cases,
}
use work_tracker.Prelude.Dict.{get, put}
use work_tracker.Prelude.Result.{ok, err, Result-cases}
use work_tracker.Documents.{Write}
use work_tracker.Credential.Types
use work_tracker.Credential.Types.{Time, Hash, StoredRecord, Fallible}
use work_tracker.Credential.Checks.{
  UrlTest, valid_issue, valid_revocation, validate_stored_record, validate_authentication,
}
use work_tracker.Credential.Memory
use work_tracker.Credential.Memory.{Records, use_record}
use work_tracker.CredentialStore.{
  credential_error, encode_document, authenticate_step, set_last_used, is_later,
}
use work_tracker.CredentialStore.Kept.{
  whole, kept_record, kept_used, kept-valid, same_check, created_whole, use_record-later,
  use_record-earlier,
}
use work_tracker.CredentialStore.Steps.{StepEnds, declines, keeps, changes}

used-valid :
    (url : UrlTest) (r : StoredRecord) (at : Time)
    → validate_stored_record url r ≡ ok tt
    → r.metadata.created_at ≤ at
    → validate_stored_record url
        (record r { metadata = record r.metadata { last_used_at = some at } })
      ≡ ok tt
unfolding validate_stored_record valid_issue valid_revocation
used-valid url r at h late = ground arith

module _ (url : UrlTest) (path k : String) (records : Records) (r : StoredRecord)
    (valid : validate_stored_record url r ≡ ok tt) (is_kept : kept_record r ≡ r)
    (there : get k records ≡ some r) where
  -- What the memory store does with the record.
  memory_refuses :
      (hash : Hash) (at : Time) {e : Types.Error}
      → validate_authentication r hash at ≡ err e
      → Memory.authenticate k hash at records ≡ (err e, records)
  unfolding Memory.authenticate
  memory_refuses hash at bad = rw (there, Memory.authenticate, bad) refl

  memory_uses :
      (hash : Hash) (at : Time)
      → validate_authentication r hash at ≡ ok tt
      → Memory.authenticate k hash at records
        ≡ (ok (use_record at r), put k (use_record at r) records)
  unfolding Memory.authenticate
  memory_uses hash at good = rw (there, Memory.authenticate, good) refl

  step_refuses :
      (hash : Hash) (at : Time) {e : Types.Error}
      → validate_authentication r hash at ≡ err e
      → authenticate_step path hash at r ≡ err (credential_error e)
  unfolding authenticate_step
  step_refuses hash at bad = rw (authenticate_step, bad) refl

  step_uses :
      (hash : Hash) (at : Time)
      → validate_authentication r hash at ≡ ok tt
      → is_later at r.metadata.last_used_at ≡ true
      → authenticate_step path hash at r
        ≡ ok (
          record r { metadata = record r.metadata { last_used_at = some at } },
          Write.update path (set_last_used at) ∷ [],
        )
  unfolding authenticate_step
  step_uses hash at good later = rw (authenticate_step, good, later) refl

  step_keeps :
      (hash : Hash) (at : Time)
      → validate_authentication r hash at ≡ ok tt
      → is_later at r.metadata.last_used_at ≡ false
      → authenticate_step path hash at r ≡ ok (r, [])
  unfolding authenticate_step
  step_keeps hash at good earlier = rw (authenticate_step, good, earlier) refl

  -- The record after a use.
  abbrev used : Time → StoredRecord
  used at = record r { metadata = record r.metadata { last_used_at = some at } }

  checked :
      (at : Time) (hash : Hash) {x : Fallible Unit}
      → validate_authentication r hash at ≡ x
      → validate_authentication r hash (whole at) ≡ x
  checked at hash h = same_check r is_kept hash at ∙ h

  -- Both records of a use are those that the database keeps.
  memory_uses_later :
      (hash : Hash) (at : Time)
      → validate_authentication r hash at ≡ ok tt
      → is_later at r.metadata.last_used_at ≡ true
      → Memory.authenticate k hash (whole at) records
        ≡ (ok (kept_record (used at)), put k (kept_record (used at)) records)
  memory_uses_later hash at good later =
      memory_uses hash (whole at) (checked at hash good)
      ∙ ap (λ x. (ok x, put k x records))
          (use_record-later r is_kept at later ∙ sym (kept_used r is_kept at))

  pub authenticate_step-StepEnds :
      (hash : Hash) (at : Time)
      → r.metadata.created_at ≤ at
      → StepEnds url path k r records
          (authenticate_step path hash at r)
          (Memory.authenticate k hash (whole at) records)
  unfolding encode_document
  authenticate_step-StepEnds hash at late =
      elim (Result-cases (validate_authentication r hash at)) [
        | inr (e, bad) ↦
            rw (step_refuses hash at bad, memory_refuses hash (whole at) (checked at hash bad))
              (declines e)
        | inl (_, good) ↦ elim (Bool-cases (is_later at r.metadata.last_used_at)) [
          | inl later ↦
              rw (step_uses hash at good later, memory_uses_later hash at good later)
                (changes (used at) (set_last_used at) refl (
                  kept-valid url (used at) (kept_used r is_kept at)
                    (used-valid url r (whole at) valid (created_whole r is_kept at late))))
          | inr earlier ↦
              rw
                (
                  step_keeps hash at good earlier,
                  memory_uses hash (whole at) (checked at hash good),
                  use_record-earlier r is_kept at earlier,
                )
                keeps
        ]
      ]
