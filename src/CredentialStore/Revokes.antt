-- ===== src/CredentialStore/Revokes.antt =====
-- What the transaction of `Revoke` does with a record, beside what the memory store does with it.
use work_tracker.Prelude.{
  ◌≡◌, refl, ap, sym, ◌∙◌, inl, inr, ◌≤◌, true, false, none, some, [], ◌∷◌, ◌==◌, arith, String,
  Bool-cases, Option-cases,
}
use work_tracker.Prelude.Dict.{get, put}
use work_tracker.Prelude.Result.{ok, err}
use work_tracker.Documents.{Write}
use work_tracker.Credential.Texts.{valid_identity_value}
use work_tracker.Credential.Types
use work_tracker.Credential.Types.{Time, StoredRecord}
use work_tracker.Credential.Checks.{UrlTest, valid_issue, valid_revocation, validate_stored_record}
use work_tracker.Credential.Memory
use work_tracker.Credential.Memory.{Records, revoke_record}
use work_tracker.CredentialStore.{credential_error, encode_document, revoke_step, set_revoked}
use work_tracker.CredentialStore.Kept.{whole, kept_record, kept_revoked, kept-valid, created_whole}
use work_tracker.CredentialStore.Steps.{StepEnds, declines, keeps, changes}

revoked-valid :
    (url : UrlTest) (r : StoredRecord) (actor : String) (at : Time)
    → validate_stored_record url r ≡ ok tt
    → r.metadata.created_at ≤ at
    → valid_identity_value actor ≡ true
    → validate_stored_record url
        (record r { metadata = record r.metadata { revoked_at = some at; revoked_by = actor } })
      ≡ ok tt
unfolding validate_stored_record valid_issue valid_revocation
revoked-valid url r actor at h late good = ground arith

module _ (url : UrlTest) (path k : String) (records : Records) (r : StoredRecord)
    (valid : validate_stored_record url r ≡ ok tt) (is_kept : kept_record r ≡ r)
    (there : get k records ≡ some r) where
  memory_revokes :
      (tenant actor : String) (at : Time)
      → (r.metadata.tenant_id == tenant) ≡ true
      → Memory.revoke tenant k actor at records
        ≡ (ok (revoke_record actor at r), put k (revoke_record actor at r) records)
  unfolding Memory.revoke
  memory_revokes tenant actor at own = rw (there, Memory.revoke, own) refl

  memory_hides :
      (tenant actor : String) (at : Time)
      → (r.metadata.tenant_id == tenant) ≡ false
      → Memory.revoke tenant k actor at records ≡ (err Types.unknown_credential, records)
  unfolding Memory.revoke
  memory_hides tenant actor at foreign = rw (there, Memory.revoke, foreign) refl

  -- The record after a revocation.
  abbrev revoked : Time → String → StoredRecord
  revoked at actor = record r {
    metadata = record r.metadata { revoked_at = some at; revoked_by = actor };
  }

  step_hides :
      (tenant actor : String) (at : Time)
      → (r.metadata.tenant_id == tenant) ≡ false
      → revoke_step path tenant actor at r ≡ err (credential_error Types.unknown_credential)
  unfolding revoke_step
  step_hides tenant actor at foreign = rw (revoke_step, foreign) refl

  step_revokes :
      (tenant actor : String) (at : Time)
      → (r.metadata.tenant_id == tenant) ≡ true
      → r.metadata.revoked_at ≡ none
      → revoke_step path tenant actor at r
        ≡ ok (
          record r { metadata = record r.metadata { revoked_at = some at; revoked_by = actor } },
          Write.update path (set_revoked at actor) ∷ [],
        )
  unfolding revoke_step
  step_revokes tenant actor at own open' = rw (revoke_step, own, open') refl

  step_repeats :
      (tenant actor : String) (at : Time) {t : Time}
      → (r.metadata.tenant_id == tenant) ≡ true
      → r.metadata.revoked_at ≡ some t
      → revoke_step path tenant actor at r ≡ ok (r, [])
  unfolding revoke_step
  step_repeats tenant actor at own shut = ground arith

  revoke_record-first :
      (actor : String) (at : Time)
      → r.metadata.revoked_at ≡ none
      → revoke_record actor at r
        ≡ record r { metadata = record r.metadata { revoked_at = some at; revoked_by = actor } }
  unfolding revoke_record
  revoke_record-first actor at open' = ground arith

  revoke_record-again :
      (actor : String) (at : Time) {t : Time}
      → r.metadata.revoked_at ≡ some t
      → revoke_record actor at r ≡ r
  unfolding revoke_record
  revoke_record-again actor at shut = ground arith

  memory_revokes_first :
      (tenant actor : String) (at : Time)
      → (r.metadata.tenant_id == tenant) ≡ true
      → r.metadata.revoked_at ≡ none
      → Memory.revoke tenant k actor (whole at) records
        ≡ (ok (kept_record (revoked at actor)), put k (kept_record (revoked at actor)) records)
  memory_revokes_first tenant actor at own open' =
      memory_revokes tenant actor (whole at) own
      ∙ ap (λ x. (ok x, put k x records))
          (revoke_record-first actor (whole at) open' ∙ sym (kept_revoked r is_kept at actor))

  pub revoke_step-StepEnds :
      (tenant actor : String) (at : Time)
      → r.metadata.created_at ≤ at
      → valid_identity_value actor ≡ true
      → StepEnds url path k r records
          (revoke_step path tenant actor at r)
          (Memory.revoke tenant k actor (whole at) records)
  unfolding encode_document
  revoke_step-StepEnds tenant actor at late good =
      elim (Bool-cases (r.metadata.tenant_id == tenant)) [
        | inr foreign ↦
            rw (step_hides tenant actor at foreign, memory_hides tenant actor (whole at) foreign)
              (declines Types.unknown_credential)
        | inl own ↦ elim (Option-cases r.metadata.revoked_at) [
          | inl open' ↦
              rw
                (
                  step_revokes tenant actor at own open',
                  memory_revokes_first tenant actor at own open',
                )
                (changes (revoked at actor) (set_revoked at actor) refl (
                  kept-valid url (revoked at actor) (kept_revoked r is_kept at actor) (
                    revoked-valid url r actor (whole at) valid (created_whole r is_kept at late)
                      good)))
          | inr (t, shut) ↦
              rw
                (
                  step_repeats tenant actor at own shut,
                  memory_revokes tenant actor (whole at) own,
                  revoke_record-again actor (whole at) shut,
                )
                keeps
        ]
      ]
