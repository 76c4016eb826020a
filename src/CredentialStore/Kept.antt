-- ===== src/CredentialStore/Kept.antt =====
-- credentialstore/firestore.go, the timestamps of `credentialDocument`: Firestore documents that it
-- keeps a timestamp to the microsecond, rounded down.
use work_tracker.Prelude.{
  ◌≡◌, refl, ap, subst, sym, ◌∙◌, ◌≤◌, ◌-◌, true, false, Option, none, some, ltb, arith, inl, inr,
  String, Option-cases, Bool-cases,
}
use Prim.Native.Nat.{◌%◌}
use mathlib.Core.Option
use work_tracker.Prelude.Result.{ok}
use work_tracker.Credential.Types.{Time, Hash, StoredRecord}
use work_tracker.Credential.Checks.{UrlTest, validate_stored_record, validate_authentication}
use work_tracker.Credential.Memory.{use_record}
use work_tracker.CredentialStore.{CredentialDocument, encode_document, is_later}

-- The last whole microsecond that is not after a time.
unfoldable pub whole : Time → Time
whole t = t - t % 1000

-- What the database keeps of a document.
abbrev pub kept_document : CredentialDocument → CredentialDocument
kept_document d = record d {
  issued_at = whole d.issued_at;
  expires_at = whole d.expires_at;
  created_at = whole d.created_at;
  revoked_at = Option.map whole d.revoked_at;
  last_used_at = Option.map whole d.last_used_at;
}

-- A record with its times rounded likewise.
abbrev pub kept_record : StoredRecord → StoredRecord
kept_record r = record r {
  metadata = record r.metadata {
    binding = record r.metadata.binding {
      issued_at = whole r.metadata.binding.issued_at;
      expires_at = whole r.metadata.binding.expires_at;
    };
    created_at = whole r.metadata.created_at;
    revoked_at = Option.map whole r.metadata.revoked_at;
    last_used_at = Option.map whole r.metadata.last_used_at;
  };
}

pub whole_le : (t : Time) → whole t ≤ t
unfolding whole
whole_le t = omega arith

-- A whole time that is not after a time is not after it rounded.
pub le_whole : (a t : Time) → whole a ≡ a → a ≤ t → a ≤ whole t
unfolding whole
le_whole a t h late = omega (arith, h)

whole_twice : (t : Time) → whole (whole t) ≡ whole t
unfolding whole
whole_twice t = omega arith

map_twice : (t : Option Time) → Option.map whole (Option.map whole t) ≡ Option.map whole t
map_twice none = refl
map_twice (some t) = rw whole_twice refl

pub keep_twice : (r : StoredRecord) → kept_record (kept_record r) ≡ kept_record r
keep_twice r =
    rw
      (
        whole_twice r.metadata.binding.issued_at,
        whole_twice r.metadata.binding.expires_at,
        whole_twice r.metadata.created_at,
        map_twice r.metadata.revoked_at,
        map_twice r.metadata.last_used_at,
      )
      refl

pub kept-encode_document :
    (r : StoredRecord) → kept_document (encode_document r) ≡ encode_document (kept_record r)
unfolding encode_document
kept-encode_document r = refl

some_eq : {a b : Time} → ◌≡◌ {A = Option Time} (some a) (some b) → a ≡ b
some_eq h = cc

-- What a use and a revocation become, of a record whose times are whole.
module _ (r : StoredRecord) (is_kept : kept_record r ≡ r) where
  pub kept_used :
      (at : Time)
      → kept_record (record r { metadata = record r.metadata { last_used_at = some at } })
        ≡ record r { metadata = record r.metadata { last_used_at = some (whole at) } }
  kept_used at =
      ap {A = StoredRecord} {B = StoredRecord}
        (λ x. record x { metadata = record x.metadata { last_used_at = some (whole at) } }) is_kept

  pub kept_revoked :
      (at : Time) (actor : String)
      → kept_record
          (record r { metadata = record r.metadata { revoked_at = some at; revoked_by = actor } })
        ≡ record r {
          metadata = record r.metadata { revoked_at = some (whole at); revoked_by = actor };
        }
  kept_revoked at actor =
      ap {A = StoredRecord} {B = StoredRecord}
        (λ x. record x {
          metadata = record x.metadata { revoked_at = some (whole at); revoked_by = actor };
        })
        is_kept

  whole_expiry : whole r.metadata.binding.expires_at ≡ r.metadata.binding.expires_at
  whole_expiry = ap (λ x. x.metadata.binding.expires_at) is_kept

  -- A credential is checked at a time as at that time rounded.
  pub same_check :
      (hash : Hash) (at : Time)
      → validate_authentication r hash (whole at) ≡ validate_authentication r hash at
  unfolding validate_authentication
  same_check hash at = rw same_expired refl
    where
      same_expired :
          ltb (whole at) r.metadata.binding.expires_at ≡ ltb at r.metadata.binding.expires_at
      same_expired =
          ground (arith, whole_le at, le_whole r.metadata.binding.expires_at at whole_expiry)

  pub created_whole : (at : Time) → r.metadata.created_at ≤ at → r.metadata.created_at ≤ whole at
  created_whole at late =
      le_whole r.metadata.created_at at (ap (λ x. x.metadata.created_at) is_kept) late

  last_used :
      {t u : Option Time}
      → t ≡ u
      → record r { metadata = record r.metadata { last_used_at = t } }
        ≡ record r { metadata = record r.metadata { last_used_at = u } }
  last_used h =
      ap {A = Option Time} {B = StoredRecord}
        (λ x. record r { metadata = record r.metadata { last_used_at = x } }) h

  pub use_record-later :
      (at : Time)
      → is_later at r.metadata.last_used_at ≡ true
      → use_record (whole at) r
        ≡ record r { metadata = record r.metadata { last_used_at = some (whole at) } }
  unfolding use_record
  use_record-later at later = elim (Option-cases r.metadata.last_used_at) [
    | inl never ↦ rw never refl
    | inr (last, used) ↦ elim (Bool-cases (ltb last (whole at))) [
      | inl newer ↦ rw (used, newer) refl
      | inr older ↦
          let last_whole : whole last ≡ last =
            some_eq (
              sym (ap (Option.map whole) used)
              ∙ ap (λ x. x.metadata.last_used_at) is_kept
              ∙ used) in
          let newest : last ≡ whole at = ground (arith, le_whole last at last_whole) in
          rw (used, older) (last_used (ap some newest))
    ]
  ]

  pub use_record-earlier :
      (at : Time) → is_later at r.metadata.last_used_at ≡ false → use_record (whole at) r ≡ r
  unfolding use_record
  use_record-earlier at earlier = ground (arith, whole_le at)

-- A record that is kept as a valid one.
pub kept-valid :
    (url : UrlTest) (a : StoredRecord) {b : StoredRecord}
    → kept_record a ≡ b
    → validate_stored_record url b ≡ ok tt
    → validate_stored_record url (kept_record a) ≡ ok tt
kept-valid url a same h = subst (λ x. validate_stored_record url x ≡ ok tt) (sym same) h
