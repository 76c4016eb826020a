-- ===== src/Documents/Table.antt =====
-- A database in memory: its behaviour is the documented one, and its transactions
-- never fail for other reasons.
use work_tracker.Prelude.{
  ◌≡◌, refl, ap, ◌∙◌, subst, inl, inr, Bool, true, Option, none, some, List, [], ◌∷◌, ◌++◌, All,
  Among, Among-right, arith, if◌then◌else◌, Bool-cases, Option-cases,
}
use mathlib.Core.Path.{fun_ext}
use work_tracker.Prelude.Result.{Result, ok, err, Result-cases, ok-injective}
use work_tracker.Documents.{
  Fetch, fetched, Created, created, already_exists, Write, Body, Ending, Database, Applies, set,
  IsDatabase, CreateEnds, TransactEnds,
}

-- A test of keys that tells them apart.
abbrev pub IsTest : {K : Type 0} → (K → K → Bool) → Type 0
IsTest {K} same = (a b : K) → (same a b ≡ true → a ≡ b) × (a ≡ b → same a b ≡ true)

-- The documents by their keys.
abbrev pub Rows : Type 0 → Type 0 → Type 0
Rows K D = List (K × D)

module _ {K D : Type 0} (same : K → K → Bool) where
  unfoldable pub look : K → Rows K D → Option D
  look k [] = none
  look k ((j, d) ∷ rows) = if same j k then some d else look k rows

  unfoldable pub store : K → D → Rows K D → Rows K D
  store k d [] = (k, d) ∷ []
  store k d ((j, e) ∷ rows) = if same j k then (k, d) ∷ rows else (j, e) ∷ store k d rows

  -- The document under a key, if it passes the test.
  matching : (D → Bool) → Option D → List D
  matching p none = []
  matching p (some d) = if p d then d ∷ [] else []

  query_keys : (D → Bool) → Rows K D → Rows K D → List D
  unfolding matching
  query_keys p s [] = []
  query_keys p s ((k, _) ∷ rest) = matching p (look k s) ++ query_keys p s rest

  abbrev reading : Rows K D → K → Fetch D
  reading s k = fetched (look k s)

  abbrev pub documents : Rows K D → K → Option D
  documents s k = look k s

module _ {K D : Type 0} (same : K → K → Bool) (kept : D → D) where
  unfoldable pub apply_writes : List (Write K D) → Rows K D → Option (Rows K D)
  apply_writes [] s = some s
  apply_writes (Write.create k d ∷ ws) s = elim (look same k s) [
    | none ↦ apply_writes ws (store same k (kept d) s)
    | some _ ↦ none
  ]
  apply_writes (Write.update k f ∷ ws) s = elim (look same k s) [
    | none ↦ none
    | some d ↦ apply_writes ws (store same k (kept (f d)) s)
  ]

  create_in : K → D → Rows K D → Created × Rows K D
  create_in k d s = elim (look same k s) [
    | none ↦ (created, store same k (kept d) s)
    | some _ ↦ (already_exists, s)
  ]

  unfoldable pub end_of :
      {E A : Type 0} → Rows K D → Result E (A × List (Write K D)) → Ending E A × Rows K D
  unfolding apply_writes
  end_of s (err e) = (Ending.refused e, s)
  end_of s (ok (a, ws)) = elim (apply_writes ws s) [
    | none ↦ (Ending.aborted "failed precondition", s)
    | some s' ↦ (Ending.committed a, s')
  ]

-- The database whose state is its documents.
unfoldable pub table :
    {K : Type 0} (D E : Type 0) → (K → K → Bool) → (D → D) → Database K D E (Rows K D)
unfolding query_keys create_in end_of store
table D E same kept = record {
  get_document = λ k s. fetched (look same k s);
  create_document = create_in same kept;
  query = λ p s. ok (query_keys same p s s);
  transact = λ body s. end_of same kept s (body (reading same s));
}

some_eq : {A : Type 0} {a b : A} → ◌≡◌ {A = Option A} (some a) (some b) → a ≡ b
some_eq h = cc

module _ {K D : Type 0} (same : K → K → Bool) (kept : D → D) (is_test : IsTest same) where
  look-store :
      (k j : K) (d : D) (s : Rows K D)
      → look same j (store same k d s) ≡ (if same k j then some d else look same j s)
  unfolding look store
  look-store k j d [] = refl
  look-store k j d ((i, e) ∷ s) =
      ground (arith, is_test k j, is_test i k, is_test i j, look-store k j d s)

  documents-store :
      (k : K) (d : D) (s : Rows K D)
      → documents same (store same k d s) ≡ set same k d (documents same s)
  documents-store k d s = fun_ext (λ j. look-store k j d s)

  Applies-apply_writes :
      (ws : List (Write K D)) (s : Rows K D) {s' : Rows K D}
      → apply_writes same kept ws s ≡ some s'
      → Applies same kept ws (documents same s) (documents same s')
  unfolding apply_writes
  Applies-apply_writes [] s h =
      subst (λ t. Applies same kept [] (documents same s) (documents same t)) (some_eq h)
        Applies.finished
  Applies-apply_writes (Write.create k d ∷ ws) s {s'} h = elim (Option-cases (look same k s)) [
    | inl absent ↦ Applies.creates absent (
        subst (λ v. Applies same kept ws v (documents same s')) (documents-store k (kept d) s)
          (Applies-apply_writes ws (store same k (kept d) s) (ground arith)))
    | inr (old, present) ↦ absurd (ground arith)
  ]
  Applies-apply_writes (Write.update k f ∷ ws) s {s'} h = elim (Option-cases (look same k s)) [
    | inl absent ↦ absurd (ground arith)
    | inr (d, present) ↦ Applies.updates d present (
        subst (λ v. Applies same kept ws v (documents same s')) (documents-store k (kept (f d)) s)
          (Applies-apply_writes ws (store same k (kept (f d)) s) (ground arith)))
  ]

  create_in-CreateEnds :
      (k : K) (d : D) (s : Rows K D)
      → CreateEnds same kept (documents same) k d s (create_in same kept k d s)
  unfolding create_in
  create_in-CreateEnds k d s = elim (Option-cases (look same k s)) [
    | inl absent ↦ rw (absent, create_in) (CreateEnds.stored absent (documents-store k (kept d) s))
    | inr (old, present) ↦ rw (present, create_in) (CreateEnds.taken old present refl)
  ]

  end_of-TransactEnds :
      {E A : Type 0} (body : Body K D E A) (s : Rows K D)
      → TransactEnds same kept (documents same) body s (end_of same kept s (body (reading same s)))
  unfolding end_of
  end_of-TransactEnds body s = elim (Result-cases (body (reading same s))) [
    | inr (e, h) ↦ rw h (TransactEnds.refused e (reading same s) (λ k. inl refl) h refl)
    | inl ((a, ws), h) ↦ elim (Option-cases (apply_writes same kept ws s)) [
      | inl bad ↦ rw (h, end_of, bad) (TransactEnds.aborted "failed precondition" refl)
      | inr (s', done) ↦
          rw (h, end_of, done)
            (TransactEnds.committed a ws (reading same s) (λ k. inl refl) h
              (Applies-apply_writes ws s done))
    ]
  ]

  abbrev Stored : (D → Bool) → Rows K D → D → Type 0
  Stored p s d = (p d ≡ true) × ((k : K) × (look same k s ≡ some d))

  All-query_keys : (p : D → Bool) (s rest : Rows K D) → All (Stored p s) (query_keys same p s rest)
  unfolding query_keys matching
  All-query_keys p s [] = tt
  All-query_keys p s ((k, d) ∷ rest) = elim (Option-cases (look same k s)) [
    | inl absent ↦ rw absent (All-query_keys p s rest)
    | inr (d', found) ↦ elim (Bool-cases (p d')) [
      | inl yes' ↦ rw (found, yes') ((yes', (k, found)), All-query_keys p s rest)
      | inr no' ↦ rw (found, no') (All-query_keys p s rest)
    ]
  ]

  -- What is under a key is among what is asked for of the rows with that key.
  Among-query_keys :
      (p : D → Bool) (s rest : Rows K D) (k : K) (d e : D)
      → look same k s ≡ some d
      → p d ≡ true
      → look same k rest ≡ some e
      → Among d (query_keys same p s rest)
  unfolding query_keys matching look
  Among-query_keys p s [] k d e h t r = absurd (cc r)
  Among-query_keys p s ((j, x) ∷ rest) k d e h t r = elim (Bool-cases (same j k)) [
    | inl at_k ↦
        let found : look same j s ≡ some d = ap (λ i. look same i s) ((is_test j k).0 at_k) ∙ h in
        rw (found, t) Among.here
    | inr other ↦
        Among-right (matching same p (look same j s))
          (Among-query_keys p s rest k d e h t (ground arith))
  ]

  pub table-IsDatabase :
      {E : Type 0} → IsDatabase same kept (documents {D = D} same) (table D E same kept)
  unfolding table
  table-IsDatabase = record {
    reads = λ k s. inl refl;
    creates = create_in-CreateEnds;
    queries = λ p s ds h. subst (All (Stored p s)) (ok-injective h) (All-query_keys p s s);
    complete = λ p s ds k d h found t.
        subst (Among d) (ok-injective h) (Among-query_keys p s s k d d found t found);
    transacts = λ A body s. end_of-TransactEnds body s;
  }
