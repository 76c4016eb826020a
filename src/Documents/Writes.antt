-- ===== src/Documents/Writes.antt =====
-- What short lists of writes do, and paths of documents.
use work_tracker.Prelude.{
  ap, sym, ◌∙◌, String, ◌==◌, eq_iff, arith, Bool-cases, inl, inr, ◌≡◌, refl, Bool, Option, some,
  [], ◌∷◌,
}
use work_tracker.Documents.{Write, Applies, set, finished, updates}

module _ {K D : Type 0} {same : K → K → Bool} {kept : D → D} where
  pub Applies-nil : {v v' : K → Option D} → Applies same kept [] v v' → v' ≡ v
  Applies-nil finished = refl

  pub Applies-update :
      {k : K} {f : D → D} {v v' : K → Option D}
      → Applies same kept (Write.update k f ∷ []) v v'
      → (d : D) × (v k ≡ some d) × (v' ≡ set same k (kept (f d)) v)
  Applies-update (updates d present rest) = (d, present, Applies-nil rest)

-- Different identifiers have different paths.
pub same_path :
    (path_id : String → String)
    → ((a b : String) → path_id a ≡ path_id b → a ≡ b)
    → (k j : String) → (path_id k == path_id j) ≡ (k == j)
same_path path_id distinct k j = elim (Bool-cases (k == j)) [
  | inl here ↦ (eq_iff (path_id k) (path_id j)).1 (ap path_id ((eq_iff k j).0 here)) ∙ sym here
  | inr there ↦ ground (arith, eq_iff k j, eq_iff (path_id k) (path_id j), distinct k j)
]
