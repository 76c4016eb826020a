-- ===== src/Contract/Json/Sorted.antt =====
-- A sorted list is left as it is by sorting.
use work_tracker.Prelude.{◌≡◌, refl, subst, Bool, true, false, List, [], ◌∷◌, Bool-cases, inl, inr}
use work_tracker.Packet.Loading.{insert_sorted, sort}

module _ {A : Type 0} (less : A → A → Bool) where
  -- No element is before its predecessor.
  abbrev pub Sorted : List A → Type 0
  Sorted [] = Unit
  Sorted (x ∷ []) = Unit
  Sorted (x ∷ y ∷ ys) = (less y x ≡ false) × Sorted (y ∷ ys)

  sort-Sorted_id : (xs : List A) → Sorted xs → sort less xs ≡ xs
  unfolding sort insert_sorted
  sort-Sorted_id [] s = refl
  sort-Sorted_id (x ∷ []) s = refl
  sort-Sorted_id (x ∷ y ∷ ys) s = rw (sort-Sorted_id (y ∷ ys) s.1, s.0) refl

  module _ (asymmetric : (x y : A) → less x y ≡ true → less y x ≡ false) where
    insert_sorted-Sorted : (x : A) (xs : List A) → Sorted xs → Sorted (insert_sorted less x xs)
    unfolding insert_sorted
    insert_sorted-Sorted x [] s = tt
    insert_sorted-Sorted x (y ∷ []) s = elim (Bool-cases (less y x)) [
      | inl first ↦ rw first (asymmetric y x first, tt)
      | inr after ↦ rw after (after, tt)
    ]
    insert_sorted-Sorted x (y ∷ z ∷ zs) s = elim (Bool-cases (less y x)) [
      | inr after ↦ rw after (after, s)
      | inl first ↦ elim (Bool-cases (less z x)) [
        | inl second ↦
            let rest : Sorted (z ∷ insert_sorted less x zs) =
              subst Sorted {y = z ∷ insert_sorted less x zs} (rw second refl)
                (insert_sorted-Sorted x (z ∷ zs) s.1) in
            rw (first, second) (s.0, rest)
        | inr between ↦ rw (first, between) (asymmetric y x first, (between, s.1))
      ]
    ]

    sort-Sorted : (xs : List A) → Sorted (sort less xs)
    unfolding sort
    sort-Sorted [] = tt
    sort-Sorted (x ∷ xs) = insert_sorted-Sorted x (sort less xs) (sort-Sorted xs)

    pub sort-sort : (xs : List A) → sort less (sort less xs) ≡ sort less xs
    sort-sort xs = sort-Sorted_id (sort less xs) (sort-Sorted xs)
