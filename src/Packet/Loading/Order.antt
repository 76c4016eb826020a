-- ===== src/Packet/Loading/Order.antt =====
-- What a sort promises: the same elements, none of them before an earlier one.
use work_tracker.Prelude.{
  ◌≡◌, refl, ap, subst, sym, Bool, true, false, List, [], ◌∷◌, ◌++◌, All, All-map, Bool-cases, inl,
  inr,
}
use work_tracker.Packet.Loading.{insert_slice, sort_slice}

-- The elements of one list are those of another: the first stands somewhere in it, and the others are
-- what is left there.
pub data Rearranged {A : Type 0} : List A → List A → Type 0 where
  nothing : Rearranged [] []
  next :
      {x : A} {out rs : List A} (us vs : List A)
      → rs ≡ us ++ x ∷ vs
      → Rearranged out (us ++ vs)
      → Rearranged (x ∷ out) rs

All-middle :
    {A : Type 0} (P : A → Type 0) (x : A) (us vs : List A)
    → P x
    → All P (us ++ vs)
    → All P (us ++ x ∷ vs)
All-middle P x [] vs p a = (p, a)
All-middle P x (u ∷ us) vs p a = (a.0, All-middle P x us vs p a.1)

pub All-Rearranged :
    {A : Type 0} (P : A → Type 0) {out rs : List A} → Rearranged out rs → All P out → All P rs
All-Rearranged P nothing a = a
All-Rearranged P (next {x = x} us vs e r) a =
    subst (All P) (sym e) (All-middle P x us vs a.0 (All-Rearranged P r a.1))

module _ {A : Type 0} (less : A → A → Bool) where
  -- No element is before an earlier one.
  abbrev pub Ordered : List A → Type 0
  Ordered [] = Unit
  Ordered (x ∷ xs) = All (λ y. less y x ≡ false) xs × Ordered xs

  insert_slice-Rearranged :
      (x : A) (out : List A) {rs : List A}
      → Rearranged out rs
      → Rearranged (insert_slice less x out) (x ∷ rs)
  unfolding insert_slice
  insert_slice-Rearranged x [] r = next [] _ refl r
  insert_slice-Rearranged x (y ∷ out) (next us vs e r) = elim (Bool-cases (less x y)) [
    | inl first ↦ rw first (next [] _ refl (next us vs e r))
    | inr after ↦
        rw after (next (x ∷ us) vs (ap (λ rs. x ∷ rs) e) (insert_slice-Rearranged x out r))
  ]

  pub sort_slice-Rearranged : (rs : List A) → Rearranged (sort_slice less rs) rs
  unfolding sort_slice
  sort_slice-Rearranged [] = nothing
  sort_slice-Rearranged (r ∷ rs) =
      insert_slice-Rearranged r (sort_slice less rs) (sort_slice-Rearranged rs)

  All-insert_slice :
      (P : A → Type 0) (x : A) (xs : List A) → P x → All P xs → All P (insert_slice less x xs)
  unfolding insert_slice
  All-insert_slice P x [] p a = (p, tt)
  All-insert_slice P x (y ∷ ys) p a = elim (Bool-cases (less x y)) [
    | inl first ↦ rw first (p, a)
    | inr after ↦ rw after (a.0, All-insert_slice P x ys p a.1)
  ]

  module _ (asymmetric : (x y : A) → less x y ≡ true → less y x ≡ false)
      (transitive : (x y z : A) → less x y ≡ true → less y z ≡ true → less x z ≡ true) where
    -- What is not before `y` is not before what is before `y`.
    not_before : (x y z : A) → less x y ≡ true → less z y ≡ false → less z x ≡ false
    not_before x y z h k = elim (Bool-cases (less z x)) [
      | inl before_x ↦ absurd (cc (k, transitive z x y before_x h))
      | inr after ↦ after
    ]

    insert_slice-Ordered : (x : A) (xs : List A) → Ordered xs → Ordered (insert_slice less x xs)
    unfolding insert_slice
    insert_slice-Ordered x [] o = (tt, tt)
    insert_slice-Ordered x (y ∷ ys) o = elim (Bool-cases (less x y)) [
      | inl first ↦ rw first (
        (
          asymmetric x y first,
          All-map (λ z. less z y ≡ false) (λ z. less z x ≡ false) ys (λ z. not_before x y z first)
              o.0,
        ),
        o,
      )
      | inr after ↦
          rw after
            (All-insert_slice (λ z. less z y ≡ false) x ys after o.0, insert_slice-Ordered x ys o.1)
    ]

    pub sort_slice-Ordered : (xs : List A) → Ordered (sort_slice less xs)
    unfolding sort_slice
    sort_slice-Ordered [] = tt
    sort_slice-Ordered (x ∷ xs) =
        insert_slice-Ordered x (sort_slice less xs) (sort_slice-Ordered xs)
