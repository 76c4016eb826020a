-- ===== src/Prelude/Order.antt =====
-- The order of strings.
use Prim.Native.Nat.{ℕ, zero, suc, Ordering, compare as compare_ℕ}
use Prim.Native.Nat.compare as compare_ℕ
use Prim.Native.String.compare
use Prim.Native.Char.{code}
use Prim.Native.String.{String, [], ◌∷◌, compare, then}
use mathlib.Core.Path.{◌≡◌, refl, ◌∙◌, ap, sym}
use mathlib.Core.Logic.{◌⊎◌, inl, inr}
use mathlib.Core.Bool.{true, false}
use text.Mathlib.Text.{is_lt}

flip : Ordering → Ordering
flip Ordering.lt = Ordering.gt
flip Ordering.eq = Ordering.eq
flip Ordering.gt = Ordering.lt

flip-then : (o r : Ordering) → flip (then o r) ≡ then (flip o) (flip r)
unfolding flip
flip-then Ordering.lt r = refl
flip-then Ordering.eq r = refl
flip-then Ordering.gt r = refl

flip-compare_nat : (m n : ℕ) → flip (compare_ℕ m n) ≡ compare_ℕ n m
unfolding flip
flip-compare_nat zero zero = refl
flip-compare_nat zero (suc n) = ap flip (compare_ℕ.zero-suc n) ∙ sym (compare_ℕ.suc-zero n)
flip-compare_nat (suc m) zero = ap flip (compare_ℕ.suc-zero m) ∙ sym (compare_ℕ.zero-suc m)
flip-compare_nat (suc m) (suc n) =
    ap flip (compare_ℕ.suc-suc m n) ∙ flip-compare_nat m n ∙ sym (compare_ℕ.suc-suc n m)

flip-compare : (s t : String) → flip (compare s t) ≡ compare t s
unfolding flip
flip-compare [] [] = refl
flip-compare [] (d ∷ t) = ap flip (compare.nil-cons d t) ∙ sym (compare.cons-nil d t)
flip-compare (c ∷ s) [] = ap flip (compare.cons-nil c s) ∙ sym (compare.nil-cons c s)
flip-compare (c ∷ s) (d ∷ t) =
    ap flip (compare.cons-cons c d s t)
    ∙ flip-then (compare_ℕ (code c) (code d)) (compare s t)
    ∙ ap (λ o. then o (flip (compare s t))) (flip-compare_nat (code c) (code d))
    ∙ ap (then (compare_ℕ (code d) (code c))) (flip-compare s t)
    ∙ sym (compare.cons-cons d c t s)

is_lt-flip : (o : Ordering) → is_lt o ≡ true → is_lt (flip o) ≡ false
unfolding flip
is_lt-flip Ordering.lt h = refl
is_lt-flip Ordering.eq h = absurd (cc h)
is_lt-flip Ordering.gt h = absurd (cc h)

pub compare-asymmetric : (s t : String) → is_lt (compare s t) ≡ true → is_lt (compare t s) ≡ false
compare-asymmetric s t h = ap is_lt (sym (flip-compare s t)) ∙ is_lt-flip (compare s t) h

same_number : (m n : ℕ) → compare_ℕ m n ≡ Ordering.eq → m ≡ n
same_number zero zero h = refl
same_number zero (suc n) h = absurd (cc (h, compare_ℕ.zero-suc n))
same_number (suc m) zero h = absurd (cc (h, compare_ℕ.suc-zero m))
same_number (suc m) (suc n) h = ap suc (same_number m n (sym (compare_ℕ.suc-suc m n) ∙ h))

-- A number before another, and that before a third.
compare_nat_trans :
    (a b c : ℕ)
    → is_lt (compare_ℕ a b) ≡ true
    → is_lt (compare_ℕ b c) ≡ true
    → is_lt (compare_ℕ a c) ≡ true
compare_nat_trans a zero zero h k = absurd (cc k)
compare_nat_trans zero zero (suc c) h k = k
compare_nat_trans (suc a) zero (suc c) h k = absurd (cc (h, ap is_lt (compare_ℕ.suc-zero a)))
compare_nat_trans a (suc b) zero h k = absurd (cc (k, ap is_lt (compare_ℕ.suc-zero b)))
compare_nat_trans zero (suc b) (suc c) h k = ap is_lt (compare_ℕ.zero-suc c)
compare_nat_trans (suc a) (suc b) (suc c) h k =
    ap is_lt (compare_ℕ.suc-suc a c)
    ∙ compare_nat_trans a b c (sym (ap is_lt (compare_ℕ.suc-suc a b)) ∙ h)
        (sym (ap is_lt (compare_ℕ.suc-suc b c)) ∙ k)

-- What decides the order of two texts: their first characters, or the rest where these are equal.
is_lt-then_cases :
    (o r : Ordering)
    → is_lt (then o r) ≡ true
    → (is_lt o ≡ true) ⊎ ((o ≡ Ordering.eq) × (is_lt r ≡ true))
is_lt-then_cases Ordering.lt r h = inl refl
is_lt-then_cases Ordering.eq r h = inr (refl, h)
is_lt-then_cases Ordering.gt r h = absurd (cc h)

is_lt-then_first : (o r : Ordering) → is_lt o ≡ true → is_lt (then o r) ≡ true
is_lt-then_first Ordering.lt r h = refl
is_lt-then_first Ordering.eq r h = absurd (cc h)
is_lt-then_first Ordering.gt r h = absurd (cc h)

pub compare_trans :
    (s t u : String)
    → is_lt (compare s t) ≡ true
    → is_lt (compare t u) ≡ true
    → is_lt (compare s u) ≡ true
compare_trans [] [] u h k = k
compare_trans (c ∷ s) [] u h k = absurd (cc (h, ap is_lt (compare.cons-nil c s)))
compare_trans s (d ∷ t) [] h k = absurd (cc (k, ap is_lt (compare.cons-nil d t)))
compare_trans [] (d ∷ t) (e ∷ u) h k = ap is_lt (compare.nil-cons e u)
compare_trans (c ∷ s) (d ∷ t) (e ∷ u) h k =
    ap is_lt (compare.cons-cons c e s u)
    ∙ elim (is_lt-then_cases (compare_ℕ (code c) (code d)) (compare s t)
        (sym (ap is_lt (compare.cons-cons c d s t)) ∙ h)) [
          | inl first ↦ elim (following) [
            | inl second ↦
                is_lt-then_first (compare_ℕ (code c) (code e)) (compare s u)
                  (compare_nat_trans (code c) (code d) (code e) first second)
            | inr (same, rest) ↦ is_lt-then_first (compare_ℕ (code c) (code e)) (compare s u) (
                ap (λ n. is_lt (compare_ℕ (code c) n)) (sym (same_number (code d) (code e) same))
                ∙ first)
          ]
          | inr (same, rest) ↦ elim (following) [
            | inl second ↦ is_lt-then_first (compare_ℕ (code c) (code e)) (compare s u) (
                ap (λ n. is_lt (compare_ℕ n (code e))) (same_number (code c) (code d) same)
                ∙ second)
            | inr (same', rest') ↦
                ap (λ n. is_lt (then (compare_ℕ n (code e)) (compare s u)))
                  (same_number (code c) (code d) same)
                ∙ ap (λ o. is_lt (then o (compare s u))) same'
                ∙ compare_trans s t u rest rest'
          ]
        ]
  where
    following :
        (is_lt (compare_ℕ (code d) (code e)) ≡ true)
        ⊎ ((compare_ℕ (code d) (code e) ≡ Ordering.eq) × (is_lt (compare t u) ≡ true))
    following =
        is_lt-then_cases (compare_ℕ (code d) (code e)) (compare t u)
          (sym (ap is_lt (compare.cons-cons d e t u)) ∙ k)
