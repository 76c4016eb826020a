-- ===== src/Prelude/NameSet.antt =====
-- Go's `map[string]struct{}`: a set of strings, as a list.
use Prim.Native.String.{String}
use mathlib.Core.Path.{◌≡◌, refl}
use mathlib.Core.Bool.{Bool, false, ◌||◌}
use mathlib.Core.List.{List, [], ◌∷◌, ◌++◌}
use native.Mathlib.Omega.{arith}
use text.Mathlib.Text.{◌==◌}
use text.Mathlib.TextEquality.{eq_iff}
use work_tracker.Prelude.Tests.{if◌then◌else◌}

abbrev pub NameSet : Type 0
NameSet = List String

unfoldable pub contains : String → NameSet → Bool
contains k [] = false
contains k (j ∷ s) = j == k || contains k s

-- `delete(s, k)`
unfoldable pub without : String → NameSet → NameSet
without k [] = []
without k (j ∷ s) = let rest = without k s in if j == k then rest else j ∷ rest

pub contains-append :
    (k : String) (xs ys : NameSet) → contains k (xs ++ ys) ≡ (contains k xs || contains k ys)
unfolding contains
contains-append k [] ys = refl
contains-append k (j ∷ xs) ys = ground (arith, contains-append k xs ys)

pub contains-without :
    (k j : String) (s : NameSet)
    → contains j (without k s) ≡ (if k == j then false else contains j s)
unfolding contains without
contains-without k j [] = ground arith
contains-without k j (i ∷ s) =
    ground (arith, eq_iff k j, eq_iff i k, eq_iff i j, contains-without k j s)
