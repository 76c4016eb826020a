-- ===== src/PacketExport/Reconciled.antt =====
-- `Reconcile` of the records of the repository and of the application.
use work_tracker.Prelude.{
  ◌≡◌, refl, ◌∙◌, ap, sym, subst, ◌||◌, Option, none, some, List, [], ◌∷◌, ◌==◌, map, eq_iff, arith,
  All, Bool-cases, inl, inr, String, if◌then◌else◌,
}
use work_tracker.Prelude.Dict.{Dict, get, put, get-put}
use work_tracker.Prelude.NameSet.{contains}
use work_tracker.Packet.Store.Identifiers.{Distinct}
use work_tracker.PacketExport.{Record, index_records, reconcile}

-- The first, and the last, record with an identifier.
unfoldable pub find : String → List Record → Option Record
find id [] = none
find id (r ∷ rs) = if r.id == id then some r else find id rs

unfoldable pub last : String → List Record → Option Record
last id [] = none
last id (r ∷ rs) = elim (last id rs) [
  | some x ↦ some x
  | none ↦ if r.id == id then some r else none
]

abbrev pub or_else : Option Record → Option Record → Option Record
or_else (some r) other = some r
or_else none other = other

abbrev values : Dict Record → List Record
values = map (λ entry. entry.1)

-- Every record stands under its identifier, and each identifier once.
record Keyed (by_id : Dict Record) : Type 0 where
  own : All (λ entry. entry.0 ≡ entry.1.id) by_id
  once : Distinct (map (λ entry. entry.0) by_id)

own-put :
    (r : Record) (d : Dict Record)
    → All (λ entry. entry.0 ≡ entry.1.id) d
    → All (λ entry. entry.0 ≡ entry.1.id) (put r.id r d)
unfolding put
own-put r [] o = (refl, tt)
own-put r ((k, x) ∷ d) o = elim (Bool-cases (k == r.id)) [
  | inl here ↦ rw here (refl, o.1)
  | inr there ↦ rw there (o.0, own-put r d o.1)
]

keys-put :
    (k j : String) (x : Record) (d : Dict Record)
    → contains k (map (λ entry. entry.0) (put j x d))
      ≡ (j == k || contains k (map (λ entry. entry.0) d))
unfolding put contains
keys-put k j x [] = refl
keys-put k j x ((i, y) ∷ d) = ground (arith, eq_iff i j, eq_iff i k, eq_iff j k, keys-put k j x d)

once-put :
    (j : String) (x : Record) (d : Dict Record)
    → Distinct (map (λ entry. entry.0) d)
    → Distinct (map (λ entry. entry.0) (put j x d))
unfolding put contains
once-put j x [] u = (refl, tt)
once-put j x ((i, y) ∷ d) u = elim (Bool-cases (i == j)) [
  | inl here ↦ rw here (ground (arith, eq_iff i j, u.0), u.1)
  | inr there ↦
      rw there (ground (arith, keys-put i j x d, eq_iff i j, eq_iff j i, u.0), once-put j x d u.1)
]

index-Keyed : (d : Dict Record) (rs : List Record) → Keyed d → Keyed (index_records d rs)
unfolding index_records
index-Keyed d [] k = k
index-Keyed d (r ∷ rs) k =
    index-Keyed (put r.id r d) rs
      (record { own = own-put r d k.own; once = once-put r.id r d k.once })

get-index :
    (id : String) (d : Dict Record) (rs : List Record)
    → get id (index_records d rs) ≡ or_else (last id rs) (get id d)
unfolding index_records last
get-index id d [] = refl
get-index id d (r ∷ rs) = get-index id (put r.id r d) rs ∙ ground (arith, get-put r.id id r d)

find-values :
    (id : String) (d : Dict Record)
    → All (λ entry. entry.0 ≡ entry.1.id) d
    → find id (values d) ≡ get id d
unfolding find get
find-values id [] o = refl
find-values id ((k, r) ∷ d) o = ground (arith, o.0, find-values id d o.1)

ids-values :
    (d : Dict Record)
    → All (λ entry. entry.0 ≡ entry.1.id) d
    → map (λ r. r.id) (values d) ≡ map (λ entry. entry.0) d
ids-values [] o = refl
ids-values ((k, r) ∷ d) o = rw (ids-values d o.1, o.0) refl

nothing-Keyed : Keyed []
nothing-Keyed = record { own = tt; once = tt }

both-Keyed :
    (repository app : List Record) → Keyed (index_records (index_records [] repository) app)
both-Keyed repository app =
    index-Keyed (index_records [] repository) app (index-Keyed [] repository nothing-Keyed)

-- What Reconcile gives under an identifier is the last record of the application with it, and
-- where there is none, the last of the repository.
pub find-reconcile :
    (repository app : List Record) (id : String)
    → find id (reconcile repository app) ≡ or_else (last id app) (last id repository)
unfolding reconcile get
find-reconcile repository app id =
    find-values id (index_records (index_records [] repository) app) (both-Keyed repository app).own
    ∙ get-index id (index_records [] repository) app
    ∙ ap (or_else (last id app)) (get-index id [] repository ∙ ground arith)

-- No identifier stands twice in what Reconcile gives.
pub reconcile-Distinct :
    (repository app : List Record) → Distinct (map (λ r. r.id) (reconcile repository app))
unfolding reconcile
reconcile-Distinct repository app =
    let k = both-Keyed repository app in
    subst Distinct (sym (ids-values (index_records (index_records [] repository) app) k.own)) k.once
