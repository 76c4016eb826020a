-- ===== src/Packet/Store/Identifiers.antt =====
-- Event identifiers in a log: `Append` stores each at most once.
use work_tracker.Prelude.{◌≡◌, refl, false, ◌||◌, List, [], ◌∷◌, ◌++◌, arith, eq_iff, All}
use work_tracker.Prelude.NameSet.{NameSet, contains, contains-append}
use work_tracker.Prelude.Result.{ok}
use work_tracker.Packet.Types.{EventId}
use work_tracker.Packet.Store.{EventRecord, record_event_id, check_ids, add_ids}

abbrev pub ids_of : List EventRecord → NameSet
ids_of [] = []
ids_of (r ∷ rs) = record_event_id r ∷ ids_of rs

abbrev pub Distinct : NameSet → Type 0
Distinct [] = Unit
Distinct (x ∷ xs) = (contains x xs ≡ false) × Distinct xs

-- No name of the second set is in the first.
abbrev pub Apart : NameSet → NameSet → Type 0
Apart old new = All (λ x. contains x old ≡ false) new

pub ids_of-append : (xs ys : List EventRecord) → ids_of (xs ++ ys) ≡ ids_of xs ++ ids_of ys
ids_of-append [] ys = refl
ids_of-append (x ∷ xs) ys = rw (ids_of-append xs ys)

pub Apart-drop : (x : EventId) (old new : NameSet) → Apart (x ∷ old) new → Apart old new
unfolding contains
Apart-drop x old [] a = tt
Apart-drop x old (y ∷ ys) a = (ground arith, Apart-drop x old ys a.1)

pub Apart-not_in : (x : EventId) (old new : NameSet) → Apart (x ∷ old) new → contains x new ≡ false
unfolding contains
Apart-not_in x old [] a = refl
Apart-not_in x old (y ∷ ys) a = ground (arith, eq_iff x y, eq_iff y x, Apart-not_in x old ys a.1)

-- A batch that passes has new identifiers, each once.
pub check_ids_sound :
    (stored batch : NameSet) (rs : List EventRecord)
    → check_ids stored batch rs ≡ ok tt
    → Apart stored (ids_of rs) × Apart batch (ids_of rs) × Distinct (ids_of rs)
unfolding check_ids
check_ids_sound stored batch [] h = (tt, tt, tt)
check_ids_sound stored batch (r ∷ rs) h =
    let rest = check_ids_sound stored (record_event_id r ∷ batch) rs (ground arith) in
    (
      (ground arith, rest.0),
      (ground arith, Apart-drop (record_event_id r) batch (ids_of rs) rest.1),
      (Apart-not_in (record_event_id r) batch (ids_of rs) rest.1, rest.2),
    )

pub Distinct-append :
    (xs ys : NameSet) → Distinct xs → Distinct ys → Apart xs ys → Distinct (xs ++ ys)
unfolding contains
Distinct-append [] ys a b c = b
Distinct-append (x ∷ xs) ys a b c = (
  ground (arith, contains-append x xs ys, a.0, Apart-not_in x xs ys c),
  Distinct-append xs ys a.1 b (Apart-drop x xs ys c),
)

pub contains-add_ids :
    (k : EventId) (ids : NameSet) (rs : List EventRecord)
    → contains k (add_ids ids rs) ≡ (contains k ids || contains k (ids_of rs))
unfolding add_ids contains
contains-add_ids k ids [] = ground arith
contains-add_ids k ids (r ∷ rs) = ground (arith, contains-add_ids k (record_event_id r ∷ ids) rs)

-- Sets with the same members exclude the same names.
pub Apart-same :
    (xs ys new : NameSet)
    → ((k : EventId) → contains k xs ≡ contains k ys)
    → Apart xs new
    → Apart ys new
Apart-same xs ys [] e a = tt
Apart-same xs ys (x ∷ new) e a = (ground (arith, e x), Apart-same xs ys new e a.1)
