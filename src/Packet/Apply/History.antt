-- ===== src/Packet/Apply/History.antt =====
-- What a whole history does to a packet: the rebuild of `refreshLocked` applies the events of a
-- stream one after the other.
use work_tracker.Prelude.{
  ◌+◌, ◌<◌, ◌≡◌, refl, ◌≢◌, ◌∙◌, inl, inr, List, [], ◌∷◌, ◌++◌, arith, length,
}
use work_tracker.Prelude.Result.{ok, ◌>>=◌, Result-cases}
use work_tracker.Packet.Types.{Event, Packet, next_version, next_version-eq-add, version_mod}
use work_tracker.Packet.Apply.{apply_event, replay}
use work_tracker.Packet.Apply.Exact.{Step-of_ok}
use work_tracker.Packet.Apply.Steps.{Step}

-- A history is applied one event at a time, and stops at the first that is refused.
pub replay-cons_ok :
    (p : Packet) (e : Event) (es : List Event) {q : Packet}
    → replay p (e ∷ es) ≡ ok q
    → (r : Packet) × Step p e r × (replay r es ≡ ok q)
unfolding replay
replay-cons_ok p e es h = elim (Result-cases (apply_event p e)) [
  | inl (r, applied) ↦ (r, Step-of_ok p e applied, ground arith)
  | inr (x, refused) ↦ absurd (ground arith)
]

pub replay-append :
    (p : Packet) (xs ys : List Event) → replay p (xs ++ ys) ≡ (replay p xs >>= λ q. replay q ys)
unfolding replay
replay-append p [] ys = refl
replay-append p (e ∷ xs) ys = elim (Result-cases (apply_event p e)) [
  | inl (r, applied) ↦ rw applied (replay-append r xs ys)
  | inr (x, refused) ↦ rw refused
]

-- The frozen part of a packet.
pub record SameScope (p q : Packet) : Type 0 where
  pub id : q.id ≡ p.id
  pub tenant_id : q.tenant_id ≡ p.tenant_id
  pub body : q.body ≡ p.body
  pub parent_id : q.parent_id ≡ p.parent_id

Step-SameScope : (p : Packet) (e : Event) {q : Packet} → p.version ≢ 0 → Step p e q → SameScope p q
Step-SameScope p (Event.issued e) v s = absurd (v s.accepted.0)
Step-SameScope p (Event.taken e) v s = ground arith
Step-SameScope p (Event.commented e) v s = ground arith
Step-SameScope p (Event.status_transitioned e) v s = ground arith
Step-SameScope p (Event.superseded e) v s = ground arith
Step-SameScope p (Event.closed e) v s = ground arith

pub Step-version : {p q : Packet} {e : Event} → Step p e q → q.version ≡ next_version p.version
Step-version s = ground arith

-- The version counts the events, as long as the counter does not wrap.
pub version-replay :
    (p : Packet) (es : List Event) {q : Packet}
    → replay p es ≡ ok q
    → p.version + length es < version_mod
    → q.version ≡ p.version + length es
unfolding replay
version-replay p [] h b = ground arith
version-replay p (e ∷ es) h b =
    let (r, s, rest) = replay-cons_ok p e es h in
    let v : r.version ≡ p.version + 1 =
      Step-version s ∙ next_version-eq-add p.version (omega arith) in
    omega (arith, version-replay r es rest (omega arith))

-- The scope of an issued packet never changes, as long as the version does not wrap.
pub replay-SameScope :
    (p : Packet) (es : List Event) {q : Packet}
    → replay p es ≡ ok q
    → p.version ≢ 0
    → p.version + length es < version_mod
    → SameScope p q
unfolding replay
replay-SameScope p [] h i b = ground arith
replay-SameScope p (e ∷ es) h i b =
    let (r, s, rest) = replay-cons_ok p e es h in
    let v : r.version ≡ p.version + 1 =
      Step-version s ∙ next_version-eq-add p.version (omega arith) in
    let now : SameScope p r = Step-SameScope p e i s in
    let later = replay-SameScope r es rest (omega arith) (omega arith) in
    record {
      id = later.id ∙ now.id;
      tenant_id = later.tenant_id ∙ now.tenant_id;
      body = later.body ∙ now.body;
      parent_id = later.parent_id ∙ now.parent_id;
    }
