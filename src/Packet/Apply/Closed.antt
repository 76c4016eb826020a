-- ===== src/Packet/Apply/Closed.antt =====
-- A closed packet takes comments and nothing else, and a status only moves forward.
use work_tracker.Prelude.{
  ◌+◌, ◌<◌, ◌≡◌, refl, ◌≢◌, ◌∙◌, ap, subst, some, List, [], ◌∷◌, arith, length,
}
use work_tracker.Prelude.Result.{ok, ok-injective}
use work_tracker.Packet.Types.{Status, Event, Closure, Packet, version_mod, next_version-eq-add}
use work_tracker.Packet.Apply.{replay}
use work_tracker.Packet.Apply.Steps.{Step, Moves}
use work_tracker.Packet.Apply.History.{replay-cons_ok, Step-version}

-- `q` is `p` with other comments and another version.
abbrev pub OnlyComments : Packet → Packet → Type 0
OnlyComments p q = q ≡ record p { comments = q.comments; version = q.version }

Step-OnlyComments :
    (p : Packet) (e : Event) {q : Packet} {c : Closure}
    → p.version ≢ 0
    → p.closure ≡ some c
    → Step p e q
    → OnlyComments p q
Step-OnlyComments p (Event.commented e) v k s = ground arith
Step-OnlyComments p (Event.issued e) v k s = ground arith
Step-OnlyComments p (Event.taken e) v k s = ground arith
Step-OnlyComments p (Event.status_transitioned e) v k s = ground arith
Step-OnlyComments p (Event.superseded e) v k s = ground arith
Step-OnlyComments p (Event.closed e) v k s = ground arith

-- Whatever events an issued packet that is closed accepts, only its comments and its version change,
-- as long as the version does not wrap.
pub replay-OnlyComments :
    (p : Packet) (es : List Event) {q : Packet} {c : Closure}
    → replay p es ≡ ok q
    → p.version ≢ 0
    → p.version + length es < version_mod
    → p.closure ≡ some c
    → OnlyComments p q
unfolding replay
replay-OnlyComments p [] h v b k = ground arith
replay-OnlyComments p (e ∷ es) h v b k =
    let (r, s, rest) = replay-cons_ok p e es h in
    let counted : r.version ≡ p.version + 1 =
      Step-version s ∙ next_version-eq-add p.version (omega arith) in
    let now = Step-OnlyComments p e v k s in
    let still = ap (λ (t : Packet). t.closure) now ∙ k in
    cc (now, replay-OnlyComments r es rest (omega arith) (omega arith) still)

-- Some moves of the status machine, one after the other.
pub data Reaches : Status → Status → Type 0 where
  here : {a : Status} → Reaches a a
  then_move : {a b c : Status} → Moves a b → Reaches b c → Reaches a c

Step-Reaches :
    (p : Packet) (e : Event) {q : Packet} {b : Status}
    → p.version ≢ 0
    → Step p e q
    → Reaches q.status b
    → Reaches p.status b
Step-Reaches p (Event.issued e) v s r = absurd (v s.accepted.0)
Step-Reaches p (Event.status_transitioned e) v s r =
    Reaches.then_move s.accepted.3 (rw (ap (λ (t : Packet). t.status) s.result) at r)
Step-Reaches p (Event.taken e) v s r = rw (ap (λ (t : Packet). t.status) s.result) at r
Step-Reaches p (Event.commented e) v s r = rw (ap (λ (t : Packet). t.status) s.result) at r
Step-Reaches p (Event.superseded e) v s r = rw (ap (λ (t : Packet). t.status) s.result) at r
Step-Reaches p (Event.closed e) v s r = rw (ap (λ (t : Packet). t.status) s.result) at r

-- A history of an issued packet moves its status along the status machine, as long as the version
-- does not wrap.
pub replay-Reaches :
    (p : Packet) (es : List Event) {q : Packet}
    → replay p es ≡ ok q
    → p.version ≢ 0
    → p.version + length es < version_mod
    → Reaches p.status q.status
unfolding replay
replay-Reaches p [] h v b =
    subst (λ t. Reaches p.status t) (ap (λ (t : Packet). t.status) (ok-injective h)) Reaches.here
replay-Reaches p (e ∷ es) h v b =
    let (r, s, rest) = replay-cons_ok p e es h in
    let counted : r.version ≡ p.version + 1 =
      Step-version s ∙ next_version-eq-add p.version (omega arith) in
    Step-Reaches p e v s (replay-Reaches r es rest (omega arith) (omega arith))

-- The two last statuses.
pub data IsLast : Status → Type 0 where
  done : IsLast Status.done
  blocked : IsLast Status.blocked

no_move : {a b : Status} → IsLast a → Moves a b → ⊥
no_move IsLast.done m = elim m [ ]
no_move IsLast.blocked m = elim m [ ]

last_stays : {a b : Status} → IsLast a → Reaches a b → b ≡ a
last_stays l Reaches.here = refl
last_stays l (Reaches.then_move m r) = absurd (no_move l m)

-- An issued packet that is done or blocked keeps its status through any history, as long as the
-- version does not wrap.
pub status-replay_last :
    (p : Packet) (es : List Event) {q : Packet}
    → replay p es ≡ ok q
    → p.version ≢ 0
    → p.version + length es < version_mod
    → IsLast p.status
    → q.status ≡ p.status
status-replay_last p es h v b l = last_stays l (replay-Reaches p es h v b)
