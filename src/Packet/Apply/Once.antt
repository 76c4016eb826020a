-- ===== src/Packet/Apply/Once.antt =====
-- What a history adds and never takes back: comments, the actor that took the packet, the link to
-- the replacement, and the moves of the status.
use work_tracker.Prelude.{◌≡◌, refl, ◌≢◌, ◌∙◌, List, [], ◌∷◌, ◌++◌, arith}
use work_tracker.Prelude.Result.{ok}
use work_tracker.Packet.Types.{Event, Comment, Packet}
use work_tracker.Packet.Apply.{replay}
use work_tracker.Packet.Apply.Steps.{Step, comment_of}
use work_tracker.Packet.Apply.History.{replay-cons_ok}
use mathlib.Core.List.{append-nil, append_assoc}

-- The comments that a history adds.
abbrev pub comments_of : List Event → List Comment
comments_of [] = []
comments_of (Event.commented e ∷ es) = comment_of e ∷ comments_of es
comments_of (_ ∷ es) = comments_of es

Step-comments :
    (p : Packet) (e : Event) {q : Packet}
    → Step p e q
    → q.comments ≡ p.comments ++ comments_of (e ∷ [])
Step-comments p (Event.commented e) s = ground arith
Step-comments p (Event.issued e) s = rw append-nil (ground arith)
Step-comments p (Event.taken e) s = rw append-nil (ground arith)
Step-comments p (Event.status_transitioned e) s = rw append-nil (ground arith)
Step-comments p (Event.superseded e) s = rw append-nil (ground arith)
Step-comments p (Event.closed e) s = rw append-nil (ground arith)

comments_of-cons :
    (e : Event) (es : List Event) → comments_of (e ∷ []) ++ comments_of es ≡ comments_of (e ∷ es)
comments_of-cons (Event.commented e) es = refl
comments_of-cons (Event.issued e) es = refl
comments_of-cons _ es = refl

-- A history adds its comments in order, each with its event's attribution, and removes none.
pub comments-replay :
    (p : Packet) (es : List Event) {q : Packet}
    → replay p es ≡ ok q
    → q.comments ≡ p.comments ++ comments_of es
unfolding replay
comments-replay p [] h = rw append-nil (ground arith)
comments-replay p (e ∷ es) h =
    let (r, s, rest) = replay-cons_ok p e es h in
    cc (
      comments-replay r es rest,
      Step-comments p e s,
      append_assoc p.comments (comments_of (e ∷ [])) (comments_of es),
      comments_of-cons e es,
    )

Step-taken_by :
    (p : Packet) (e : Event) {q : Packet} → p.taken_by ≢ "" → Step p e q → q.taken_by ≡ p.taken_by
Step-taken_by p (Event.issued e) t s = ground arith
Step-taken_by p (Event.taken e) t s = absurd (t s.accepted.2)
Step-taken_by p (Event.commented e) t s = ground arith
Step-taken_by p (Event.status_transitioned e) t s = ground arith
Step-taken_by p (Event.superseded e) t s = ground arith
Step-taken_by p (Event.closed e) t s = ground arith

Step-superseded_by :
    (p : Packet) (e : Event) {q : Packet}
    → p.superseded_by ≢ ""
    → Step p e q
    → q.superseded_by ≡ p.superseded_by
Step-superseded_by p (Event.superseded e) t s = absurd (t s.accepted.4)
Step-superseded_by p (Event.issued e) t s = ground arith
Step-superseded_by p (Event.taken e) t s = ground arith
Step-superseded_by p (Event.commented e) t s = ground arith
Step-superseded_by p (Event.status_transitioned e) t s = ground arith
Step-superseded_by p (Event.closed e) t s = ground arith

-- Once a packet is taken, no event changes who took it.
pub taken_by-replay :
    (p : Packet) (es : List Event) {q : Packet}
    → replay p es ≡ ok q
    → p.taken_by ≢ ""
    → q.taken_by ≡ p.taken_by
unfolding replay
taken_by-replay p [] h t = ground arith
taken_by-replay p (e ∷ es) h t =
    let (r, s, rest) = replay-cons_ok p e es h in
    let same = Step-taken_by p e t s in taken_by-replay r es rest (rw same t) ∙ same

-- Once a packet names its replacement, no event changes the link.
pub superseded_by-replay :
    (p : Packet) (es : List Event) {q : Packet}
    → replay p es ≡ ok q
    → p.superseded_by ≢ ""
    → q.superseded_by ≡ p.superseded_by
unfolding replay
superseded_by-replay p [] h t = ground arith
superseded_by-replay p (e ∷ es) h t =
    let (r, s, rest) = replay-cons_ok p e es h in
    let same = Step-superseded_by p e t s in superseded_by-replay r es rest (rw same t) ∙ same
