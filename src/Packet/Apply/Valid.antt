-- ===== src/Packet/Apply/Valid.antt =====
-- The invariant of a projected packet, and the path of its status.
use work_tracker.Prelude.{
  ◌+◌, ◌<◌, ◌≡◌, refl, ◌≢◌, ◌∙◌, ap, subst, Option, none, some, List, [], ◌∷◌, arith, length,
}
use work_tracker.Prelude.Result.{ok, ok-injective}
use work_tracker.Packet.Types.{
  Status, CloseReason, Event, PacketIssued, PacketTaken, PacketCommented, PacketStatusTransitioned,
  PacketSuperseded, PacketClosed, next_version, Closure, Packet, Evidence, zero_packet, version_mod,
  next_version-eq-add,
}
use work_tracker.Packet.Apply.{replay}
use work_tracker.Packet.Apply.Steps.{
  Moves, EvidenceFor, CloseAllowed, evidence_after, closure_of, effect, Accepts,
}
use work_tracker.Packet.Apply.History.{replay-cons_ok, Step-version}

-- A closure gives a reason that the packet bears out.
abbrev pub ClosureFits : Option Closure → Packet → Type 0
ClosureFits none p = Unit
ClosureFits (some c) p = CloseAllowed c.reason p

pub record IsValid (p : Packet) : Type 0 where
  -- before the issue the packet is the zero value
  pub fresh : p.version ≡ 0 → p ≡ zero_packet
  pub named : p.version ≢ 0 → (p.id ≢ "") × (p.tenant_id ≢ "") × (p.parent_id ≢ p.id)
  -- a done packet has evidence, none of it blank; any other has none
  pub proved : EvidenceFor p.status p.evidence
  pub replaced : p.version ≢ 0 → p.superseded_by ≢ p.id
  pub closed : ClosureFits p.closure p

pub zero_packet-IsValid : IsValid zero_packet
zero_packet-IsValid = record {
  fresh = λ v. refl;
  named = λ v. absurd (v refl);
  proved = refl;
  replaced = λ v. absurd (v refl);
  closed = tt;
}

-- What a closure rests on stays: no event changes a status or a link under a closure.
closed_packet_keeps :
    (o : Option Closure) (p q : Packet)
    → q.status ≡ p.status
    → q.superseded_by ≡ p.superseded_by
    → ClosureFits o p
    → ClosureFits o q
closed_packet_keeps none p q s r f = tt
closed_packet_keeps (some c) p q s r f = keeps c.reason f
  where
    keeps : (reason : CloseReason) → CloseAllowed reason p → CloseAllowed reason q
    keeps CloseReason.done f = s ∙ f
    keeps CloseReason.superseded f = rw r f
    keeps (CloseReason.other _) f = absurd f

evidence_moves :
    (a b : Status) (given old : List Evidence)
    → Moves a b
    → EvidenceFor b given
    → EvidenceFor a old
    → EvidenceFor b (evidence_after b given old)
evidence_moves _ _ given old Moves.start e f = f
evidence_moves _ _ given old Moves.block_unstarted e f = f
evidence_moves _ _ given old Moves.finish e f = e
evidence_moves _ _ given old Moves.block e f = f

abbrev after : Packet → Event → Packet
after p e = record (effect p e) { version = next_version p.version }

module _ (p : Packet) (bound : p.version + 1 < version_mod) (v : IsValid p) where
  counted : next_version p.version ≢ 0
  counted z = absurd (omega (arith, next_version-eq-add p.version bound))

  after_issue : (e : PacketIssued) → Accepts p (Event.issued e) → IsValid (after p (Event.issued e))
  after_issue e a =
      let zero = v.fresh a.0 in
      record {
        fresh = λ z. absurd (counted z);
        named = λ z. (a.1, a.2, a.3);
        proved = cc (ap (λ (r : Packet). r.evidence) zero);
        replaced = λ z same. a.1 (cc (ap (λ (r : Packet). r.superseded_by) zero));
        closed = rw (ap (λ (r : Packet). r.closure) zero) tt;
      }

  after_take : (e : PacketTaken) → Accepts p (Event.taken e) → IsValid (after p (Event.taken e))
  after_take e a = record {
    fresh = λ z. absurd (counted z);
    named = λ z. v.named a.0.version;
    proved = v.proved;
    replaced = λ z. v.replaced a.0.version;
    closed = closed_packet_keeps p.closure p _ refl refl v.closed;
  }

  after_comment :
      (e : PacketCommented) → Accepts p (Event.commented e) → IsValid (after p (Event.commented e))
  after_comment e a = record {
    fresh = λ z. absurd (counted z);
    named = λ z. v.named a.0.version;
    proved = v.proved;
    replaced = λ z. v.replaced a.0.version;
    closed = closed_packet_keeps p.closure p _ refl refl v.closed;
  }

  after_transition :
      (e : PacketStatusTransitioned)
      → Accepts p (Event.status_transitioned e)
      → IsValid (after p (Event.status_transitioned e))
  after_transition e a = record {
    fresh = λ z. absurd (counted z);
    named = λ z. v.named a.0.version;
    proved = evidence_moves p.status e.to e.evidence p.evidence a.3 a.4 v.proved;
    replaced = λ z. v.replaced a.0.version;
    closed = rw a.1 tt;
  }

  after_supersession :
      (e : PacketSuperseded)
      → Accepts p (Event.superseded e)
      → IsValid (after p (Event.superseded e))
  after_supersession e a = record {
    fresh = λ z. absurd (counted z);
    named = λ z. v.named a.0.version;
    proved = v.proved;
    replaced = λ z same. a.3 (same ∙ a.0.same);
    closed = rw a.1 tt;
  }

  after_close : (e : PacketClosed) → Accepts p (Event.closed e) → IsValid (after p (Event.closed e))
  after_close e a = record {
    fresh = λ z. absurd (counted z);
    named = λ z. v.named a.0.version;
    proved = v.proved;
    replaced = λ z. v.replaced a.0.version;
    closed = closed_packet_keeps (some (closure_of e)) p _ refl refl a.2;
  }

  after-IsValid : (e : Event) → Accepts p e → IsValid (after p e)
  after-IsValid (Event.issued e) a = after_issue e a
  after-IsValid (Event.taken e) a = after_take e a
  after-IsValid (Event.commented e) a = after_comment e a
  after-IsValid (Event.status_transitioned e) a = after_transition e a
  after-IsValid (Event.superseded e) a = after_supersession e a
  after-IsValid (Event.closed e) a = after_close e a

-- A history keeps the invariant, as long as the version does not wrap.
pub replay-IsValid :
    (p : Packet) (es : List Event) {q : Packet}
    → replay p es ≡ ok q
    → p.version + length es < version_mod
    → IsValid p
    → IsValid q
unfolding replay
replay-IsValid p [] h b v = subst IsValid (ok-injective h) v
replay-IsValid p (e ∷ es) h b v =
    let (r, s, rest) = replay-cons_ok p e es h in
    let counted : r.version ≡ p.version + 1 =
      Step-version s ∙ next_version-eq-add p.version (omega arith) in
    let valid : IsValid r = rw s.result (after-IsValid p (omega arith) v e s.accepted) in
    replay-IsValid r es rest (omega arith) valid
