-- ===== src/Packet/Apply/Exact.antt =====
-- `applyEvent` takes exactly the steps of the relation `Step`.
use work_tracker.Prelude.{◌≡◌, refl, ◌↔◌, inl, inr, List, [], ◌∷◌, arith, eq_iff, true, eq_refl}
use work_tracker.Prelude.Result.{ok, Result-cases}
use work_tracker.Packet.Types.{Evidence, Status, CloseReason, status_eq, Event, Packet, metadata}
use work_tracker.Packet.Apply.{apply_event, accept_evidence, close_allowed}
use work_tracker.Packet.Apply.Steps.{
  legal_transition-Moves, legal_transition_of_Moves, EvidenceFor, evidence_after, CloseAllowed,
  Step,
}

status_eq_sound : (a b : Status) → status_eq a b ≡ true → a ≡ b
unfolding status_eq
status_eq_sound Status.not_started Status.not_started h = refl
status_eq_sound Status.in_progress Status.in_progress h = refl
status_eq_sound Status.done Status.done h = refl
status_eq_sound Status.blocked Status.blocked h = refl
status_eq_sound (Status.other s) (Status.other t) h = ground (arith, eq_iff s t)
status_eq_sound _ _ h = cc

status_eq_self : (a : Status) → status_eq a a ≡ true
unfolding status_eq
status_eq_self (Status.other s) = eq_refl s
status_eq_self _ = refl

pub status_eq_iff : (a b : Status) → (status_eq a b ≡ true) ↔ (a ≡ b)
status_eq_iff a b = (status_eq_sound a b, λ p. rw p (status_eq_self b))

accept_evidence-ok :
    (to : Status) (given old : List Evidence) {new : List Evidence}
    → accept_evidence to given old ≡ ok new
    → EvidenceFor to given × (new ≡ evidence_after to given old)
unfolding accept_evidence
accept_evidence-ok Status.done [] old h = cc
accept_evidence-ok Status.done (e ∷ es) old h = ground arith
accept_evidence-ok Status.not_started [] old h = ground arith
accept_evidence-ok Status.in_progress [] old h = ground arith
accept_evidence-ok Status.blocked [] old h = ground arith
accept_evidence-ok (Status.other s) [] old h = ground arith
accept_evidence-ok _ (e ∷ es) old h = cc

accept_evidence_of_EvidenceFor :
    (to : Status) (given old : List Evidence)
    → EvidenceFor to given
    → accept_evidence to given old ≡ ok (evidence_after to given old)
unfolding accept_evidence
accept_evidence_of_EvidenceFor Status.done [] old h = absurd (h.0 refl)
accept_evidence_of_EvidenceFor Status.done (e ∷ es) old h = ground arith
accept_evidence_of_EvidenceFor Status.not_started _ old h = ground arith
accept_evidence_of_EvidenceFor Status.in_progress _ old h = ground arith
accept_evidence_of_EvidenceFor Status.blocked _ old h = ground arith
accept_evidence_of_EvidenceFor (Status.other s) _ old h = ground arith

close_allowed-CloseAllowed :
    (reason : CloseReason) (p : Packet) → close_allowed p reason ≡ true → CloseAllowed reason p
unfolding close_allowed
close_allowed-CloseAllowed CloseReason.done p h = (status_eq_iff p.status Status.done).0 h
close_allowed-CloseAllowed CloseReason.superseded p h = ground (arith, eq_iff p.superseded_by "")
close_allowed-CloseAllowed (CloseReason.other s) p h = cc

close_allowed_of_CloseAllowed :
    (reason : CloseReason) (p : Packet) → CloseAllowed reason p → close_allowed p reason ≡ true
unfolding close_allowed
close_allowed_of_CloseAllowed CloseReason.done p h = (status_eq_iff p.status Status.done).1 h
close_allowed_of_CloseAllowed CloseReason.superseded p h = ground (arith, eq_iff p.superseded_by "")
close_allowed_of_CloseAllowed (CloseReason.other s) p h = absurd h

pub Step-of_ok : (p : Packet) (e : Event) {q : Packet} → apply_event p e ≡ ok q → Step p e q
unfolding apply_event metadata
Step-of_ok p (Event.issued e) h = grind (
  arith,
  eq_iff e.packet_id "",
  eq_iff e.tenant_id "",
  eq_iff e.parent_id e.packet_id,
  eq_iff e.meta.id "",
  eq_iff e.meta.actor "",
)
Step-of_ok p (Event.taken e) h = ground (
  arith,
  eq_iff p.id e.packet_id,
  eq_iff p.taken_by "",
  eq_iff e.meta.id "",
  eq_iff e.meta.actor "",
)
Step-of_ok p (Event.commented e) h =
    ground (arith, eq_iff p.id e.packet_id, eq_iff e.meta.id "", eq_iff e.meta.actor "")
Step-of_ok p (Event.status_transitioned e) h =
    elim (Result-cases (accept_evidence e.to e.evidence p.evidence)) [
      | inl (new, fits) ↦ ground (
        arith,
        eq_iff p.id e.packet_id,
        eq_iff e.meta.id "",
        eq_iff e.meta.actor "",
        status_eq_iff e.from p.status,
        legal_transition-Moves p.status e.to,
        accept_evidence-ok e.to e.evidence p.evidence fits,
      )
      | inr (_, unfit) ↦ ground arith
    ]
Step-of_ok p (Event.superseded e) h = ground (
  arith,
  eq_iff p.id e.packet_id,
  eq_iff p.superseded_by "",
  eq_iff e.replacement_id "",
  eq_iff e.replacement_id e.packet_id,
  eq_iff e.meta.id "",
  eq_iff e.meta.actor "",
)
Step-of_ok p (Event.closed e) h = ground (
  arith,
  eq_iff p.id e.packet_id,
  eq_iff e.meta.id "",
  eq_iff e.meta.actor "",
  close_allowed-CloseAllowed e.reason p,
)

pub ok_of_Step : (p : Packet) (e : Event) {q : Packet} → Step p e q → apply_event p e ≡ ok q
unfolding apply_event metadata
ok_of_Step p (Event.issued e) s = ground (
  arith,
  eq_iff e.packet_id "",
  eq_iff e.tenant_id "",
  eq_iff e.parent_id e.packet_id,
  eq_iff e.meta.id "",
  eq_iff e.meta.actor "",
)
ok_of_Step p (Event.taken e) s = ground (
  arith,
  eq_iff p.id e.packet_id,
  eq_iff p.taken_by "",
  eq_iff e.meta.id "",
  eq_iff e.meta.actor "",
)
ok_of_Step p (Event.commented e) s =
    ground (arith, eq_iff p.id e.packet_id, eq_iff e.meta.id "", eq_iff e.meta.actor "")
ok_of_Step p (Event.status_transitioned e) s = ground (
  arith,
  eq_iff p.id e.packet_id,
  eq_iff e.meta.id "",
  eq_iff e.meta.actor "",
  status_eq_iff e.from p.status,
  legal_transition_of_Moves {a = p.status} {b = e.to},
  accept_evidence_of_EvidenceFor e.to e.evidence p.evidence,
)
ok_of_Step p (Event.superseded e) s = ground (
  arith,
  eq_iff p.id e.packet_id,
  eq_iff p.superseded_by "",
  eq_iff e.replacement_id "",
  eq_iff e.replacement_id e.packet_id,
  eq_iff e.meta.id "",
  eq_iff e.meta.actor "",
)
ok_of_Step p (Event.closed e) s = ground (
  arith,
  eq_iff p.id e.packet_id,
  eq_iff e.meta.id "",
  eq_iff e.meta.actor "",
  close_allowed_of_CloseAllowed e.reason p,
)

-- `applyEvent` accepts an event exactly when the event has its metadata and the conditions of its
-- kind hold of the packet, and the new packet is then the stated one.
pub apply_event-Step_iff :
    (p : Packet) (e : Event) (q : Packet) → (apply_event p e ≡ ok q) ↔ Step p e q
apply_event-Step_iff p e q = (Step-of_ok p e, ok_of_Step p e)
