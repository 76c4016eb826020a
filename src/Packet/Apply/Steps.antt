-- ===== src/Packet/Apply/Steps.antt =====
-- What `applyEvent` promises, as a relation: one constructor for each kind of event, with the
-- conditions under which the event is accepted and the packet that results.
use work_tracker.Prelude.{◌≡◌, refl, ◌≢◌, false, none, some, List, [], ◌∷◌, ◌++◌, true}
use work_tracker.Prelude.Text.{is_blank}
use work_tracker.Packet.Types.{
  PacketId, Evidence, Status, CloseReason, next_version, Metadata, PacketCommented, PacketClosed,
  Event, Comment, Closure, Packet, metadata,
}
use work_tracker.Packet.Apply.{any_blank, legal_transition}

pub record HasMetadata (meta : Metadata) : Type 0 where
  pub id : meta.id ≢ ""
  pub at : meta.at ≢ 0
  pub actor : meta.actor ≢ ""

-- The packet was issued under this identifier.
pub record IsIssuedAs (id : PacketId) (p : Packet) : Type 0 where
  pub version : p.version ≢ 0
  pub same : p.id ≡ id

-- The status machine.
pub data Moves : Status → Status → Type 0 where
  start : Moves Status.not_started Status.in_progress
  block_unstarted : Moves Status.not_started Status.blocked
  finish : Moves Status.in_progress Status.done
  block : Moves Status.in_progress Status.blocked

pub legal_transition-Moves : (a b : Status) → legal_transition a b ≡ true → Moves a b
unfolding legal_transition
legal_transition-Moves Status.not_started Status.not_started h = cc
legal_transition-Moves Status.not_started Status.in_progress h = Moves.start
legal_transition-Moves Status.not_started Status.blocked h = Moves.block_unstarted
legal_transition-Moves Status.not_started Status.done h = cc
legal_transition-Moves Status.not_started (Status.other s) h = cc
legal_transition-Moves Status.in_progress Status.done h = Moves.finish
legal_transition-Moves Status.in_progress Status.blocked h = Moves.block
legal_transition-Moves Status.in_progress Status.not_started h = cc
legal_transition-Moves Status.in_progress Status.in_progress h = cc
legal_transition-Moves Status.in_progress (Status.other s) h = cc
legal_transition-Moves Status.done b h = cc
legal_transition-Moves Status.blocked b h = cc
legal_transition-Moves (Status.other s) b h = cc

pub legal_transition_of_Moves : {a b : Status} → Moves a b → legal_transition a b ≡ true
unfolding legal_transition
legal_transition_of_Moves Moves.start = refl
legal_transition_of_Moves Moves.block_unstarted = refl
legal_transition_of_Moves Moves.finish = refl
legal_transition_of_Moves Moves.block = refl

-- The evidence that a move brings: some references, none blank, if it goes to done, and else none.
abbrev pub EvidenceFor : Status → List Evidence → Type 0
EvidenceFor Status.done es = (es ≢ []) × (any_blank es ≡ false)
EvidenceFor _ es = es ≡ []

-- The packet's evidence after a move.
abbrev pub evidence_after : Status → List Evidence → List Evidence → List Evidence
evidence_after Status.done given old = given
evidence_after _ given old = old

abbrev pub CloseAllowed : CloseReason → Packet → Type 0
CloseAllowed CloseReason.done p = p.status ≡ Status.done
CloseAllowed CloseReason.superseded p = p.superseded_by ≢ ""
CloseAllowed (CloseReason.other _) p = ⊥

abbrev pub comment_of : PacketCommented → Comment
comment_of e = record { event_id = e.meta.id; at = e.meta.at; actor = e.meta.actor; text = e.text }

abbrev pub closure_of : PacketClosed → Closure
closure_of e = record {
  event_id = e.meta.id;
  at = e.meta.at;
  actor = e.meta.actor;
  reason = e.reason;
}

-- When an event of each kind is accepted, given its metadata.
abbrev pub Accepts : Packet → Event → Type 0
Accepts p (Event.issued e) =
    (p.version ≡ 0) × (e.packet_id ≢ "") × (e.tenant_id ≢ "") × (e.parent_id ≢ e.packet_id)
Accepts p (Event.taken e) = IsIssuedAs e.packet_id p × (p.closure ≡ none) × (p.taken_by ≡ "")
Accepts p (Event.commented e) = IsIssuedAs e.packet_id p × (is_blank e.text ≡ false)
Accepts p (Event.status_transitioned e) =
    IsIssuedAs e.packet_id p
    × (p.closure ≡ none)
    × (e.from ≡ p.status)
    × Moves p.status e.to
    × EvidenceFor e.to e.evidence
Accepts p (Event.superseded e) =
    IsIssuedAs e.packet_id p
    × (p.closure ≡ none)
    × (e.replacement_id ≢ "")
    × (e.replacement_id ≢ e.packet_id)
    × (p.superseded_by ≡ "")
Accepts p (Event.closed e) = IsIssuedAs e.packet_id p × (p.closure ≡ none) × CloseAllowed e.reason p

-- What an accepted event changes, besides the version.
abbrev pub effect : Packet → Event → Packet
effect p (Event.issued e) = record p {
  id = e.packet_id;
  tenant_id = e.tenant_id;
  body = e.body;
  status = Status.not_started;
  parent_id = e.parent_id;
}
effect p (Event.taken e) = record p { taken_by = e.meta.actor }
effect p (Event.commented e) = record p { comments = p.comments ++ comment_of e ∷ [] }
effect p (Event.status_transitioned e) = record p {
  evidence = evidence_after e.to e.evidence p.evidence;
  status = e.to;
}
effect p (Event.superseded e) = record p { superseded_by = e.replacement_id }
effect p (Event.closed e) = record p { closure = some (closure_of e) }

pub record Step (p : Packet) (e : Event) (q : Packet) : Type 0 where
  pub attributed : HasMetadata (metadata e)
  pub accepted : Accepts p e
  pub result : q ≡ record (effect p e) { version = next_version p.version }
