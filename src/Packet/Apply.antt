-- ===== src/Packet/Apply.antt =====
-- packet/tracker.go: `applyEvent` and the checks that it makes.
pub mod Steps
pub mod Exact
pub mod History
pub mod Once
pub mod Valid
pub mod Closed
mod Examples
use work_tracker.Prelude.{
  Bool, true, false, Option, none, some, List, [], ◌∷◌, ◌++◌, ◌==◌, ◌&&◌, ◌||◌, not, eqb,
  if◌then◌else◌,
}
use work_tracker.Prelude.Dict.{is_some}
use work_tracker.Prelude.Result.{ok, err, ◌>>=◌, ◌>>◌, refuse_if}
use work_tracker.Prelude.Text.{is_blank}
use work_tracker.Packet.Types.{
  PacketId, Evidence, Status, CloseReason, status_eq, next_version, Metadata, PacketIssued,
  PacketTaken, PacketCommented, PacketStatusTransitioned, PacketSuperseded, PacketClosed, Event,
  metadata, Packet, Error, invalid_event, not_found, packet_is_closed, illegal_transition,
  evidence_required, unexpected_evidence, Fallible,
}

-- `validateMetadata`
pub validate_metadata : Metadata → Fallible Unit
validate_metadata meta = do
  refuse_if (meta.id == "") invalid_event
  refuse_if (eqb meta.at 0) invalid_event
  refuse_if (meta.actor == "") invalid_event

-- `requireIssuedPacket`
pub require_issued_packet : Packet → PacketId → Fallible Unit
require_issued_packet packet event_packet_id = do
  refuse_if (eqb packet.version 0) not_found
  refuse_if (not (packet.id == event_packet_id)) invalid_event

-- `legalTransition`
unfoldable pub legal_transition : Status → Status → Bool
unfolding status_eq
legal_transition Status.not_started to =
    status_eq to Status.in_progress || status_eq to Status.blocked
legal_transition Status.in_progress to = status_eq to Status.done || status_eq to Status.blocked
legal_transition Status.done to = false
legal_transition Status.blocked to = false
legal_transition (Status.other s) to = false

-- `eventPacketID`
unfoldable pub event_packet_id : Event → PacketId
event_packet_id (Event.issued e) = e.packet_id
event_packet_id (Event.taken e) = e.packet_id
event_packet_id (Event.commented e) = e.packet_id
event_packet_id (Event.status_transitioned e) = e.packet_id
event_packet_id (Event.superseded e) = e.packet_id
event_packet_id (Event.closed e) = e.packet_id

apply_issued : Packet → PacketIssued → Fallible Packet
apply_issued packet e = do
  refuse_if (not (eqb packet.version 0)) invalid_event
  refuse_if (e.packet_id == "") invalid_event
  refuse_if (e.tenant_id == "") invalid_event
  refuse_if (e.parent_id == e.packet_id) invalid_event
  ok (record packet {
    id = e.packet_id;
    tenant_id = e.tenant_id;
    body = e.body;
    status = Status.not_started;
    parent_id = e.parent_id;
  })

apply_taken : Packet → PacketTaken → Fallible Packet
unfolding require_issued_packet
apply_taken packet e = do
  require_issued_packet packet e.packet_id
  refuse_if (is_some packet.closure) packet_is_closed
  refuse_if (not (packet.taken_by == "")) invalid_event
  ok (record packet { taken_by = e.meta.actor })

apply_commented : Packet → PacketCommented → Fallible Packet
unfolding require_issued_packet
apply_commented packet e = do
  require_issued_packet packet e.packet_id
  refuse_if (is_blank e.text) invalid_event
  ok (record packet {
    comments =
        packet.comments
        ++ record { event_id = e.meta.id; at = e.meta.at; actor = e.meta.actor; text = e.text }
          ∷ [];
  })

-- The loop over the evidence: whether some reference is blank.
pub any_blank : List Evidence → Bool
any_blank [] = false
any_blank (e ∷ es) = is_blank e || any_blank es

abbrev no_evidence : List Evidence → Bool
no_evidence [] = true
no_evidence (e ∷ es) = false

-- The evidence that the packet has after the transition.
unfoldable pub accept_evidence : Status → List Evidence → List Evidence → Fallible (List Evidence)
unfolding status_eq any_blank
accept_evidence to given old =
    if status_eq to Status.done
    then (do
      refuse_if (no_evidence given) evidence_required
      refuse_if (any_blank given) evidence_required
      ok given)
    else (do refuse_if (not (no_evidence given)) unexpected_evidence; ok old)

apply_status_transitioned : Packet → PacketStatusTransitioned → Fallible Packet
unfolding require_issued_packet
apply_status_transitioned packet e = do
  require_issued_packet packet e.packet_id
  refuse_if (is_some packet.closure) packet_is_closed
  refuse_if (not (status_eq e.from packet.status)) invalid_event
  refuse_if (not (legal_transition packet.status e.to)) illegal_transition
  evidence ← accept_evidence e.to e.evidence packet.evidence
  ok (record packet { evidence = evidence; status = e.to })

apply_superseded : Packet → PacketSuperseded → Fallible Packet
unfolding require_issued_packet
apply_superseded packet e = do
  require_issued_packet packet e.packet_id
  refuse_if (is_some packet.closure) packet_is_closed
  refuse_if (e.replacement_id == "" || e.replacement_id == e.packet_id) invalid_event
  refuse_if (not (packet.superseded_by == "")) invalid_event
  ok (record packet { superseded_by = e.replacement_id })

unfoldable pub close_allowed : Packet → CloseReason → Bool
unfolding status_eq
close_allowed packet CloseReason.done = status_eq packet.status Status.done
close_allowed packet CloseReason.superseded = not (packet.superseded_by == "")
close_allowed packet (CloseReason.other reason) = false

apply_closed : Packet → PacketClosed → Fallible Packet
unfolding require_issued_packet
apply_closed packet e = do
  require_issued_packet packet e.packet_id
  refuse_if (is_some packet.closure) packet_is_closed
  refuse_if (not (close_allowed packet e.reason)) invalid_event
  ok (record packet {
    closure =
        some (record {
          event_id = e.meta.id;
          at = e.meta.at;
          actor = e.meta.actor;
          reason = e.reason;
        });
  })

-- The `switch` on the event's type.
pub apply_kind : Packet → Event → Fallible Packet
unfolding apply_issued apply_taken apply_commented apply_status_transitioned apply_superseded
    apply_closed
apply_kind packet (Event.issued e) = apply_issued packet e
apply_kind packet (Event.taken e) = apply_taken packet e
apply_kind packet (Event.commented e) = apply_commented packet e
apply_kind packet (Event.status_transitioned e) = apply_status_transitioned packet e
apply_kind packet (Event.superseded e) = apply_superseded packet e
apply_kind packet (Event.closed e) = apply_closed packet e

-- `applyEvent`. The source writes to the packet only where the event is accepted, so that the new
-- packet is the result.
unfoldable pub apply_event : Packet → Event → Fallible Packet
unfolding validate_metadata apply_kind
apply_event packet event = do
  validate_metadata (metadata event)
  applied ← apply_kind packet event
  ok (record applied { version = next_version applied.version })

-- The packet after a list of events, as a rebuild computes it.
unfoldable pub replay : Packet → List Event → Fallible Packet
replay packet [] = ok packet
replay packet (e ∷ es) = do next ← apply_event packet e; replay next es
