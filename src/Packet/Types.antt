-- ===== src/Packet/Types.antt =====
-- packet/types.go and packet/errors.go: identifiers, events, the projected packet, commands.
-- A Go string type is `String`. A type with named string constants is a data type whose last
-- constructor is every other string. Times are in UTC, counted from Go's zero time, which is 0.
-- Values are immutable, so that the defensive copies of the source are the values themselves.
use work_tracker.Prelude.{
  ℕ, ◌+◌, ◌<◌, ◌≡◌, arith, ◌%◌, ◌^◌, String, Bool, true, false, Option, none, List, [], ◌==◌,
}
use work_tracker.Prelude.Result.{Result}

abbrev pub PacketId : Type 0
PacketId = String

abbrev pub TenantId : Type 0
TenantId = String

abbrev pub EventId : Type 0
EventId = String

abbrev pub Actor : Type 0
Actor = String

abbrev pub Evidence : Type 0
Evidence = String

abbrev pub Time : Type 0
Time = ℕ

-- A `uint64`.
abbrev pub Version : Type 0
Version = ℕ

abbrev pub version_mod : ℕ
version_mod = 2 ^ 64

-- `version++`, `version + 1`
unfoldable pub next_version : Version → Version
next_version v = (v + 1) % version_mod

-- Below the last version the counter does not wrap.
pub next_version-eq-add : (v : ℕ) → v + 1 < version_mod → next_version v ≡ v + 1
unfolding next_version
next_version-eq-add v h = omega arith

-- `other` holds the strings that are none of the four constants.
pub data Status : Type 0 where
  not_started in_progress done blocked : Status
  other : String → Status

pub data CloseReason : Type 0 where
  done superseded : CloseReason
  other : String → CloseReason

unfoldable pub status_eq : Status → Status → Bool
status_eq Status.not_started Status.not_started = true
status_eq Status.in_progress Status.in_progress = true
status_eq Status.done Status.done = true
status_eq Status.blocked Status.blocked = true
status_eq (Status.other s) (Status.other t) = s == t
status_eq _ _ = false

pub record Body : Type 0 where
  pub goal : String
  pub boundary : String
  pub done_when : String
  pub check : String
  pub context : String

pub record Metadata : Type 0 where
  pub id : EventId
  pub at : Time
  pub actor : Actor

pub record PacketIssued : Type 0 where
  pub meta : Metadata
  pub packet_id : PacketId
  pub tenant_id : TenantId
  pub body : Body
  pub parent_id : PacketId

pub record PacketTaken : Type 0 where
  pub meta : Metadata
  pub packet_id : PacketId

pub record PacketCommented : Type 0 where
  pub meta : Metadata
  pub packet_id : PacketId
  pub text : String

pub record PacketStatusTransitioned : Type 0 where
  pub meta : Metadata
  pub packet_id : PacketId
  pub from : Status
  pub to : Status
  pub evidence : List Evidence

pub record PacketSuperseded : Type 0 where
  pub meta : Metadata
  pub packet_id : PacketId
  pub replacement_id : PacketId

pub record PacketClosed : Type 0 where
  pub meta : Metadata
  pub packet_id : PacketId
  pub reason : CloseReason

-- The interface `Event` is closed by an unexported method: these are its implementations.
pub data Event : Type 0 where
  issued : PacketIssued → Event
  taken : PacketTaken → Event
  commented : PacketCommented → Event
  status_transitioned : PacketStatusTransitioned → Event
  superseded : PacketSuperseded → Event
  closed : PacketClosed → Event

pub data EventKind : Type 0 where
  packet_issued packet_taken packet_commented packet_status_transition : EventKind
  packet_superseded packet_closed : EventKind

-- `Event.Kind`
unfoldable pub kind : Event → EventKind
kind (Event.issued e) = EventKind.packet_issued
kind (Event.taken e) = EventKind.packet_taken
kind (Event.commented e) = EventKind.packet_commented
kind (Event.status_transitioned e) = EventKind.packet_status_transition
kind (Event.superseded e) = EventKind.packet_superseded
kind (Event.closed e) = EventKind.packet_closed

-- `Event.Metadata`
unfoldable pub metadata : Event → Metadata
metadata (Event.issued e) = e.meta
metadata (Event.taken e) = e.meta
metadata (Event.commented e) = e.meta
metadata (Event.status_transitioned e) = e.meta
metadata (Event.superseded e) = e.meta
metadata (Event.closed e) = e.meta

pub record Comment : Type 0 where
  pub event_id : EventId
  pub at : Time
  pub actor : Actor
  pub text : String

pub record Closure : Type 0 where
  pub event_id : EventId
  pub at : Time
  pub actor : Actor
  pub reason : CloseReason

pub record Packet : Type 0 where
  pub id : PacketId
  pub tenant_id : TenantId
  pub body : Body
  pub status : Status
  pub version : Version
  pub taken_by : Actor
  pub comments : List Comment
  pub evidence : List Evidence
  pub parent_id : PacketId
  pub superseded_by : PacketId
  pub closure : Option Closure

-- `Packet{}`
abbrev pub zero_packet : Packet
zero_packet = record {
  id = "";
  tenant_id = "";
  body = record { goal = ""; boundary = ""; done_when = ""; check = ""; context = "" };
  status = Status.other "";
  version = 0;
  taken_by = "";
  comments = [];
  evidence = [];
  parent_id = "";
  superseded_by = "";
  closure = none;
}

pub record IssueCommand : Type 0 where
  pub packet_id : PacketId
  pub tenant_id : TenantId
  pub body : Body
  pub actor : Actor

pub record TakeCommand : Type 0 where
  pub packet_id : PacketId
  pub expected_version : Version
  pub actor : Actor

pub record CommentCommand : Type 0 where
  pub packet_id : PacketId
  pub expected_version : Version
  pub actor : Actor
  pub text : String

pub record TransitionCommand : Type 0 where
  pub packet_id : PacketId
  pub expected_version : Version
  pub actor : Actor
  pub to : Status
  pub evidence : List Evidence

pub record SupersedeCommand : Type 0 where
  pub packet_id : PacketId
  pub expected_version : Version
  pub replacement_id : PacketId
  pub replacement_tenant : TenantId
  pub replacement_body : Body
  pub actor : Actor

-- The sentinel errors and `ConflictError`. Of a wrapped error the model keeps the sentinel, not the
-- message. `external` is an error made outside the package, by its text: the tenant validator's,
-- the identifier source's, a store's.
pub data Error : Type 0 where
  already_exists not_found projection_unavailable invalid_event : Error
  illegal_transition evidence_required unexpected_evidence packet_is_closed : Error
  tenant_validator_required : Error
  conflict : PacketId → Version → Version → Error
  external : String → Error

abbrev pub Fallible : Type 0 → Type 0
Fallible A = Result Error A
