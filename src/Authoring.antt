-- ===== src/Authoring.antt =====
-- authoring/workspace.go: the editable drafts, and the handing of a complete one to the tracker.
-- A method holds the workspace's lock from its first line to its return: one step.
pub mod Writes
pub mod Frozen
mod Examples
use Prim.Native.String.{◌++◌, String, ◌∷◌ as cons}
use Prim.Native.Char.{code}
use work_tracker.Prelude.{
  ℕ, ◌+◌, Bool, true, false, not, ◌||◌, ◌&&◌, Option, none, some, List, [], ◌∷◌, ◌==◌, eqb,
  if◌then◌else◌,
}
use work_tracker.Prelude.Text.{is_blank}
use work_tracker.Prelude.Dict.{Dict, get, put}
use work_tracker.Prelude.Result.{Result, ok, err, refuse_if}
use work_tracker.Prelude.Exec.{Exec, ◌>>=◌, ◌>>◌, pure, lift, gets, modify}
use work_tracker.Packet.Types.{Body, Packet, Version, next_version, Time, zero_packet}
use work_tracker.Packet.Types
use work_tracker.Packet.Store.{EventStore}
use work_tracker.Packet.World.{World, Method, Environment}
use work_tracker.Packet.Tracker
use work_tracker.Credential.Texts.{is_packet_id}

pub data State : Type 0 where
  draft issued : State

pub record Draft : Type 0 where
  pub id : String
  pub packet_id : String
  pub initiative_id : String
  pub epic_id : String
  pub target : String
  pub tenant_id : String
  pub author_subject : String
  pub body : Body
  pub parent_id : String
  pub state : State
  pub version : Version

-- What the workspace reads of `identity.Principal`.
pub record Principal : Type 0 where
  pub subject : String
  pub tenant_id : String

pub record CreateCommand : Type 0 where
  pub packet_id : String
  pub initiative_id : String
  pub epic_id : String
  pub target : String
  pub body : Body

pub record EditCommand : Type 0 where
  pub draft_id : String
  pub expected_version : Version
  pub packet_id : String
  pub target : String
  pub body : Body

pub record SupersessionCommand : Type 0 where
  pub parent_id : String
  pub packet_id : String
  pub initiative_id : String
  pub epic_id : String
  pub target : String
  pub body : Body

pub record IssueDraft : Type 0 where
  pub draft_id : String
  pub expected_version : Version

pub record IssueResult : Type 0 where
  pub draft : Draft
  pub packet : Packet
  pub parent : Packet
  pub has_parent : Bool

-- `packet_error` is an error that the tracker returned, `external` one of the scope validator or of
-- the identifier source.
pub data WorkspaceError : Type 0 where
  draft_not_found draft_issued incomplete invalid_scope unauthenticated : WorkspaceError
  draft_conflict : Version → Version → WorkspaceError
  packet_error : Types.Error → WorkspaceError
  external : String → WorkspaceError

abbrev pub Answer : Type 0 → Type 0
Answer A = Result WorkspaceError A

-- The fields of `Workspace` that are called: the clock and the identifier source answer their n-th
-- call.
pub record Surroundings : Type 0 where
  pub validate_scope : String → String → String → String → Time → Answer Unit
  pub now : ℕ → Time
  pub new_draft_id : ℕ → Answer String

-- `Workspace`, with the tracker that it delegates to.
pub record Workspace (S : Type 0) : Type 0 where
  pub drafts : Dict Draft
  pub packets : World S
  pub now_calls : ℕ
  pub id_calls : ℕ

abbrev pub Desk : Type 0 → Type 0 → Type 0
Desk S A = Exec (Workspace S) WorkspaceError A

has_prefix : String → String → Bool
has_prefix text String.[] = true
has_prefix String.[] (String.◌∷◌ p prefix) = false
has_prefix (String.◌∷◌ c text) (String.◌∷◌ p prefix) =
    eqb (code c) (code p) && has_prefix text prefix

-- `packetInScope`
unfoldable pub packet_in_scope : String → String → String → Bool
unfolding has_prefix
packet_in_scope packet_id initiative epic =
    has_prefix packet_id (initiative ++ ("-" ++ (epic ++ "-")))

-- `validateIdentity`
unfoldable pub validate_identity : String → String → String → String → Answer Unit
validate_identity packet_id initiative epic target =
    refuse_if
      (is_blank target
        || not (is_packet_id packet_id)
        || not (packet_in_scope packet_id initiative epic))
      invalid_scope

-- `validatePrincipal`
unfoldable pub validate_principal : Principal → Answer Unit
validate_principal p = refuse_if (is_blank p.subject || is_blank p.tenant_id) unauthenticated

pub any_blank : List String → Bool
any_blank [] = false
any_blank (s ∷ ss) = is_blank s || any_blank ss

-- `validateComplete`
unfoldable pub validate_complete : Draft → Answer Unit
unfolding any_blank
validate_complete d =
    refuse_if
      (any_blank (
        d.packet_id ∷ d.initiative_id ∷ d.epic_id ∷ d.target ∷ d.body.goal ∷ d.body.boundary
        ∷ d.body.done_when ∷ d.body.check ∷ d.body.context ∷ []))
      incomplete

-- `requireEditable`
unfoldable pub require_editable : Draft → Answer Unit
require_editable d = elim d.state [ State.draft ↦ ok tt | State.issued ↦ err draft_issued ]

-- `command.ExpectedVersion != draft.Version`
abbrev pub require_version : Version → Draft → Answer Unit
require_version expected d =
    refuse_if (not (eqb expected d.version)) (draft_conflict expected d.version)

-- `ownedDraft`
unfoldable pub owned_draft : Principal → String → Dict Draft → Answer Draft
owned_draft p id drafts = elim (get id drafts) [
  | none ↦ err draft_not_found
  | some d ↦
      if d.author_subject == p.subject && d.tenant_id == p.tenant_id
      then ok d
      else err draft_not_found
]

-- The draft after an edit.
abbrev pub edited : EditCommand → Draft → Draft
edited c d = record d {
  packet_id = c.packet_id;
  target = c.target;
  body = c.body;
  version = next_version d.version;
}

-- The draft after its issue.
abbrev pub closed_draft : Draft → Draft
closed_draft d = record d { state = State.issued; version = next_version d.version }

abbrev from_tracker : {A : Type 0} → Result Types.Error A → Answer A
from_tracker (ok a) = ok a
from_tracker (err e) = err (packet_error e)

module _ {S : Type 0} where
  -- A call of the tracker.
  pub call : {A : Type 0} → Method S A → Desk S A
  call m w = let (r, packets) = m w.packets in (from_tracker r, record w { packets = packets })

  -- `workspace.drafts[id] = draft`
  abbrev pub store_draft : Draft → Desk S Unit
  store_draft d = modify (λ w. record w { drafts = put d.id d w.drafts })

  -- `workspace.now().UTC()`
  abbrev pub read_clock : Surroundings → Desk S Time
  read_clock around w = (ok (around.now w.now_calls), record w { now_calls = w.now_calls + 1 })

  -- `workspace.newDraftID()`
  abbrev pub draw_draft_id : Surroundings → Desk S String
  draw_draft_id around w = (around.new_draft_id w.id_calls, record w { id_calls = w.id_calls + 1 })

  -- `Create`
  unfoldable pub create : Surroundings → Principal → CreateCommand → Desk S Draft
  create around p c = do
    lift (validate_principal p)
    lift (validate_identity c.packet_id c.initiative_id c.epic_id c.target)
    id ← draw_draft_id around
    let d : Draft = record {
      id = id;
      packet_id = c.packet_id;
      initiative_id = c.initiative_id;
      epic_id = c.epic_id;
      target = c.target;
      tenant_id = p.tenant_id;
      author_subject = p.subject;
      body = c.body;
      parent_id = "";
      state = State.draft;
      version = 1;
    }
    store_draft d
    pure d

  -- `Edit`
  unfoldable pub edit : Principal → EditCommand → Desk S Draft
  edit p c = do
    found ← gets (λ w. owned_draft p c.draft_id w.drafts)
    d ← lift found
    lift (require_editable d)
    lift (require_version c.expected_version d)
    lift (validate_identity c.packet_id d.initiative_id d.epic_id c.target)
    lift (refuse_if (c.packet_id == d.parent_id) invalid_scope)
    store_draft (edited c d)
    pure (edited c d)

  -- `Draft`
  unfoldable pub find_draft : Principal → String → Desk S Draft
  find_draft p id = do found ← gets (λ w. owned_draft p id w.drafts); lift found

  module _ (es : EventStore S) where
    -- `workspace.tracker.Packet` in `CreateSupersession`: any error is answered as a missing draft.
    pub parent_packet : String → Desk S Packet
    parent_packet id w =
        let (r, packets) = Tracker.packet es id w.packets in
        (
          elim r [ ok parent ↦ ok parent | err _ ↦ err draft_not_found ],
          record w { packets = packets },
        )

    -- `CreateSupersession`
    unfoldable pub create_supersession :
        Surroundings → Principal → SupersessionCommand → Desk S Draft
    unfolding parent_packet
    create_supersession around p c = do
      lift (validate_principal p)
      parent ← parent_packet c.parent_id
      lift (refuse_if (not (parent.tenant_id == p.tenant_id)) draft_not_found)
      lift (refuse_if (not (packet_in_scope c.parent_id c.initiative_id c.epic_id)) invalid_scope)
      lift (validate_identity c.packet_id c.initiative_id c.epic_id c.target)
      lift (refuse_if (c.packet_id == c.parent_id) invalid_scope)
      id ← draw_draft_id around
      let d : Draft = record {
        id = id;
        packet_id = c.packet_id;
        initiative_id = c.initiative_id;
        epic_id = c.epic_id;
        target = c.target;
        tenant_id = p.tenant_id;
        author_subject = p.subject;
        body = c.body;
        parent_id = c.parent_id;
        state = State.draft;
        version = 1;
      }
      store_draft d
      pure d

    -- `currentVersion`
    pub current_version : String → Desk S Version
    current_version id w =
        let (r, packets) = Tracker.packet es id w.packets in
        (ok (elim r [ ok parent ↦ parent.version | err _ ↦ 0 ]), record w { packets = packets })

    -- The call of the tracker in `Issue`: the parent, where there is one, and the packet.
    pub hand_over : Environment → Principal → Draft → Desk S (Packet × Packet)
    unfolding call current_version
    hand_over env p d =
        if d.parent_id == ""
        then (do
          packet ← call (
              Tracker.issue es env (record {
                packet_id = d.packet_id;
                tenant_id = d.tenant_id;
                body = d.body;
                actor = p.subject;
              }))
          pure (zero_packet, packet))
        else (do
          expected ← current_version d.parent_id
          call (
              Tracker.supersede es env (record {
                packet_id = d.parent_id;
                expected_version = expected;
                replacement_id = d.packet_id;
                replacement_tenant = d.tenant_id;
                replacement_body = d.body;
                actor = p.subject;
              })))

    -- `Issue`
    unfoldable pub issue : Surroundings → Environment → Principal → IssueDraft → Desk S IssueResult
    unfolding hand_over
    issue around env p c = do
      found ← gets (λ w. owned_draft p c.draft_id w.drafts)
      d ← lift found
      lift (require_editable d)
      lift (require_version c.expected_version d)
      lift (validate_complete d)
      at ← read_clock around
      lift (around.validate_scope d.tenant_id d.initiative_id d.epic_id d.target at)
      (parent, packet) ← hand_over env p d
      store_draft (closed_draft d)
      pure (record {
        draft = closed_draft d;
        packet = packet;
        parent = parent;
        has_parent = not (d.parent_id == "");
      })

    -- `Packet`
    unfoldable pub find_packet : Principal → String → Desk S Packet
    find_packet p id w =
        let (r, packets) = Tracker.packet es id w.packets in
        (
          elim r [
            | err _ ↦ err (packet_error Types.not_found)
            | ok found ↦
                if found.tenant_id == p.tenant_id
                then ok found
                else err (packet_error Types.not_found)
          ],
          record w { packets = packets },
        )
