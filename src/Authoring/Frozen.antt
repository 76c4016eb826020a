-- ===== src/Authoring/Frozen.antt =====
-- What becomes of an issued draft under the calls of a workspace.
use work_tracker.Prelude.{List, [], ◌∷◌}
use work_tracker.Prelude.Dict.{Dict}
use work_tracker.Packet.Store.{EventStore}
use work_tracker.Packet.World.{Environment}
use work_tracker.Authoring.{
  Principal, CreateCommand, EditCommand, SupersessionCommand, IssueDraft, Surroundings, Workspace,
  create, create_supersession, edit, issue,
}

-- The calls of a workspace.
pub data Request : Type 0 where
  creation : CreateCommand → Request
  supersession : SupersessionCommand → Request
  editing : EditCommand → Request
  issuing : IssueDraft → Request

module _ {S : Type 0} (es : EventStore S) (around : Surroundings) (env : Environment) where
  pub answer : Principal → Request → Workspace S → Workspace S
  answer p (Request.creation c) w = (create around p c w).1
  answer p (Request.supersession c) w = (create_supersession es around p c w).1
  answer p (Request.editing c) w = (edit p c w).1
  answer p (Request.issuing c) w = (issue es around env p c w).1

  pub answer_all : List (Principal × Request) → Workspace S → Workspace S
  answer_all [] w = w
  answer_all ((p, r) ∷ rs) w = answer_all rs (answer p r w)
