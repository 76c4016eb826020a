-- ===== src/Packet/Tracker/Plans.antt =====
-- The plans of the commands: they change neither the tracker nor the store, and plan at most three
-- events, all of packets that the command has prepared.
use work_tracker.Prelude.{◌≤◌, ◌≡◌, true, List, [], ◌∷◌, arith, eq_iff, All, length}
use work_tracker.Prelude.NameSet.{contains}
use work_tracker.Prelude.Result.{ok, err}
use work_tracker.Packet.Types.{
  PacketId, Event, IssueCommand, TakeCommand, CommentCommand, TransitionCommand, SupersedeCommand,
  Fallible,
}
use work_tracker.Packet.Apply.{event_packet_id}
use work_tracker.Packet.World.{World, Method, Environment}
use work_tracker.Packet.Loading.Installed.{covers}
use work_tracker.Packet.Tracker.{
  plan_issue, plan_take, plan_comment, plan_transition, plan_supersede,
}

-- A result, if there is one, has a property.
abbrev pub Post : {A : Type 0} → (A → Type 0) → Fallible A → Type 0
Post P (ok a) = P a
Post P (err e) = Unit

abbrev pub IsPlanned : List PacketId → List Event → Type 0
IsPlanned ids es = (length es ≤ 3) × All (λ e. covers ids (event_packet_id e) ≡ true) es

pub record IsPlan {S : Type 0} (ids : List PacketId) (plan : Method S (List Event)) : Type 0 where
  pub quiet : (w : World S) → ((plan w).1.tracker ≡ w.tracker) × ((plan w).1.store ≡ w.store)
  pub planned : (w : World S) → Post (IsPlanned ids) (plan w).0

module _ {S : Type 0} (env : Environment) where
  pub plan_issue-IsPlan : (c : IssueCommand) → IsPlan {S = S} (c.packet_id ∷ []) (plan_issue env c)
  unfolding plan_issue event_packet_id contains
  plan_issue-IsPlan c = record {
    quiet = λ w. ground arith;
    planned = λ w. ground (arith, eq_iff c.packet_id c.packet_id);
  }

  pub plan_take-IsPlan : (c : TakeCommand) → IsPlan {S = S} (c.packet_id ∷ []) (plan_take env c)
  unfolding plan_take event_packet_id contains
  plan_take-IsPlan c = record {
    quiet = λ w. ground arith;
    planned = λ w. ground (arith, eq_iff c.packet_id c.packet_id);
  }

  pub plan_comment-IsPlan :
      (c : CommentCommand) → IsPlan {S = S} (c.packet_id ∷ []) (plan_comment env c)
  unfolding plan_comment event_packet_id contains
  plan_comment-IsPlan c = record {
    quiet = λ w. ground arith;
    planned = λ w. ground (arith, eq_iff c.packet_id c.packet_id);
  }

  pub plan_transition-IsPlan :
      (c : TransitionCommand) → IsPlan {S = S} (c.packet_id ∷ []) (plan_transition env c)
  unfolding plan_transition event_packet_id contains
  plan_transition-IsPlan c = record {
    quiet = λ w. ground arith;
    planned = λ w. ground (arith, eq_iff c.packet_id c.packet_id);
  }

  pub plan_supersede-IsPlan :
      (c : SupersedeCommand)
      → IsPlan {S = S} (c.packet_id ∷ c.replacement_id ∷ []) (plan_supersede env c)
  unfolding plan_supersede event_packet_id contains
  plan_supersede-IsPlan c = record {
    quiet = λ w. ground arith;
    planned = λ w.
        ground (arith, eq_iff c.packet_id c.packet_id, eq_iff c.replacement_id c.replacement_id);
  }
