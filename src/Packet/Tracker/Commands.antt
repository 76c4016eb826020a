-- ===== src/Packet/Tracker/Commands.antt =====
-- The exported methods of `Tracker` as data, and the store after each.
use work_tracker.Prelude.{◌≡◌, refl, List, [], ◌∷◌}
use work_tracker.Prelude.Result.{ok, err}
use work_tracker.Prelude.Exec.{continue}
use work_tracker.Packet.Types.{
  PacketId, Event, Fallible, IssueCommand, TakeCommand, CommentCommand, TransitionCommand,
  SupersedeCommand,
}
use work_tracker.Packet.Store.{MemoryEventStore, memory}
use work_tracker.Packet.World.{World, Method, Environment}
use work_tracker.Packet.Tracker
use work_tracker.Packet.Tracker.{
  run_plan, plan_issue, plan_take, plan_comment, plan_transition, plan_supersede,
}
use work_tracker.Packet.Tracker.Plans.{
  IsPlan, plan_issue-IsPlan, plan_take-IsPlan, plan_comment-IsPlan, plan_transition-IsPlan,
  plan_supersede-IsPlan,
}
use work_tracker.Packet.Tracker.Sound.{IsSound, Extends, HasRoom}
use work_tracker.Packet.Tracker.Growth.{run_plan-Extends}

-- The methods that append.
pub data Command : Type 0 where
  issue : IssueCommand → Command
  take : TakeCommand → Command
  comment : CommentCommand → Command
  transition : TransitionCommand → Command
  supersede : SupersedeCommand → Command

-- The packets that a command prepares.
abbrev pub touches : Command → List PacketId
touches (issue c) = c.packet_id ∷ []
touches (take c) = c.packet_id ∷ []
touches (comment c) = c.packet_id ∷ []
touches (transition c) = c.packet_id ∷ []
touches (supersede c) = c.packet_id ∷ c.replacement_id ∷ []

abbrev pub plan : Environment → Command → Method MemoryEventStore (List Event)
plan env (issue c) = plan_issue env c
plan env (take c) = plan_take env c
plan env (comment c) = plan_comment env c
plan env (transition c) = plan_transition env c
plan env (supersede c) = plan_supersede env c

pub plan-IsPlan : (env : Environment) (c : Command) → IsPlan (touches c) (plan env c)
plan-IsPlan env (issue c) = plan_issue-IsPlan env c
plan-IsPlan env (take c) = plan_take-IsPlan env c
plan-IsPlan env (comment c) = plan_comment-IsPlan env c
plan-IsPlan env (transition c) = plan_transition-IsPlan env c
plan-IsPlan env (supersede c) = plan_supersede-IsPlan env c

-- The world after a method that appends, whether or not it succeeds.
pub perform : Environment → Command → World MemoryEventStore → World MemoryEventStore
perform env (issue c) w = (Tracker.issue memory env c w).1
perform env (take c) w = (Tracker.take memory env c w).1
perform env (comment c) w = (Tracker.comment memory env c w).1
perform env (transition c) w = (Tracker.transition memory env c w).1
perform env (supersede c) w = (Tracker.supersede memory env c w).1

store-continue :
    {A B : Type 0} (m : Fallible A × World MemoryEventStore) (f : A → Method MemoryEventStore B)
    → ((a : A) (w : World MemoryEventStore) → (f a w).1.store ≡ w.store)
    → (continue m.0 f m.1).1.store ≡ m.1.store
store-continue (ok a, w) f h = h a w
store-continue (err e, w) f h = refl

-- Reading the result changes no store.
perform-run_plan :
    (env : Environment) (c : Command) (w : World MemoryEventStore)
    → (perform env c w).store ≡ (run_plan memory (touches c) (plan env c) w).1.store
unfolding perform
perform-run_plan env (issue c) w =
    unfold Tracker.issue in
    store-continue (run_plan memory (touches (issue c)) (plan env (issue c)) w) _ (λ _ v. refl)
perform-run_plan env (take c) w =
    unfold Tracker.take in
    store-continue (run_plan memory (touches (take c)) (plan env (take c)) w) _ (λ _ v. refl)
perform-run_plan env (comment c) w =
    unfold Tracker.comment in
    store-continue (run_plan memory (touches (comment c)) (plan env (comment c)) w) _ (λ _ v. refl)
perform-run_plan env (transition c) w =
    unfold Tracker.transition in
    store-continue (run_plan memory (touches (transition c)) (plan env (transition c)) w) _
      (λ _ v. refl)
perform-run_plan env (supersede c) w =
    unfold Tracker.supersede in
    store-continue (run_plan memory (touches (supersede c)) (plan env (supersede c)) w) _
      (λ _ v. refl)

-- On a sound store with room for one more command, a command of any tracker, whatever it has cached,
-- leaves a sound store with the old log and at most three records more, whether or not it succeeds.
pub perform-Extends :
    (env : Environment) (c : Command) (w : World MemoryEventStore)
    → HasRoom w.store
    → IsSound w.store
    → Extends w.store (perform env c w).store
perform-Extends env c w room sound =
    rw (perform-run_plan env c w)
      (run_plan-Extends (touches c) (plan env c) (plan-IsPlan env c) w room sound)
