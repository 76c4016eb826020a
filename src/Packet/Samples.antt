-- ===== src/Packet/Samples.antt =====
-- Test data: an environment whose clock and identifiers count up, and a packet's life in it.
use Prim.Native.String.{◌∷◌}
use work_tracker.Prelude.{ℕ, zero, suc, ◌+◌, String, []}
use work_tracker.Prelude.Result.{ok}
use work_tracker.Packet.Types.{
  Body, Status, IssueCommand, TakeCommand, CommentCommand, TransitionCommand, SupersedeCommand,
}
use work_tracker.Packet.Store.{MemoryEventStore, empty_store}
use work_tracker.Packet.World.{World, Environment, new_tracker}
use mathlib.Core.List

abbrev pub tag : ℕ → String
tag zero = "e"
tag (suc n) = "x" ∷ tag n

abbrev pub counting : Environment
counting = record {
  now = λ n. n + 1;
  new_event_id = λ n. ok (tag n);
  validate_tenant_id = λ tenant at. ok tt;
}

abbrev pub start : World MemoryEventStore
start = record { tracker = new_tracker; store = empty_store; now_calls = 0; id_calls = 0 }

abbrev pub scope : Body
scope = record {
  goal = "goal";
  boundary = "boundary";
  done_when = "done when";
  check = "check";
  context = "context";
}

abbrev pub issue_a : IssueCommand
issue_a = record { packet_id = "a"; tenant_id = "t"; body = scope; actor = "ann" }

abbrev pub take_a : TakeCommand
take_a = record { packet_id = "a"; expected_version = 1; actor = "bob" }

abbrev pub comment_a : CommentCommand
comment_a = record { packet_id = "a"; expected_version = 3; actor = "bob"; text = "half way" }

abbrev pub finish_a : TransitionCommand
finish_a = record {
  packet_id = "a";
  expected_version = 4;
  actor = "bob";
  to = Status.done;
  evidence = List.◌∷◌ "run 17" List.[];
}

abbrev pub supersede_a : SupersedeCommand
supersede_a = record {
  packet_id = "a";
  expected_version = 3;
  replacement_id = "b";
  replacement_tenant = "t";
  replacement_body = scope;
  actor = "ann";
}
