-- ===== src/Authoring/Examples.antt =====
-- An issued draft, and what is asked of the workspace after it.
use work_tracker.Prelude.{List, [], ◌∷◌}
use work_tracker.Prelude.Result.{ok}
use work_tracker.Packet.Store.{MemoryEventStore}
use work_tracker.Packet.Samples.{start, scope}
use work_tracker.Authoring.{State, Draft, Principal, Surroundings, Workspace}
use work_tracker.Authoring.Frozen.{Request}

abbrev ann : Principal
ann = record { subject = "ann"; tenant_id = "t" }

abbrev issued_draft : Draft
issued_draft = record {
  id = "d";
  packet_id = "0001-E01-T01";
  initiative_id = "0001";
  epic_id = "E01";
  target = "main";
  tenant_id = "t";
  author_subject = "ann";
  body = scope;
  parent_id = "";
  state = State.issued;
  version = 2;
}

abbrev desk : Workspace MemoryEventStore
desk = record { drafts = ("d", issued_draft) ∷ []; packets = start; now_calls = 0; id_calls = 0 }

abbrev around : Surroundings
around = record {
  validate_scope = λ tenant initiative epic target at. ok tt;
  now = λ n. n;
  new_draft_id = λ n. ok "e";
}

abbrev requests : List (Principal × Request)
requests =
    (
      ann,
      Request.editing (record {
        draft_id = "d";
        expected_version = 2;
        packet_id = "0001-E01-T02";
        target = "main";
        body = scope;
      }),
    )
    ∷ (
      ann,
      Request.creation (record {
        packet_id = "0001-E01-T03";
        initiative_id = "0001";
        epic_id = "E01";
        target = "main";
        body = scope;
      }),
    )
    ∷ (ann, Request.issuing (record { draft_id = "d"; expected_version = 2 }))
    ∷ []
