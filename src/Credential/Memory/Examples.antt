-- ===== src/Credential/Memory/Examples.antt =====
-- A stored credential, used and revoked.
use work_tracker.Prelude.{◌≡◌, refl, arith, List, [], ◌∷◌, none, some, String, Bool, true}
use work_tracker.Prelude.Dict.{get}
use work_tracker.Prelude.Result.{ok, err}
use work_tracker.Credential.Types.{StoredRecord, revoked_credential}
use work_tracker.Credential.Memory.{
  Records, authenticate, use_record, revoke, revoke_record, of_tenant,
}
use work_tracker.Credential.Memory.Revoked.{revoke-for_good}
use work_tracker.Credential.Memory.Lifecycle.{Operation, run, Kept, run-Kept, authenticate-ok_iff}

abbrev session : StoredRecord
session = record {
  metadata = record {
    id = "0f";
    tenant_id = "t";
    workload = record { kind = "workload"; issuer = "https://i"; subject = "agent" };
    binding = record {
      packet_id = "0001-E01-T01";
      attempt_id = "1";
      issued_at = 10;
      expires_at = 90;
    };
    created_by = "ann";
    created_at = 10;
    revoked_by = "";
    revoked_at = none;
    last_used_at = none;
  };
  hash = "digest";
}

abbrev revoked_session : StoredRecord
revoked_session = record session {
  metadata = record session.metadata { revoked_by = "ann"; revoked_at = some 30 };
}

abbrev stored : Records
stored = ("0f", session) ∷ []

abbrev revoked_store : Records
revoked_store = ("0f", revoked_session) ∷ []

abbrev https : String → Bool
https _ = true

abbrev calls : List Operation
calls =
    Operation.use_of "0f" "digest" 20
    ∷ Operation.revocation "t" "0f" "ann" 30
    ∷ Operation.revocation "t" "0f" "bob" 40
    ∷ []

run-Kept_example :
    (r : StoredRecord) × (get "0f" (run https calls stored) ≡ some r) × Kept session r
unfolding get
run-Kept_example = run-Kept https calls "0f" stored session refl

authenticate-ok_iff_example : (authenticate "0f" "digest" 20 stored).0 ≡ ok (use_record 20 session)
unfolding get
authenticate-ok_iff_example =
    (authenticate-ok_iff "0f" "digest" 20 stored session refl).1 (refl, refl, omega arith)

revoke-for_good_example :
    authenticate "0f" "digest" 50 (run https calls (revoke "t" "0f" "ann" 30 stored).1)
    ≡ (err revoked_credential, run https calls (revoke "t" "0f" "ann" 30 stored).1)
unfolding get revoke of_tenant revoke_record
revoke-for_good_example =
    revoke-for_good https calls "t" "0f" "ann" 30 stored revoked_session "digest" 50 refl
