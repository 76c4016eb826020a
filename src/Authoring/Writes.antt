-- ===== src/Authoring/Writes.antt =====
-- What each call of a workspace writes to the drafts.
use work_tracker.Prelude.{
  ℕ, ◌+◌, inl, inr, ◌≡◌, refl, sym, ap, ◌∙◌, ◌==◌, some, arith, eq_iff, String, Bool-cases,
}
use work_tracker.Prelude.Dict.{Dict, get, put, get-put}
use work_tracker.Prelude.Result.{ok, Result-cases}
use work_tracker.Prelude.Exec.{◌>>=◌, ◌>>◌, pure}
use work_tracker.Packet.Store.{EventStore}
use work_tracker.Packet.Types.{Packet, zero_packet}
use work_tracker.Packet.Tracker
use work_tracker.Packet.World.{Environment}
use work_tracker.Authoring.{
  State, Draft, Principal, CreateCommand, EditCommand, SupersessionCommand, IssueDraft,
  Surroundings, Workspace, create, create_supersession, edit, issue, hand_over, require_version,
  owned_draft, require_editable, validate_principal, validate_identity, validate_complete, edited,
  packet_in_scope, parent_packet, closed_draft, call, current_version, store_draft, Desk,
}

-- A draft stands under its own identifier.
unfoldable pub IsKeyed : Dict Draft → Type 0
IsKeyed drafts = (k : String) (d : Draft) → get k drafts ≡ some d → d.id ≡ k

pub put-IsKeyed : (d : Draft) (drafts : Dict Draft) → IsKeyed drafts → IsKeyed (put d.id d drafts)
unfolding IsKeyed
put-IsKeyed d drafts keyed k d' found = elim (Bool-cases (d.id == k)) [
  | inl same ↦ ground (arith, eq_iff d.id k, get-put d.id k d drafts)
  | inr other ↦ keyed k d' (sym (get-put d.id k d drafts ∙ rw other refl) ∙ found)
]

-- What a call does to the drafts: nothing, or it writes one that is new or was editable.
pub data Written (fresh : String → Type 0) (drafts drafts' : Dict Draft) : Type 0 where
  untouched : drafts' ≡ drafts → Written fresh drafts drafts'
  added : (d : Draft) → fresh d.id → drafts' ≡ put d.id d drafts → Written fresh drafts drafts'
  changed :
      (k : String) (old d : Draft)
      → get k drafts ≡ some old
      → old.state ≡ State.draft
      → d.id ≡ old.id
      → drafts' ≡ put d.id d drafts
      → Written fresh drafts drafts'

-- An identifier that the source may draw.
unfoldable pub Drawn : Surroundings → String → Type 0
Drawn around id = (n : ℕ) × (around.new_draft_id n ≡ ok id)

editable : (d : Draft) → require_editable d ≡ ok tt → d.state ≡ State.draft
unfolding require_editable
editable d h = ground arith

owned :
    (p : Principal) (k : String) (drafts : Dict Draft) (d : Draft)
    → owned_draft p k drafts ≡ ok d
    → get k drafts ≡ some d
unfolding owned_draft
owned p k drafts d h = ground arith

module _ {S : Type 0} (around : Surroundings) where
  pub create-Written :
      (p : Principal) (c : CreateCommand) (w : Workspace S)
      → Written (Drawn around) w.drafts (create around p c w).1.drafts
  unfolding create Drawn
  create-Written p c w = elim (Result-cases (validate_principal p)) [
    | inr (e, bad) ↦ rw bad (Written.untouched refl)
    | inl (_, good) ↦
        elim (Result-cases (validate_identity c.packet_id c.initiative_id c.epic_id c.target)) [
          | inr (e, bad) ↦ rw (good, bad) (Written.untouched refl)
          | inl (_, fine) ↦ elim (Result-cases (around.new_draft_id w.id_calls)) [
            | inr (e, bad) ↦ rw (good, fine, bad) (Written.untouched refl)
            | inl (id, drawn) ↦ rw (good, fine, drawn) (Written.added _ (w.id_calls, drawn) refl)
          ]
        ]
  ]

  -- The call of the tracker leaves the drafts alone.
  drafts-bind :
      {A B : Type 0} (m : Desk S A) (f : A → B) (w : Workspace S)
      → (m w).1.drafts ≡ w.drafts
      → ((m >>= λ a. pure (f a)) w).1.drafts ≡ w.drafts
  drafts-bind m f w same = elim (Result-cases (m w).0) [
    | inl (a, good) ↦ rw good same
    | inr (e, bad) ↦ rw bad same
  ]

  drafts-hand_over :
      (es : EventStore S) (env : Environment) (p : Principal) (d : Draft) (w : Workspace S)
      → (hand_over es env p d w).1.drafts ≡ w.drafts
  unfolding hand_over call current_version
  drafts-hand_over es env p d w = elim (Bool-cases (d.parent_id == "")) [
    | inl alone ↦ rw alone (
        drafts-bind
          (call (
            Tracker.issue es env (record {
              packet_id = d.packet_id;
              tenant_id = d.tenant_id;
              body = d.body;
              actor = p.subject;
            })))
          (λ packet. (zero_packet, packet)) w refl)
    | inr child ↦ rw child refl
  ]

  pub edit-Written :
      (p : Principal) (c : EditCommand) (w : Workspace S)
      → Written (Drawn around) w.drafts (edit p c w).1.drafts
  unfolding edit
  edit-Written p c w = elim (Result-cases (owned_draft p c.draft_id w.drafts)) [
    | inr (e, bad) ↦ rw bad (Written.untouched refl)
    | inl (d, own) ↦ elim (Result-cases (require_editable d)) [
      | inr (e, bad) ↦ rw (own, bad) (Written.untouched refl)
      | inl (_, can) ↦ elim (Result-cases (require_version c.expected_version d)) [
        | inr (e, stale) ↦ rw (own, can, stale) (Written.untouched refl)
        | inl (_, current) ↦
            elim (Result-cases (validate_identity c.packet_id d.initiative_id d.epic_id c.target)) [
              | inr (e, bad) ↦ rw (own, can, current, bad) (Written.untouched refl)
              | inl (_, fine) ↦ elim (Bool-cases (c.packet_id == d.parent_id)) [
                | inl same ↦ rw (own, can, current, fine, same) (Written.untouched refl)
                | inr new ↦
                    rw (own, can, current, fine, new)
                      (Written.changed c.draft_id d (edited c d) (owned p c.draft_id w.drafts d own)
                        (editable d can) refl refl)
              ]
            ]
      ]
    ]
  ]

  -- The tail of `Issue`, from the call of the tracker on.
  handed-Written :
      (es : EventStore S) (env : Environment) (p : Principal) (k : String) (d : Draft)
      (w v : Workspace S) {B : Type 0} (f : Packet × Packet → B)
      → v.drafts ≡ w.drafts
      → get k w.drafts ≡ some d
      → d.state ≡ State.draft
      → Written
          (Drawn around)
          w.drafts
          ((hand_over es env p d >>= λ both. store_draft (closed_draft d) >> pure (f both))
            v).1.drafts
  handed-Written es env p k d w v f same found fresh =
      let kept = drafts-hand_over es env p d v ∙ same in
      elim (Result-cases (hand_over es env p d v).0) [
        | inr (e, bad) ↦ rw bad (Written.untouched kept)
        | inl (both, done) ↦ rw done (
            Written.changed k d (closed_draft d) found fresh refl
              (ap (put d.id (closed_draft d)) kept))
      ]

  pub issue-Written :
      (es : EventStore S) (env : Environment) (p : Principal) (c : IssueDraft) (w : Workspace S)
      → Written (Drawn around) w.drafts (issue es around env p c w).1.drafts
  unfolding issue
  issue-Written es env p c w = elim (Result-cases (owned_draft p c.draft_id w.drafts)) [
    | inr (e, bad) ↦ rw bad (Written.untouched refl)
    | inl (d, own) ↦ elim (Result-cases (require_editable d)) [
      | inr (e, bad) ↦ rw (own, bad) (Written.untouched refl)
      | inl (_, can) ↦ elim (Result-cases (require_version c.expected_version d)) [
        | inr (e, stale) ↦ rw (own, can, stale) (Written.untouched refl)
        | inl (_, current) ↦ elim (Result-cases (validate_complete d)) [
          | inr (e, bad) ↦ rw (own, can, current, bad) (Written.untouched refl)
          | inl (_, full) ↦
              elim (Result-cases (
                around.validate_scope d.tenant_id d.initiative_id d.epic_id d.target
                  (around.now w.now_calls))) [
                    | inr (e, bad) ↦ rw (own, can, current, full, bad) (Written.untouched refl)
                    | inl (_, real) ↦
                        rw (own, can, current, full, real)
                          (handed-Written es env p c.draft_id d w
                            (record w { now_calls = w.now_calls + 1 }) _ refl
                            (owned p c.draft_id w.drafts d own) (editable d can))
                  ]
        ]
      ]
    ]
  ]

  pub create_supersession-Written :
      (es : EventStore S) (p : Principal) (c : SupersessionCommand) (w : Workspace S)
      → Written (Drawn around) w.drafts (create_supersession es around p c w).1.drafts
  unfolding create_supersession parent_packet Drawn
  create_supersession-Written es p c w = elim (Result-cases (validate_principal p)) [
    | inr (e, bad) ↦ rw bad (Written.untouched refl)
    | inl (_, good) ↦ elim (Result-cases (parent_packet es c.parent_id w).0) [
      | inr (e, bad) ↦ rw (good, bad) (Written.untouched refl)
      | inl (parent, read) ↦ elim (Bool-cases (parent.tenant_id == p.tenant_id)) [
        | inr other ↦ rw (good, read, other) (Written.untouched refl)
        | inl own ↦ elim (Bool-cases (packet_in_scope c.parent_id c.initiative_id c.epic_id)) [
          | inr outside ↦ rw (good, read, own, outside) (Written.untouched refl)
          | inl inside ↦
              elim (Result-cases
                (validate_identity c.packet_id c.initiative_id c.epic_id c.target)) [
                  | inr (e, bad) ↦ rw (good, read, own, inside, bad) (Written.untouched refl)
                  | inl (_, fine) ↦ elim (Bool-cases (c.packet_id == c.parent_id)) [
                    | inl same ↦ rw (good, read, own, inside, fine, same) (Written.untouched refl)
                    | inr new ↦ elim (Result-cases (around.new_draft_id w.id_calls)) [
                      | inr (e, bad) ↦
                          rw (good, read, own, inside, fine, new, bad) (Written.untouched refl)
                      | inl (id, drawn) ↦
                          rw (good, read, own, inside, fine, new, drawn)
                            (Written.added _ (w.id_calls, drawn) refl)
                    ]
                  ]
                ]
        ]
      ]
    ]
  ]
