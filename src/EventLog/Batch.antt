-- ===== src/EventLog/Batch.antt =====
-- What `encodeAppend` has established of a whole batch.
use work_tracker.Prelude.{
  ℕ, ◌+◌, ◌<◌, ◌≡◌, ◌∙◌, ap, sym, subst, none, some, List, [], ◌==◌, map, length, arith, inl, inr,
}
use work_tracker.Prelude.Dict.{Dict, get}
use work_tracker.Prelude.Result.{ok, Result-cases}
use work_tracker.Packet.Types.{PacketId, Version, version_mod, next_version-eq-add}
use work_tracker.Packet.Store.{EventRecord, validate_append, expected_next}
use work_tracker.Packet.Store.Streams.{expected_next-named, stream, get-expected_next, next_of}
use work_tracker.Packet.Store.Identifiers.{ids_of, Distinct}
use work_tracker.Packet.Store.Valid.{length-keep-le}
use work_tracker.EventLog.Records.{EventDocument, Json, encode_append, encode_records, previous}
use work_tracker.EventLog.Encoding.{
  Coded, encode_records-Coded, validate-encode_records, Distinct-encode_records,
  next-encode_records,
}
use work_tracker.EventLog.Reads.{get-previous}

-- What `encodeAppend` gives of a batch.
pub record Batch {P : Type 0} (json : Json P) (expected : Dict Version) (rs : List EventRecord)
    (ds : List (EventDocument P)) (final : Dict Version) : Type 0 where
  pub coded : Coded json rs ds
  pub checked : validate_append expected rs ≡ ok tt
  pub distinct : Distinct (ids_of rs)
  pub named : get "" expected ≡ none
  -- the version after the batch of each expected stream
  pub versions :
      (p : PacketId) (v : Version)
      → get p expected ≡ some v
      → v + length rs + 1 < version_mod
      → get p final ≡ some (v + length (stream p rs))

previous-suc : (n : ℕ) → n + 1 < version_mod → previous (n + 1) ≡ n
previous-suc n b = ground arith

pub encode_append-Batch :
    {P : Type 0} (json : Json P) (expected : Dict Version) (rs : List EventRecord)
    {ds : List (EventDocument P)} {final : Dict Version}
    → encode_append json expected rs ≡ ok (ds, final)
    → Batch json expected rs ds final
unfolding encode_append validate_append
encode_append-Batch json expected rs {ds} {final} h = elim (Result-cases (expected_next expected)) [
  | inr (e, bad) ↦ absurd (ground arith)
  | inl (next, built) ↦ elim (Result-cases (encode_records json [] next rs)) [
    | inr (e, bad) ↦ absurd (ground arith)
    | inl ((ds', end), looped) ↦
        let ends : (ds' ≡ ds) × (map (λ entry. (entry.0, previous entry.1)) end ≡ final) =
          ground arith in
        record {
          coded = subst (Coded json rs) ends.0 (encode_records-Coded json [] next rs looped);
          checked = ground (arith, validate-encode_records json [] next rs looped);
          distinct = (Distinct-encode_records json [] next rs looped).1;
          named = expected_next-named expected built;
          versions = λ p v g b.
              let start : get p next ≡ some (v + 1) =
                get-expected_next expected p built
                ∙ ap next_of g
                ∙ ap some (next_version-eq-add v (omega arith)) in
              let short = length-keep-le (λ (r : EventRecord). r.packet_id == p) rs in
              let last = next-encode_records json [] next rs p looped start (omega arith) in
              ap (get p) (sym ends.1)
              ∙ get-previous p end (last ∙ ap some (omega arith))
              ∙ ap some (previous-suc (v + length (stream p rs)) (omega arith));
        }
  ]
]
