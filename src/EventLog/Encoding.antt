-- ===== src/EventLog/Encoding.antt =====
-- What `encodeAppend` has checked of a batch, and what it gives.
use work_tracker.Prelude.{
  ℕ, ◌+◌, ◌<◌, ◌≡◌, refl, ◌∙◌, ap, sym, subst, some, List, [], ◌∷◌, ◌==◌, length, eq_iff, arith,
  Bool-cases, Option-cases, inl, inr,
}
use work_tracker.Prelude.Dict.{Dict, get, put, get-put}
use work_tracker.Prelude.NameSet.{NameSet}
use work_tracker.Prelude.Result.{ok, Result-cases}
use work_tracker.Packet.Types.{PacketId, Version, next_version, next_version-eq-add, version_mod}
use work_tracker.Packet.Store.{EventRecord, record_event_id, validate_records}
use work_tracker.Packet.Store.Streams.{stream}
use work_tracker.Packet.Store.Identifiers.{ids_of, Distinct, Apart, Apart-drop, Apart-not_in}
use work_tracker.EventLog.Records.{EventDocument, Json, encode_record, encode_records}
use work_tracker.EventLog.Coding.{Encoded, encode_record-Encoded}

module _ {P : Type 0} (json : Json P) where
  -- The first round of the loop.
  record Round (seen : NameSet) (next : Dict Version) (r : EventRecord) (rs : List EventRecord)
      (ds : List (EventDocument P)) (end : Dict Version) : Type 0 where
    want : Version
    first : EventDocument P
    others : List (EventDocument P)
    touched : get r.packet_id next ≡ some want
    encoded : Encoded json seen want r first
    rest :
        encode_records json (record_event_id r ∷ seen) (put r.packet_id (next_version want) next) rs
        ≡ ok (others, end)
    all : ds ≡ first ∷ others

  round :
      (seen : NameSet) (next : Dict Version) (r : EventRecord) (rs : List EventRecord)
      {ds : List (EventDocument P)} {end : Dict Version}
      → encode_records json seen next (r ∷ rs) ≡ ok (ds, end)
      → Round seen next r rs ds end
  unfolding encode_records
  round seen next r rs h = elim (Option-cases (get r.packet_id next)) [
    | inl absent ↦ absurd (ground arith)
    | inr (want, found) ↦ elim (Result-cases (encode_record json seen want r)) [
      | inr (e, bad) ↦ absurd (ground arith)
      | inl (d, good) ↦
          elim (Result-cases (
            encode_records json (record_event_id r ∷ seen)
              (put r.packet_id (next_version want) next) rs)) [
                | inr (e, bad) ↦ absurd (ground arith)
                | inl ((others, end'), more) ↦ record {
                  want = want;
                  first = d;
                  others = others;
                  touched = found;
                  encoded = encode_record-Encoded json seen want r good;
                  rest = ground arith;
                  all = ground arith;
                }
              ]
    ]
  ]

  -- The documents of a batch, one for each record.
  pub data Coded : List EventRecord → List (EventDocument P) → Type 0 where
    nil : Coded [] []
    cons :
        {r : EventRecord} {d : EventDocument P} {rs : List EventRecord}
        {ds : List (EventDocument P)} (seen : NameSet) (want : Version)
        → Encoded json seen want r d
        → Coded rs ds
        → Coded (r ∷ rs) (d ∷ ds)

  pub encode_records-Coded :
      (seen : NameSet) (next : Dict Version) (rs : List EventRecord) {ds : List (EventDocument P)}
      {end : Dict Version}
      → encode_records json seen next rs ≡ ok (ds, end)
      → Coded rs ds
  unfolding encode_records
  encode_records-Coded seen next [] h = subst (Coded []) (ground arith) Coded.nil
  encode_records-Coded seen next (r ∷ rs) h =
      let k = round seen next r rs h in
      subst (Coded (r ∷ rs)) (sym k.all) (
        Coded.cons seen k.want k.encoded (
          encode_records-Coded (record_event_id r ∷ seen)
            (put r.packet_id (next_version k.want) next) rs k.rest))

  -- The checks of `validateAppend` are among those of the loop.
  pub validate-encode_records :
      (seen : NameSet) (next : Dict Version) (rs : List EventRecord) {ds : List (EventDocument P)}
      {end : Dict Version}
      → encode_records json seen next rs ≡ ok (ds, end)
      → validate_records next rs ≡ ok tt
  unfolding validate_records
  validate-encode_records seen next [] h = refl
  validate-encode_records seen next (r ∷ rs) h =
      let k = round seen next r rs h in
      ground (
        arith,
        k.touched,
        k.encoded.own,
        k.encoded.position,
        validate-encode_records (record_event_id r ∷ seen)
            (put r.packet_id (next_version k.want) next) rs k.rest,
      )

  -- New identifiers, each once.
  pub Distinct-encode_records :
      (seen : NameSet) (next : Dict Version) (rs : List EventRecord) {ds : List (EventDocument P)}
      {end : Dict Version}
      → encode_records json seen next rs ≡ ok (ds, end)
      → Apart seen (ids_of rs) × Distinct (ids_of rs)
  Distinct-encode_records seen next [] h = (tt, tt)
  Distinct-encode_records seen next (r ∷ rs) h =
      let k = round seen next r rs h in
      let rest =
        Distinct-encode_records (record_event_id r ∷ seen)
          (put r.packet_id (next_version k.want) next) rs k.rest in
      (
        (
          ground (arith, k.encoded.has_event, k.encoded.new_id),
          Apart-drop (record_event_id r) seen (ids_of rs) rest.0,
        ),
        (Apart-not_in (record_event_id r) seen (ids_of rs) rest.0, rest.1),
      )

  -- The map `next` at the end of the loop has counted the records of each packet.
  pub next-encode_records :
      (seen : NameSet) (next : Dict Version) (rs : List EventRecord) {ds : List (EventDocument P)}
      {end : Dict Version} (p : PacketId) {n : ℕ}
      → encode_records json seen next rs ≡ ok (ds, end)
      → get p next ≡ some n
      → n + length rs < version_mod
      → get p end ≡ some (n + length (stream p rs))
  unfolding encode_records
  next-encode_records seen next [] p {n} h g b = ground arith
  next-encode_records seen next (r ∷ rs) p {n} h g b =
      let k = round seen next r rs h in
      let put_lem = get-put r.packet_id p (next_version k.want) next in
      elim (Bool-cases (r.packet_id == p)) [
        | inl same ↦
            let at_p : r.packet_id ≡ p = (eq_iff r.packet_id p).0 same in
            let here : k.want ≡ n = ground (arith, k.touched) in
            let step : next_version k.want ≡ n + 1 =
              ap next_version here ∙ next_version-eq-add n (omega arith) in
            rw same (
              next-encode_records (record_event_id r ∷ seen)
                (put r.packet_id (next_version k.want) next) rs p {n = n + 1} k.rest
                (ground (arith, put_lem)) (omega arith)
              ∙ ap some (omega arith))
        | inr other ↦ rw other (
            next-encode_records (record_event_id r ∷ seen)
              (put r.packet_id (next_version k.want) next) rs p k.rest (ground (arith, put_lem))
              (omega arith))
      ]
