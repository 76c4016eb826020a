-- ===== src/Packet/Loading/Sort.antt =====
-- `sortRecords` keeps the stream of each packet of a log.
use work_tracker.Prelude.{
  ℕ, ◌+◌, ◌≤◌, ◌≡◌, refl, ◌∙◌, sym, ap, subst, true, false, List, [], ◌∷◌, ◌++◌, ◌==◌, String,
  arith, eq_iff, ltb, All, inl, inr, Bool-cases,
}
use work_tracker.Prelude.Order.{compare-asymmetric, compare_trans}
use work_tracker.Packet.Types.{PacketId}
use work_tracker.Packet.Store.{EventRecord}
use work_tracker.Packet.Store.Streams.{stream, Numbered, keep-append}
use work_tracker.Packet.Loading.{before, record_before, sort_records}
use work_tracker.Packet.Loading.Order.{
  Rearranged, nothing, next, Ordered, All-Rearranged, sort_slice-Rearranged, sort_slice-Ordered,
}

before-asymmetric : (a b : String) → before a b ≡ true → before b a ≡ false
before-asymmetric a b = compare-asymmetric a b

before_trans : (a b c : String) → before a b ≡ true → before b c ≡ true → before a c ≡ true
before_trans a b c = compare_trans a b c

record_before-asymmetric :
    (a b : EventRecord) → record_before a b ≡ true → record_before b a ≡ false
unfolding record_before
record_before-asymmetric a b h = ground (
  arith,
  eq_iff a.packet_id b.packet_id,
  eq_iff b.packet_id a.packet_id,
  before-asymmetric a.packet_id b.packet_id,
)

record_before_trans :
    (a b c : EventRecord)
    → record_before a b ≡ true
    → record_before b c ≡ true
    → record_before a c ≡ true
unfolding record_before
record_before_trans a b c h k = ground (
  arith,
  eq_iff a.packet_id b.packet_id,
  eq_iff b.packet_id c.packet_id,
  eq_iff a.packet_id c.packet_id,
  before-asymmetric a.packet_id b.packet_id,
  before_trans a.packet_id b.packet_id c.packet_id,
)

-- No later version is smaller.
abbrev Ascending : List EventRecord → Type 0
Ascending = Ordered (λ a b. ltb a.stream_version b.stream_version)

-- No record is older than version `v`.
abbrev From : ℕ → List EventRecord → Type 0
From v = All (λ r. v ≤ r.stream_version)

Numbered-From : (v w : ℕ) (rs : List EventRecord) → v ≤ w → Numbered w rs → From v rs
Numbered-From v w [] h n = tt
Numbered-From v w (r ∷ rs) h n = (omega arith, Numbered-From v (w + 1) rs (omega arith) n.1)

From-middle :
    (v : ℕ) (x : EventRecord) (us vs : List EventRecord)
    → From v (us ++ x ∷ vs)
    → v ≤ x.stream_version
From-middle v x [] vs a = a.0
From-middle v x (u ∷ us) vs a = From-middle v x us vs a.1

-- A numbered stream is the only ascending arrangement of its records.
Numbered-unique :
    (v : ℕ) {ys xs : List EventRecord} → Rearranged ys xs → Numbered v xs → Ascending ys → ys ≡ xs
Numbered-unique v nothing n a = refl
Numbered-unique v {xs = xs} (next {x = x} {out = out} [] vs e r) n a =
    let n' : Numbered v (x ∷ vs) = subst (Numbered v) e n in
    ap (λ l. x ∷ l) (Numbered-unique (v + 1) r n'.1 a.1) ∙ sym e
Numbered-unique v {xs = xs} (next {x = x} {out = out} (u ∷ us) vs e r) n a =
    let n' : Numbered v (u ∷ us ++ x ∷ vs) = subst (Numbered v) e n in
    let above : v + 1 ≤ x.stream_version =
      From-middle (v + 1) x us vs
        (Numbered-From (v + 1) (v + 1) (us ++ x ∷ vs) (omega arith) n'.1) in
    let below : ltb u.stream_version x.stream_version ≡ false =
      (All-Rearranged (λ y. ltb y.stream_version x.stream_version ≡ false) r a.0).0 in
    absurd (ground (arith, n'.0))

stream-Rearranged :
    (p : PacketId) {out rs : List EventRecord}
    → Rearranged out rs
    → Rearranged (stream p out) (stream p rs)
stream-Rearranged p nothing = nothing
stream-Rearranged p (next {x = x} {out = out} {rs = rs} us vs e r) =
    let rest : Rearranged (stream p out) (stream p us ++ stream p vs) =
      subst (Rearranged (stream p out)) (keep-append (λ r. r.packet_id == p) us vs)
        (stream-Rearranged p r) in
    let split : stream p rs ≡ stream p us ++ stream p (x ∷ vs) =
      ap (stream p) e ∙ keep-append (λ r. r.packet_id == p) us (x ∷ vs) in
    elim (Bool-cases (x.packet_id == p)) [
      | inl own ↦ rw own (next (stream p us) (stream p vs) (split ∙ rw own refl) rest)
      | inr other ↦ rw other (subst (Rearranged (stream p out)) (sym (split ∙ rw other refl)) rest)
    ]

in_packet :
    (p : PacketId) (x y : EventRecord)
    → (x.packet_id == p) ≡ true
    → (y.packet_id == p) ≡ true
    → record_before y x ≡ false
    → ltb y.stream_version x.stream_version ≡ false
unfolding record_before
in_packet p x y own same h =
    ground (arith, eq_iff x.packet_id p, eq_iff y.packet_id p, eq_iff y.packet_id x.packet_id)

older :
    (p : PacketId) (x : EventRecord) (out : List EventRecord)
    → (x.packet_id == p) ≡ true
    → All (λ y. record_before y x ≡ false) out
    → All (λ y. ltb y.stream_version x.stream_version ≡ false) (stream p out)
older p x [] own a = tt
older p x (y ∷ out) own a = elim (Bool-cases (y.packet_id == p)) [
  | inl same ↦ rw same (in_packet p x y own same a.0, older p x out own a.1)
  | inr other ↦ rw other (older p x out own a.1)
]

stream-Ascending :
    (p : PacketId) (out : List EventRecord) → Ordered record_before out → Ascending (stream p out)
stream-Ascending p [] o = tt
stream-Ascending p (x ∷ out) o = elim (Bool-cases (x.packet_id == p)) [
  | inl own ↦ rw own (older p x out own o.0, stream-Ascending p out o.1)
  | inr other ↦ rw other (stream-Ascending p out o.1)
]

-- However the records of a log are rearranged so that none is before an earlier one in the order
-- of sortRecords, every stream that is numbered without gaps stays as it is.
pub stream-Ordered :
    (rs out : List EventRecord) (p : PacketId) (v : ℕ)
    → Rearranged out rs
    → Ordered record_before out
    → Numbered v (stream p rs)
    → stream p out ≡ stream p rs
stream-Ordered rs out p v r o n =
    Numbered-unique v (stream-Rearranged p r) n (stream-Ascending p out o)

pub sort_records-Ordered :
    (rs : List EventRecord)
    → Rearranged (sort_records rs) rs × Ordered record_before (sort_records rs)
unfolding sort_records
sort_records-Ordered rs = (
  sort_slice-Rearranged record_before rs,
  sort_slice-Ordered record_before record_before-asymmetric record_before_trans rs,
)

-- The log that is loaded.
pub stream-sort_records :
    (rs : List EventRecord) (p : PacketId) (v : ℕ)
    → Numbered v (stream p rs)
    → stream p (sort_records rs) ≡ stream p rs
stream-sort_records rs p v n =
    let (same, order) = sort_records-Ordered rs in
    stream-Ordered rs (sort_records rs) p v same order n
