-- ===== src/Credential/Texts.antt =====
-- agentcredential/credential.go: the tests on texts, with the two regular expressions as lists of
-- character classes. `len` counts the bytes of a text.
use Prim.Native.Char.{code}
use Prim.Native.String.{String, len, ◌∷◌ as cons}
use work_tracker.Prelude.{
  ℕ, ◌+◌, Bool, true, false, not, ◌&&◌, ◌||◌, Option, none, some, List, [], ◌∷◌, ◌++◌, ◌==◌, eqb,
  leb, replicate, if◌then◌else◌,
}
use mathlib.Core.Option
use work_tracker.Prelude.Text.{trim_space}

-- Whether a code point is in a class of a pattern.
abbrev pub CharClass : Type 0
CharClass = ℕ → Bool

unfoldable pub digit : CharClass
digit c = leb b'0' c && leb c b'9'

unfoldable pub hex_digit : CharClass
unfolding digit
hex_digit c = digit c || (leb b'a' c && leb c b'f')

only : ℕ → CharClass
only k c = eqb c k

-- `^…$` over single characters: one class for each.
unfoldable pub matches : List CharClass → String → Bool
matches [] String.[] = true
matches [] (String.◌∷◌ c s) = false
matches (k ∷ ks) String.[] = false
matches (k ∷ ks) (String.◌∷◌ c s) = k (code c) && matches ks s

-- `packetIDPattern`: ^[0-9]{4}-E[0-9]{2}-T[0-9]{2}$
unfoldable pub is_packet_id : String → Bool
unfolding digit only matches
is_packet_id = matches (
    replicate 4 digit
    ++ (only b'-' ∷ only b'E' ∷ replicate 2 digit)
    ++ (only b'-' ∷ only b'T' ∷ replicate 2 digit))

-- `identifierPattern`: ^[0-9a-f]{32}$
unfoldable pub is_identifier : String → Bool
unfolding hex_digit matches
is_identifier = matches (replicate 32 hex_digit)

unfoldable pub one_of : List ℕ → CharClass
one_of [] c = false
one_of (k ∷ ks) c = eqb c k || one_of ks c

-- `strings.ContainsAny`, by the code points that are looked for
unfoldable pub contains_any : List ℕ → String → Bool
unfolding one_of
contains_any ks String.[] = false
contains_any ks (String.◌∷◌ c s) = one_of ks (code c) || contains_any ks s

-- `validIdentityValue`
unfoldable pub valid_identity_value : String → Bool
unfolding contains_any
valid_identity_value value =
    not (value == "") && (value == trim_space value) && not (contains_any (13 ∷ 10 ∷ 0 ∷ []) value)

abbrev pub maximum_workload_value : ℕ
maximum_workload_value = 512

-- `validWorkloadSubject`
unfoldable pub valid_workload_subject : String → Bool
unfolding valid_identity_value
valid_workload_subject value = valid_identity_value value && leb (len value) maximum_workload_value

-- `strings.Cut(s, sep)` for a separator of one character: the texts before and after it.
unfoldable pub cut : ℕ → String → Option (String × String)
cut sep String.[] = none
cut sep (String.◌∷◌ c s) =
    let rest = Option.map (λ parts. (cons c parts.0, parts.1)) (cut sep s) in
    if eqb (code c) sep then some ("", s) else rest

abbrev lower : ℕ → ℕ
lower c = if leb b'A' c && leb c b'Z' then c + 32 else c

-- `strings.EqualFold(s, "Bearer")`: these letters have no other case than the ASCII one.
is_bearer : String → Bool
unfolding only matches
is_bearer = matches (
    only_fold b'b'
    ∷ only_fold b'e'
    ∷ only_fold b'a'
    ∷ only_fold b'r'
    ∷ only_fold b'e'
    ∷ only_fold b'r'
    ∷ [])
  where
    only_fold : ℕ → CharClass
    only_fold k c = eqb (lower c) k

-- `bearerValue`
unfoldable pub bearer_value : String → Option String
unfolding cut is_bearer contains_any
bearer_value header = elim (cut b' ' header) [
  | none ↦ none
  | some (scheme, value) ↦
      if not (is_bearer scheme) || value == "" || contains_any (32 ∷ 9 ∷ 13 ∷ 10 ∷ []) value
      then none
      else some value
]

-- `strings.CutPrefix(value, "wta_")`
cut_prefix : String → Option String
cut_prefix (String.◌∷◌ w (String.◌∷◌ t (String.◌∷◌ a (String.◌∷◌ u s)))) =
    if eqb (code w) b'w' && eqb (code t) b't' && eqb (code a) b'a' && eqb (code u) b'_'
    then some s
    else none
cut_prefix _ = none

-- `credentialIdentifier`, given the raw URL decoding of base64 as the number of decoded bytes.
unfoldable pub credential_identifier : (String → Option ℕ) → String → Option String
unfolding cut_prefix cut
credential_identifier decoded_length value = elim (cut_prefix value) [
  | none ↦ none
  | some rest ↦ elim (cut b'.' rest) [
    | none ↦ none
    | some (identifier, encoded) ↦
        if not (is_identifier identifier) then none else elim (decoded_length encoded) [
          | none ↦ none
          | some n ↦ if eqb n 32 then some identifier else none
        ]
  ]
]
