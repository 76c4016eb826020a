-- ===== src/Contract/Json.antt =====
-- contract/envelope.go: `Canonicalize` and what it calls. The values are what a decoder with
-- `UseNumber` makes: a number is its text. The entries of an object are in any order, each key once.
pub mod Sorted
pub mod Canonical
use Prim.Native.String.{◌++◌ as glue}
use work_tracker.Prelude.{Bool, true, false, List, [], ◌∷◌, String, if◌then◌else◌}
use work_tracker.Prelude.Result.{Result, ok, err, ◌>>=◌, ◌>>◌}
use work_tracker.Credential.Texts.{contains_any}
use work_tracker.Packet.Loading.{before, sort}

mutual
  pub data Value : Type 0 where
    object : Members → Value
    array : Elements → Value
    text number : String → Value
    bool : Bool → Value
    null : Value

  pub data Elements : Type 0 where
    no_elements : Elements
    element : Value → Elements → Elements

  pub data Members : Type 0 where
    no_members : Members
    member : String → Value → Members → Members

pub data JsonError : Type 0 where
  invalid_json invalid_number trailing_value : JsonError

abbrev pub Coded : Type 0 → Type 0
Coded A = Result JsonError A

-- What stands after a value: the end, or anything else.
pub data Next : Type 0 where
  end_of_input more_input : Next

-- What is called of `encoding/json` and `strconv`: a decode of one value and what stands after it, the
-- text of a string, and of a float that is read from a text and is finite.
pub record Library : Type 0 where
  pub decode : String → Coded (Value × Next)
  pub quote : String → String
  pub float_text : String → Coded String

-- `strings.ContainsAny(text, ".eE")`
abbrev pub is_float_text : String → Bool
is_float_text t = contains_any (b'.' ∷ b'e' ∷ b'E' ∷ []) t

abbrev pub comma : Bool → String
comma true = ","
comma false = ""

abbrev bool_text : Bool → String
bool_text true = "true"
bool_text false = "false"

abbrev pub key_before : String × String → String × String → Bool
key_before a b = before a.0 b.0

module _ (lib : Library) where
  -- `normalizeNumber`
  unfoldable pub normalize_number : String → Coded String
  normalize_number t = if is_float_text t then lib.float_text t else ok t

  -- The entries of an object, after the first with commas between.
  unfoldable pub join_entries : Bool → List (String × String) → String
  join_entries started [] = ""
  join_entries started ((k, t) ∷ es) =
      glue (comma started) (glue (lib.quote k) (glue ":" (glue t (join_entries true es))))

  -- `encodeCanonical`
  unfoldable mutual
    unfolding normalize_number join_entries sort

    pub encode_canonical : Value → Coded String
    encode_canonical null = ok "null"
    encode_canonical (bool b) = ok (bool_text b)
    encode_canonical (text s) = ok (lib.quote s)
    encode_canonical (number t) = normalize_number t
    encode_canonical (array xs) = do t ← encode_elements false xs; ok (glue "[" (glue t "]"))
    encode_canonical (object fs) = do
      es ← encode_members fs
      ok (glue "{" (glue (join_entries false (sort key_before es)) "}"))

    pub encode_elements : Bool → Elements → Coded String
    encode_elements started no_elements = ok ""
    encode_elements started (element v xs) = do
      t ← encode_canonical v
      ts ← encode_elements true xs
      ok (glue (comma started) (glue t ts))

    pub encode_members : Members → Coded (List (String × String))
    encode_members no_members = ok []
    encode_members (member k v fs) = do
      t ← encode_canonical v
      es ← encode_members fs
      ok ((k, t) ∷ es)

  -- `requireEOF`
  abbrev pub require_eof : Next → Coded Unit
  require_eof end_of_input = ok tt
  require_eof more_input = err trailing_value

  -- `Canonicalize`
  unfoldable pub canonicalize : String → Coded String
  canonicalize raw = do (v, next) ← lib.decode raw; require_eof next; encode_canonical v
