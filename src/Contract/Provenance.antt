-- ===== src/Contract/Provenance.antt =====
-- contract/provenance.go: the source of a publication.
use Prim.Native.Char.{Char, code}
use Prim.Native.String.{String, [], ◌∷◌, ◌++◌}
use work_tracker.Prelude.{
  ℕ, Bool, true, false, not, ◌&&◌, ◌||◌, Option, none, some, eqb, leb, ◌==◌, replicate,
  if◌then◌else◌,
}
use mathlib.Core.List.{List}
use text.Mathlib.Text.{starts_with}
use work_tracker.Prelude.Text.{trim_space}
use work_tracker.Prelude.Result.{Result, ok, err, ◌>>=◌, ◌>>◌, refuse_if}
use work_tracker.Credential.Texts.{digit, hex_digit, matches, cut}

pub record Source : Type 0 where
  pub repository : String
  pub commit : String

pub data ContractError : Type 0 where
  export_not_found invalid_export stale_export digest_mismatch invalid_provenance : ContractError
  other : String → ContractError

abbrev pub Checked : Type 0 → Type 0
Checked A = Result ContractError A

put_first : Char → List String → List String
put_first c List.[] = List.◌∷◌ (c ∷ []) List.[]
put_first c (List.◌∷◌ s rest) = List.◌∷◌ (c ∷ s) rest

-- `strings.Split(s, "/")`
unfoldable pub split : String → List String
unfolding put_first
split [] = List.◌∷◌ "" List.[]
split (c ∷ s) =
    let rest = split s in if eqb (code c) b'/' then List.◌∷◌ "" rest else put_first c rest

part_char : ℕ → Bool
unfolding digit
part_char c =
    (leb b'A' c && leb c b'Z')
    || (leb b'a' c && leb c b'z')
    || digit c
    || eqb c b'_'
    || eqb c b'.'
    || eqb c b'-'

all_part : String → Bool
unfolding part_char
all_part [] = true
all_part (c ∷ s) = part_char (code c) && all_part s

-- `repositoryPart`: ^[A-Za-z0-9_.-]+$
unfoldable pub is_repository_part : String → Bool
unfolding all_part
is_repository_part s = not (s == "") && all_part s

-- `commitID`: ^(?:[0-9a-f]{40}|[0-9a-f]{64})$
unfoldable pub is_commit_id : String → Bool
unfolding matches hex_digit
is_commit_id s = matches (replicate 40 hex_digit) s || matches (replicate 64 hex_digit) s

is_owner_name : List String → Bool
is_owner_name (List.◌∷◌ owner (List.◌∷◌ name List.[])) =
    is_repository_part owner && is_repository_part name
is_owner_name _ = false

-- `ValidateSource`
unfoldable pub validate_source : Source → Checked Unit
unfolding is_owner_name
validate_source source = do
  refuse_if (not (is_owner_name (split source.repository))) invalid_provenance
  refuse_if (not (is_commit_id source.commit)) invalid_provenance

-- `strings.Contains(s, "://")`
has_scheme : String → Bool
has_scheme [] = false
has_scheme (c ∷ s) = starts_with (c ∷ s) "://" || has_scheme s

-- The text from the first "@" on, if there is one.
from_at : String → Option String
from_at [] = none
from_at (c ∷ s) = let rest = from_at s in if eqb (code c) b'@' then some (c ∷ s) else rest

-- `strings.TrimSuffix(s, ".git")`
trim_git : String → String
trim_git [] = []
trim_git (c ∷ s) = let rest = trim_git s in if c ∷ s == ".git" then "" else c ∷ rest

trim_left : String → String
trim_left [] = []
trim_left (c ∷ s) = let rest = trim_left s in if eqb (code c) b'/' then rest else c ∷ s

trim_right : String → String
trim_right [] = []
trim_right (c ∷ s) =
    let rest = trim_right s in if eqb (code c) b'/' && rest == "" then "" else c ∷ rest

-- `candidate[at+colon+1:]` of an address with an "@" and no scheme
after_colon : String → String → String
unfolding cut
after_colon candidate tail = elim (cut b':' tail) [
  | none ↦ candidate
  | some (before, after) ↦ after
]

-- The path of an address, where `url_path` is `url.Parse` and the path of its result.
address_path : (String → Option String) → String → Checked String
unfolding has_scheme from_at after_colon
address_path url_path candidate =
    if has_scheme candidate
    then elim (url_path candidate) [ none ↦ err invalid_provenance | some path ↦ ok path ]
    else elim (from_at candidate) [
      | none ↦ ok candidate
      | some tail ↦ ok (after_colon candidate tail)
    ]

joined : List String → Checked String
joined (List.◌∷◌ owner (List.◌∷◌ name List.[])) = ok (owner ++ "/" ++ name)
joined _ = err invalid_provenance

-- `normalizeRepository`
unfoldable pub normalize_repository : (String → Option String) → String → Checked String
unfolding address_path trim_git trim_left trim_right joined split
normalize_repository url_path remote = do
  candidate ← address_path url_path (trim_space remote)
  joined (split (trim_right (trim_left (trim_git candidate))))

-- The two commands that `resolveGitSource` runs.
pub data GitCommand : Type 0 where
  remote_get_url rev_parse_head : GitCommand

-- The output of a command, or an error.
run_git : (GitCommand → Option String) → GitCommand → Checked String
run_git run command = elim (run command) [ none ↦ err invalid_provenance | some output ↦ ok output ]

-- `resolveGitSource`
unfoldable pub resolve_git_source :
    (String → Option String) → (GitCommand → Option String) → Checked Source
unfolding run_git normalize_repository
resolve_git_source url_path run = do
  remote ← run_git run remote_get_url
  commit ← run_git run rev_parse_head
  repository ← normalize_repository url_path (trim_space remote)
  let source : Source = record { repository = repository; commit = trim_space commit }
  validate_source source
  ok source
