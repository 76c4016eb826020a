-- ===== src/Tenant/Loading.antt =====
-- tenant/directory.go: `Load` and `Parse`, over the verification of the envelope.
use work_tracker.Prelude.{ℕ, Bool, List, String}
use work_tracker.Prelude.Dict.{get_or}
use work_tracker.Prelude.Result.{Result, ok, err, ◌>>=◌}
use work_tracker.Contract.Json.{Coded}
use work_tracker.Contract.Provenance.{ContractError}
use work_tracker.Contract.Envelope.{Envelope, Wire, FileRead, verify, verify_file}
use work_tracker.Tenant.{TenantRecord, Directory, DirectoryError, invalid_directory, from_envelope}

pub data LoadError : Type 0 where
  envelope_error : ContractError → LoadError
  directory_error : DirectoryError → LoadError

abbrev pub Loaded : Type 0 → Type 0
Loaded A = Result LoadError A

abbrev from_contract : {A : Type 0} → Result ContractError A → Loaded A
from_contract (ok a) = ok a
from_contract (err e) = err (envelope_error e)

abbrev from_directory : {A : Type 0} → Result DirectoryError A → Loaded A
from_directory (ok a) = ok a
from_directory (err e) = err (directory_error e)

-- The decode of a payload and nothing behind it.
abbrev from_payload : {A : Type 0} → Coded A → Loaded A
from_payload (ok a) = ok a
from_payload (err e) = err (directory_error invalid_directory)

abbrev pub schema : String
schema = "martcoca.identity.tenant-directory/1"

module _ (wire : Wire (List TenantRecord)) (decode_records : String → Coded (List TenantRecord))
    (is_time : String → Bool) where
  -- `fromEnvelope`; an expiry that does not parse is the zero time.
  unfoldable pub decode_envelope : Envelope → Loaded Directory
  decode_envelope e = do
    rs ← from_payload (decode_records e.payload)
    from_directory (from_envelope is_time rs (get_or 0 (wire.parse_time e.expires_at)))

  -- `Parse`
  unfoldable pub parse : String → ℕ → Loaded Directory
  unfolding decode_envelope
  parse text now = do e ← from_contract (verify wire text schema now); decode_envelope e

  -- `Load`, of the answer to the read of the file
  unfoldable pub load : FileRead → ℕ → Loaded Directory
  unfolding decode_envelope
  load read now = do e ← from_contract (verify_file wire read schema now); decode_envelope e
