-- ===== src/Documents.antt =====
-- What the Firestore adapters call of the document database: reads, a create, a query, and
-- transactions. The client is not code of this repository: it is the parameter `Database`, and what
-- the adapters rely on of its documented behaviour is `IsDatabase`.
pub mod Writes
pub mod Table
use work_tracker.Prelude.{
  ◌≡◌, ◌⊎◌, Bool, true, Option, none, some, List, [], ◌∷◌, All, Among, String, if◌then◌else◌,
}
use work_tracker.Prelude.Result.{Result, ok, err}

-- The answer to a read of one document: `failed` is any error but `NotFound`.
pub data Fetch (D : Type 0) : Type 0 where
  found : D → Fetch D
  not_found : Fetch D
  failed : String → Fetch D

abbrev pub fetched : {D : Type 0} → Option D → Fetch D
fetched none = not_found
fetched (some d) = found d

-- The answer to a create outside a transaction.
pub data Created : Type 0 where
  created already_exists : Created
  create_failed : String → Created

-- The writes that a transaction queues. An update changes fields of a document.
pub data Write (K D : Type 0) : Type 0 where
  create : K → D → Write K D
  update : K → (D → D) → Write K D

-- The function that runs in a transaction: from its reads, an error or a result and the writes.
abbrev pub Body : Type 0 → Type 0 → Type 0 → Type 0 → Type 0
Body K D E A = (K → Fetch D) → Result E (A × List (Write K D))

-- How a transaction ends: by the error of its function, committed, or by an error of the database.
pub data Ending (E A : Type 0) : Type 0 where
  refused : E → Ending E A
  committed : A → Ending E A
  aborted : String → Ending E A

pub record Database (K D E S : Type 0) : Type 1 where
  pub get_document : K → S → Fetch D
  pub create_document : K → D → S → Created × S
  pub query : (D → Bool) → S → Result String (List D)
  pub transact : {A : Type 0} → Body K D E A → S → Ending E A × S

-- A database that keeps a document as it is written.
abbrev pub as_written : {D : Type 0} → D → D
as_written d = d

-- The documents with one of them set.
abbrev pub set : {K D : Type 0} → (K → K → Bool) → K → D → (K → Option D) → K → Option D
set same k d view j = if same k j then some d else view j

-- `kept d` is what the database keeps of a document that is written as `d`.
module _ {K D : Type 0} (same : K → K → Bool) (kept : D → D) where
  -- Writes one after the other: a create wants no document there, an update wants one.
  pub data Applies : List (Write K D) → (K → Option D) → (K → Option D) → Type 0 where
    finished : {v : K → Option D} → Applies [] v v
    creates :
        {k : K} {d : D} {ws : List (Write K D)} {v v' : K → Option D}
        → v k ≡ none
        → Applies ws (set same k (kept d) v) v'
        → Applies (Write.create k d ∷ ws) v v'
    updates :
        {k : K} {f : D → D} {ws : List (Write K D)} {v v' : K → Option D} (d : D)
        → v k ≡ some d
        → Applies ws (set same k (kept (f d)) v) v'
        → Applies (Write.update k f ∷ ws) v v'

-- What a transaction reads: the documents, where a read does not fail.
abbrev pub IsRead : {K D : Type 0} → (K → Option D) → (K → Fetch D) → Type 0
IsRead {K} {D} view reads =
    (k : K) → (reads k ≡ fetched (view k)) ⊎ ((e : String) × (reads k ≡ Fetch.failed e))

module _ {K D S : Type 0} (same : K → K → Bool) (kept : D → D) (view : S → K → Option D) where
  pub data CreateEnds (k : K) (d : D) (s : S) : Created × S → Type 0 where
    stored :
        {s' : S}
        → view s k ≡ none
        → view s' ≡ set same k (kept d) (view s)
        → CreateEnds k d s (created, s')
    taken :
        {s' : S} (old : D)
        → view s k ≡ some old
        → view s' ≡ view s
        → CreateEnds k d s (already_exists, s')
    lost : {s' : S} (e : String) → view s' ≡ view s → CreateEnds k d s (create_failed e, s')
    -- a deadline can pass after the write
    stored_late :
        {s' : S} (e : String)
        → view s k ≡ none
        → view s' ≡ set same k (kept d) (view s)
        → CreateEnds k d s (create_failed e, s')

module _ {K D E S : Type 0} (same : K → K → Bool) (kept : D → D) (view : S → K → Option D) where
  pub data TransactEnds {A : Type 0} (body : Body K D E A) (s : S) : Ending E A × S → Type 0 where
    refused :
        {s' : S} (e : E) (reads : K → Fetch D)
        → IsRead (view s) reads
        → body reads ≡ err e
        → view s' ≡ view s
        → TransactEnds body s (Ending.refused e, s')
    committed :
        {s' : S} (a : A) (ws : List (Write K D)) (reads : K → Fetch D)
        → IsRead (view s) reads
        → body reads ≡ ok (a, ws)
        → Applies same kept ws (view s) (view s')
        → TransactEnds body s (Ending.committed a, s')
    aborted : {s' : S} (e : String) → view s' ≡ view s → TransactEnds body s (Ending.aborted e, s')
    -- a deadline can pass after the commit
    committed_late :
        {s' : S} (e : String) (a : A) (ws : List (Write K D)) (reads : K → Fetch D)
        → IsRead (view s) reads
        → body reads ≡ ok (a, ws)
        → Applies same kept ws (view s) (view s')
        → TransactEnds body s (Ending.aborted e, s')

-- The documented behaviour of the database, whose documents are `view s`: of a document that is
-- written it keeps `kept d`, with the timestamps in it rounded down to its precision.
pub record IsDatabase {K D E S : Type 0} (same : K → K → Bool) (kept : D → D)
    (view : S → K → Option D) (db : Database K D E S) : Type 1 where
  pub reads :
      (k : K) (s : S)
      → (db.get_document k s ≡ fetched (view s k))
        ⊎ ((e : String) × (db.get_document k s ≡ Fetch.failed e))
  pub creates : (k : K) (d : D) (s : S) → CreateEnds same kept view k d s (db.create_document k d s)
  pub queries :
      (p : D → Bool) (s : S) (ds : List D)
      → db.query p s ≡ ok ds
      → All (λ d. (p d ≡ true) × ((k : K) × (view s k ≡ some d))) ds
  pub complete :
      (p : D → Bool) (s : S) (ds : List D) (k : K) (d : D)
      → db.query p s ≡ ok ds
      → view s k ≡ some d
      → p d ≡ true
      → Among d ds
  pub transacts :
      (A : Type 0) (body : Body K D E A) (s : S)
      → TransactEnds same kept view body s (db.transact body s)
