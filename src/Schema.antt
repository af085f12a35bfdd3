-- ===== src/Schema.antt =====
-- finiexragengine/core/schema/migration_runner.py and schema_guard.py, with types/schema_types.py: the
-- migrations of the database. A raise site is a constructor with what its message names. The content
-- of the database, Python's regular expressions and the checksum are arguments. A file does not
-- change between its discovery and its execution; log lines and durations are left out. Left out are a
-- connection that fails and a commit whose answer is lost: an error comes from the migration itself.
pub mod Ledger
pub mod Runs
pub mod Current
pub mod Passes
use finiex_ragengine.Prelude.{
  ℕ, suc, String, Bool, true, false, not, ◌&&◌, Option, none, some, List, [], ◌∷◌, map, ltb,
  keep_if, is_some, if◌then◌else◌, str_eq,
}
use finiex_ragengine.Prelude.Sort.{sort_by}
use finiex_ragengine.Prelude.Dict
use finiex_ragengine.Prelude.Dict.{Dict}

pub record Migration : Type 0 where
  pub version : String
  pub name : String
  pub body : String
  pub checksum : String
  pub transactional : Bool

pub record AppliedMigration : Type 0 where
  pub version : String
  pub name : String
  pub applied_at : ℕ
  pub checksum : String

pub record MigrationStatus : Type 0 where
  pub applied : List AppliedMigration
  pub pending : List Migration
  pub drifted : List Migration

pub data Refusal : Type 0 where
  no_directory : Refusal
  several_statements : String → Refusal
  duplicate_versions : List String → Refusal
  changed_after_applied : List Migration → Refusal
  behind : List Migration → Refusal
  rolled_back : Migration → Refusal
  not_rolled_back : Migration → Refusal

pub data Result {ℓ} (A : Type ℓ) : Type ℓ where
  raises : Refusal → Result A
  gives : A → Result A

infixl 5 ◌>>=◌
abbrev pub ◌>>=◌ {ℓ κ} : {A : Type ℓ} {B : Type κ} → Result A → (A → Result B) → Result B
raises e >>= f = raises e
gives x >>= f = f x

pub record File : Type 0 where
  pub file_name : String
  pub body : String

pub record Directory : Type 0 where
  pub exists : Bool
  pub files : List File

-- The content `S` of a database beside the ledger. `exec` gives what a body leaves behind, and
-- whether PostgreSQL accepted it.
pub record Env (S : Type 0) : Type 0 where
  pub str_le : String → String → Bool
  -- the groups of `_FILENAME`
  pub parse_name : String → Option (String × String)
  pub is_marked : String → Bool
  -- the statements between the semicolons, without comments and blanks
  pub statement_count : String → ℕ
  pub sha256 : String → String
  pub exec : String → S → S × Bool

pub record SchemaDb (S : Type 0) : Type 0 where
  pub content : S
  pub ledger : Dict AppliedMigration

unfoldable pub count_of : List String → String → ℕ
count_of [] v = 0
count_of (x ∷ xs) v = let n = count_of xs v in if str_eq x v then suc n else n

abbrev pub versions : List Migration → List String
versions ms = map (λ m. m.version) ms

unfoldable pub duplicates : List String → List String
unfolding count_of
duplicates vs = keep_if (λ v. ltb 1 (count_of vs v)) vs

abbrev pub unless_duplicate : List Migration → List String → Result (List Migration)
unless_duplicate found [] = gives found
unless_duplicate found (v ∷ vs) = raises (duplicate_versions (v ∷ vs))

module _ {S : Type 0} (env : Env S) where
  abbrev pub migration_of : File → String × String → Migration
  migration_of f (version, name) = record {
    version = version;
    name = name;
    body = f.body;
    checksum = Env.sha256 env f.body;
    transactional = not (Env.is_marked env f.body);
  }

  -- The loop of `discover`, over the sorted files.
  unfoldable pub discover_files : List File → Result (List Migration)
  discover_files [] = gives []
  discover_files (f ∷ fs) =
      let rest = discover_files fs in
      elim (Env.parse_name env f.file_name) [
        | none ↦ rest
        | some groups ↦
            if Env.is_marked env f.body && ltb 1 (Env.statement_count env f.body)
            then raises (several_statements f.file_name)
            else rest >>= λ ms. gives (migration_of f groups ∷ ms)
      ]

  unfoldable pub discover : Directory → Result (List Migration)
  unfolding discover_files duplicates
  discover dir =
      if dir.exists
      then (discover_files (sort_by (λ f g. Env.str_le env f.file_name g.file_name) dir.files)
          >>= λ found. unless_duplicate found (duplicates (versions found)))
      else raises no_directory

  abbrev pub is_pending : Dict AppliedMigration → Migration → Bool
  is_pending ledger m = not (Dict.has ledger m.version)

  abbrev pub differs : Migration → Option AppliedMigration → Bool
  differs m none = false
  differs m (some row) = not (str_eq row.checksum m.checksum)

  unfoldable pub pending_of : Dict AppliedMigration → List Migration → List Migration
  pending_of ledger ms = keep_if (is_pending ledger) ms

  unfoldable pub drifted_of : Dict AppliedMigration → List Migration → List Migration
  drifted_of ledger ms = keep_if (λ m. differs m (Dict.get ledger m.version)) ms

  unfoldable pub migration_status : Directory → SchemaDb S → Result MigrationStatus
  unfolding discover pending_of drifted_of
  migration_status dir db = discover dir >>= λ on_disk. gives (record {
    applied = Dict.values db.ledger;
    pending = pending_of db.ledger on_disk;
    drifted = drifted_of db.ledger on_disk;
  })

  -- `_record`: the version is the primary key.
  abbrev pub ledger_row : ℕ → Migration → AppliedMigration
  ledger_row now m = record {
    version = m.version;
    name = m.name;
    applied_at = now;
    checksum = m.checksum;
  }

  unfoldable pub record_row : ℕ → Migration → Dict AppliedMigration → Option (Dict AppliedMigration)
  record_row now m ledger =
      if Dict.has ledger m.version
      then none
      else some (Dict.put ledger m.version (ledger_row now m))

  abbrev pub commit :
      Migration → SchemaDb S → S → Option (Dict AppliedMigration) → SchemaDb S × Result (Unit {0})
  commit m db after none = (db, raises (rolled_back m))
  commit m db after (some ledger) = (record { content = after; ledger = ledger }, gives tt)

  unfoldable pub apply_in_transaction : ℕ → Migration → SchemaDb S → SchemaDb S × Result (Unit {0})
  unfolding record_row
  apply_in_transaction now m db =
      let (after, fine) = Env.exec env m.body db.content in
      commit m db after (if fine then record_row now m db.ledger else none)

  abbrev pub autocommit :
      Migration → SchemaDb S → S → Option (Dict AppliedMigration) → SchemaDb S × Result (Unit {0})
  autocommit m db after none = (record db { content = after }, raises (not_rolled_back m))
  autocommit m db after (some ledger) = (record { content = after; ledger = ledger }, gives tt)

  unfoldable pub apply_without_transaction :
      ℕ → Migration → SchemaDb S → SchemaDb S × Result (Unit {0})
  unfolding record_row
  apply_without_transaction now m db =
      let (after, fine) = Env.exec env m.body db.content in
      autocommit m db after (if fine then record_row now m db.ledger else none)

  unfoldable pub apply_one : ℕ → Migration → SchemaDb S → SchemaDb S × Result (Unit {0})
  unfolding apply_in_transaction apply_without_transaction
  apply_one now m db =
      if m.transactional then apply_in_transaction now m db else apply_without_transaction now m db

  abbrev pub then_run :
      Migration
      → (SchemaDb S → SchemaDb S × Result (List Migration))
      → SchemaDb S × Result (Unit {0})
      → SchemaDb S × Result (List Migration)
  then_run m rest (db, raises e) = (db, raises e)
  then_run m rest (db, gives _) = let (db', runs) = rest db in (db', runs >>= λ rs. gives (m ∷ rs))

  -- The loop of `apply`; a run is the migration that was executed.
  unfoldable pub apply_pending :
      ℕ → List Migration → SchemaDb S → SchemaDb S × Result (List Migration)
  unfolding apply_one
  apply_pending now [] db = (db, gives [])
  apply_pending now (m ∷ ms) db = then_run m (λ d. apply_pending now ms d) (apply_one now m db)

  abbrev pub apply_listed :
      ℕ → Result MigrationStatus → SchemaDb S → SchemaDb S × Result (List Migration)
  apply_listed now (raises e) db = (db, raises e)
  apply_listed now (gives s) db = apply_pending now s.pending db

  -- Under the lock the migration_status is read again.
  abbrev pub apply_locked : ℕ → Directory → SchemaDb S → SchemaDb S × Result (List Migration)
  apply_locked now dir db = apply_listed now (migration_status dir db) db

  abbrev pub unless_current :
      ℕ
      → (SchemaDb S → SchemaDb S)
      → Directory
      → List Migration
      → SchemaDb S
      → SchemaDb S × Result (List Migration)
  unless_current now others dir [] db = (db, gives [])
  unless_current now others dir (m ∷ ms) db = apply_locked now dir (others db)

  abbrev pub unless_drifted :
      ℕ
      → (SchemaDb S → SchemaDb S)
      → Directory
      → MigrationStatus
      → List Migration
      → SchemaDb S
      → SchemaDb S × Result (List Migration)
  unless_drifted now others dir s [] db = unless_current now others dir s.pending db
  unless_drifted now others dir s (m ∷ ms) db = (db, raises (changed_after_applied (m ∷ ms)))

  abbrev pub apply_status :
      ℕ
      → (SchemaDb S → SchemaDb S)
      → Directory
      → Result MigrationStatus
      → SchemaDb S
      → SchemaDb S × Result (List Migration)
  apply_status now others dir (raises e) db = (db, raises e)
  apply_status now others dir (gives s) db = unless_drifted now others dir s s.drifted db

  -- `apply`; `others` is what other processes do to the database while this one waits for the lock.
  unfoldable pub apply :
      ℕ → (SchemaDb S → SchemaDb S) → Directory → SchemaDb S → SchemaDb S × Result (List Migration)
  unfolding migration_status apply_pending
  apply now others dir db = apply_status now others dir (migration_status dir db) db

  abbrev pub refuse : List Migration → List Migration → Result (Unit {0})
  refuse (m ∷ ms) pending = raises (changed_after_applied (m ∷ ms))
  refuse [] (m ∷ ms) = raises (behind (m ∷ ms))
  refuse [] [] = gives tt

  -- `verify_schema_current`, at boot
  unfoldable pub verify_schema_current : Directory → SchemaDb S → Result (Unit {0})
  unfolding migration_status
  verify_schema_current dir db = migration_status dir db >>= λ s. refuse s.drifted s.pending
