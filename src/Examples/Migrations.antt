-- ===== src/Examples/Migrations.antt =====
-- Two migrations, the second of which PostgreSQL refuses or accepts.
use finiex_ragengine.Prelude.{
  String, ◌≡◌, refl, Bool, true, false, not, none, some, List, [], ◌∷◌, ◌++◌, keep_if,
  if◌then◌else◌, str_eq,
}
use finiex_ragengine.Prelude.Dict
use finiex_ragengine.Prelude.Sort.{sort_by, insert_by}
use finiex_ragengine.Schema.{
  Migration, gives, Env, SchemaDb, Directory, discover, discover_files, duplicates, count_of,
  pending_of, drifted_of, apply, apply_pending, migration_status, verify_schema_current, apply_one,
  apply_in_transaction, apply_without_transaction, record_row,
}
use finiex_ragengine.Schema.Runs.{Stops}
use finiex_ragengine.Schema.Passes.{apply-Stops, apply-verify_schema_current}

-- The content is the list of the bodies that ran; "boom" is refused, after an effect.
abbrev env : Env (List String)
env = record {
  str_le = λ a b. str_eq a "001_init.sql";
  parse_name = λ n.
      if str_eq n "001_init.sql"
      then some ("001", "init")
      else if str_eq n "002_index.sql"
      then some ("002", "index")
      else none;
  is_marked = λ body. str_eq body "boom";
  statement_count = λ body. 1;
  sha256 = λ body. body;
  exec = λ body c. (c ++ body ∷ [], not (str_eq body "boom"));
}

abbrev directory : String → Directory
directory second = record {
  exists = true;
  files =
      record { file_name = "002_index.sql"; body = second }
      ∷ record { file_name = "README"; body = "" }
      ∷ record { file_name = "001_init.sql"; body = "create" }
      ∷ [];
}

abbrev on_disk : String → Bool → List Migration
on_disk second transactional =
    record {
      version = "001";
      name = "init";
      body = "create";
      checksum = "create";
      transactional = true;
    }
    ∷ record {
      version = "002";
      name = "index";
      body = second;
      checksum = second;
      transactional = transactional;
    }
    ∷ []

abbrev empty_db : SchemaDb (List String)
empty_db = record { content = []; ledger = [] }

found_two : discover env (directory "index") ≡ gives (on_disk "index" true)
unfolding discover discover_files sort_by insert_by duplicates count_of keep_if
found_two = refl

found_boom : discover env (directory "boom") ≡ gives (on_disk "boom" false)
unfolding discover discover_files sort_by insert_by duplicates count_of keep_if
found_boom = refl

all_pending : pending_of env [] (on_disk "boom" false) ≡ on_disk "boom" false
unfolding pending_of keep_if Dict.get
all_pending = refl

none_drifted : (ms : List Migration) → drifted_of env [] ms ≡ []
unfolding drifted_of keep_if Dict.get
none_drifted [] = refl
none_drifted (m ∷ ms) = none_drifted ms

-- The refused one leaves its effect and no row.
apply-Stops_example :
    Stops env 7
      (pending_of env [] (on_disk "boom" false))
      empty_db
      (apply env 7 (λ d. d) (directory "boom") empty_db)
apply-Stops_example =
    apply-Stops env 7 (directory "boom") (on_disk "boom" false) found_boom (λ d. d) empty_db _ _
      (none_drifted (on_disk "boom" false)) all_pending

left_behind : (apply env 7 (λ d. d) (directory "boom") empty_db).0.content ≡ "create" ∷ "boom" ∷ []
unfolding apply migration_status apply_pending apply_one apply_in_transaction
    apply_without_transaction record_row discover discover_files sort_by insert_by duplicates
    count_of pending_of drifted_of keep_if Dict.get Dict.put
left_behind = refl

abbrev migrated : SchemaDb (List String)
migrated = (apply env 7 (λ d. d) (directory "index") empty_db).0

both_applied :
    apply env 7 (λ d. d) (directory "index") empty_db ≡ (migrated, gives (on_disk "index" true))
unfolding apply migration_status apply_pending apply_one apply_in_transaction
    apply_without_transaction record_row discover discover_files sort_by insert_by duplicates
    count_of pending_of drifted_of keep_if Dict.get Dict.put
both_applied = refl

apply-verify_schema_current_example :
    (verify_schema_current env (directory "index") migrated ≡ gives tt)
    × (apply env 7 (λ d. d) (directory "index") migrated ≡ (migrated, gives []))
apply-verify_schema_current_example =
    apply-verify_schema_current env 7 (directory "index") (on_disk "index" true) found_two (λ d. d)
      (λ d. d) empty_db migrated (on_disk "index" true) (none_drifted (on_disk "index" true))
      both_applied
