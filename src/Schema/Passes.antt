-- ===== src/Schema/Passes.antt =====
-- `apply` of finiexragengine/core/schema/migration_runner.py as a whole, and the boot check of
-- schema_guard.py after it.
use mathlib.Core.List.{append-nil}
use finiex_ragengine.Prelude.{
  ℕ, ◌≡◌, refl, sym, ap, ◌∙◌, true, false, not, List, [], ◌∷◌, ◌++◌, keep_if, keep_if_holds, All,
  All-imp, List-cases, inl, inr, arith,
}
use finiex_ragengine.Prelude.Dict
use finiex_ragengine.Prelude.Dict.{Dict}
use finiex_ragengine.Schema.{
  Migration, AppliedMigration, Refusal, changed_after_applied, Result, raises, gives, Env, SchemaDb,
  Directory, differs, is_pending, pending_of, drifted_of, discover, migration_status, apply_pending,
  apply, verify_schema_current,
}
use finiex_ragengine.Schema.Ledger.{Distinct, Pairwise-keep_if, keep_if-none, discover-Distinct}
use finiex_ragengine.Schema.Runs.{executed, left_by, outcome_of, Stops, apply_pending-Stops}
use finiex_ragengine.Schema.Current.{keep_if-empty, found, get-executed, IsSettled, settled}

clash : {A : Type 0} {x : A} {e : Refusal} → gives x ≡ raises e → ⊥
clash h = cc

module _ {S : Type 0} (env : Env S) where
  none_pending :
      (ledger : Dict AppliedMigration) (ms : List Migration)
      → All (λ m. not (Dict.has ledger m.version) ≡ false) ms
      → pending_of env ledger ms ≡ []
  unfolding pending_of
  none_pending ledger ms a = keep_if-empty (is_pending env ledger) ms a

  pending_holds :
      (ledger : Dict AppliedMigration) (ms : List Migration)
      → All (λ m. Dict.has ledger m.version ≡ false) (pending_of env ledger ms)
  unfolding pending_of
  pending_holds ledger ms =
      All-imp _ _ (keep_if (is_pending env ledger) ms)
        (λ m (h : not (Dict.has ledger m.version) ≡ true). ground (arith, h))
        (keep_if_holds (is_pending env ledger) ms)

  pending-Distinct :
      (ledger : Dict AppliedMigration) (ms : List Migration)
      → Distinct ms
      → Distinct (pending_of env ledger ms)
  unfolding Distinct pending_of
  pending-Distinct ledger ms d = Pairwise-keep_if _ (is_pending env ledger) ms d

  module _ (now : ℕ) (dir : Directory) (ms : List Migration)
      (on_disk : discover env dir ≡ gives ms) where
    migration_status-gives :
        (db : SchemaDb S)
        → migration_status env dir db
          ≡ gives (record {
            applied = Dict.values db.ledger;
            pending = pending_of env db.ledger ms;
            drifted = drifted_of env db.ledger ms;
          })
    unfolding migration_status
    migration_status-gives db = rw on_disk refl

    -- With nothing pending or drifted a pass does nothing, and the boot check lets the engine start.
    at_rest :
        (others : SchemaDb S → SchemaDb S) (db : SchemaDb S)
        → pending_of env db.ledger ms ≡ []
        → drifted_of env db.ledger ms ≡ []
        → (verify_schema_current env dir db ≡ gives tt)
          × (apply env now others dir db ≡ (db, gives []))
    unfolding verify_schema_current apply
    at_rest others db p d =
        (rw (migration_status-gives db, d, p) refl, rw (migration_status-gives db, d, p) refl)

    refuses :
        (others : SchemaDb S → SchemaDb S) (db : SchemaDb S) (m : Migration) (more : List Migration)
        → drifted_of env db.ledger ms ≡ m ∷ more
        → apply env now others dir db ≡ (db, raises (changed_after_applied (m ∷ more)))
    unfolding apply
    refuses others db m more d = rw (migration_status-gives db, d) refl

    apply_locked_lem :
        (others : SchemaDb S → SchemaDb S) (db : SchemaDb S) (m : Migration) (more : List Migration)
        → drifted_of env db.ledger ms ≡ []
        → pending_of env db.ledger ms ≡ m ∷ more
        → apply env now others dir db
          ≡ apply_pending env now (pending_of env (others db).ledger ms) (others db)
    unfolding apply
    apply_locked_lem others db m more d p =
        rw (migration_status-gives db, d, p) (rw (migration_status-gives (others db)) refl)

    -- A pass that finds a migration pending, and none that drifted. It executes what is pending once it
    -- has the lock, in the order of the versions on disk, up to the first that PostgreSQL refuses. A
    -- refused one raises and leaves the database as it was, unless it ran outside a transaction: then its
    -- partial effect stays, unrecorded. With none refused the pass gives the migrations it executed.
    pub apply-Stops :
        (others : SchemaDb S → SchemaDb S) (db : SchemaDb S) (m : Migration) (more : List Migration)
        → drifted_of env db.ledger ms ≡ []
        → pending_of env db.ledger ms ≡ m ∷ more
        → Stops env now
            (pending_of env (others db).ledger ms)
            (others db)
            (apply env now others dir db)
    apply-Stops others db m more d p = rw (apply_locked_lem others db m more d p) (
        apply_pending-Stops env now (pending_of env (others db).ledger ms) (others db)
          (pending_holds (others db).ledger ms)
          (pending-Distinct (others db).ledger ms (discover-Distinct env dir ms on_disk)))

    settled_after :
        (start : SchemaDb S)
        → drifted_of env start.ledger ms ≡ []
        → let after = executed env now (pending_of env start.ledger ms) start in
          (pending_of env after.ledger ms ≡ []) × (drifted_of env after.ledger ms ≡ [])
    unfolding IsSettled drifted_of
    settled_after start d =
        let todo = pending_of env start.ledger ms in
        let after = executed env now todo start in
        let all : All (λ m. IsSettled env now m (Dict.get after.ledger m.version)) ms =
          All-imp _ _ ms
            (λ m
                (h : IsSettled env now m
                  (found env now todo m.version (Dict.get start.ledger m.version))).
              rw (get-executed env now todo start m.version) h)
            (settled env now start.ledger ms (discover-Distinct env dir ms on_disk)
              (keep_if-none (λ m. differs env m (Dict.get start.ledger m.version)) ms d)) in
        (
          none_pending after.ledger ms (
              All-imp _ _ ms
                (λ m (h : IsSettled env now m (Dict.get after.ledger m.version)). ap not h.0) all),
          keep_if-empty (λ m. differs env m (Dict.get after.ledger m.version)) ms
              (All-imp _ _ ms (λ m (h : IsSettled env now m (Dict.get after.ledger m.version)). h.1)
                all),
        )

    finished :
        (start : SchemaDb S) (run : SchemaDb S × Result (List Migration)) (after : SchemaDb S)
        (runs rest done : List Migration)
        → run ≡ (after, gives runs)
        → pending_of env start.ledger ms ≡ done ++ rest
        → run.0 ≡ left_by env now rest (executed env now done start)
        → run.1 ≡ outcome_of env now done rest
        → after ≡ executed env now (pending_of env start.ledger ms) start
    unfolding left_by outcome_of
    finished start run after runs [] done e split left out =
        rw (split, append-nil) (sym (ap (λ r. r.0) e) ∙ left)
    finished start run after runs (m ∷ rest) done e split left out =
        absurd (clash (sym (ap (λ r. r.1) e) ∙ out))

    -- A pass that returns without an error, where the processes that it waited for left nothing that
    -- drifted: the boot check then lets the engine start, and another pass, now or later, does nothing.
    pub apply-verify_schema_current :
        (others next : SchemaDb S → SchemaDb S) (db after : SchemaDb S) (runs : List Migration)
        → drifted_of env (others db).ledger ms ≡ []
        → apply env now others dir db ≡ (after, gives runs)
        → (verify_schema_current env dir after ≡ gives tt)
          × (apply env now next dir after ≡ (after, gives []))
    apply-verify_schema_current others next db after runs d e =
        elim (List-cases (drifted_of env db.ledger ms)) [
          | inr (m, more, f) ↦
              absurd (clash (sym (ap (λ r. r.1) e) ∙ ap (λ r. r.1) (refuses others db m more f)))
          | inl f ↦ elim (List-cases (pending_of env db.ledger ms)) [
            | inl p ↦
                let same : db ≡ after = ap (λ r. r.0) (sym (at_rest others db p f).1 ∙ e) in
                rw (← same) ((at_rest others db p f).0, (at_rest next db p f).1)
            | inr (m, more, p) ↦
                let s = apply-Stops others db m more f p in
                let start = others db in
                let done =
                  finished start (apply env now others dir db) after runs s.rest s.done e s.split
                    s.left s.outcome in
                let settled = settled_after start d in
                rw done (
                  at_rest next (executed env now (pending_of env start.ledger ms) start) settled.0
                    settled.1)
          ]
        ]
