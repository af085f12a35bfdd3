-- ===== src/Schema/Current.antt =====
-- What a pass of finiexragengine/core/schema/migration_runner.py leaves for the boot check of
-- schema_guard.py.
use finiex_ragengine.Prelude.{
  ℕ, String, ◌≡◌, refl, ap, ◌∙◌, Bool, true, false, not, Option, none, some, List, [], ◌∷◌, keep_if,
  keep_if-All, All, All-imp, All-both, is_some, if◌then◌else◌, str_eq, eq_iff, if_true, if_false,
  Bool-cases, inl, inr, arith,
}
use finiex_ragengine.Prelude.Dict
use finiex_ragengine.Prelude.Dict.{Dict, get-put}
use finiex_ragengine.Schema.{
  Migration, AppliedMigration, Env, SchemaDb, ledger_row, differs, is_pending, pending_of,
}
use finiex_ragengine.Schema.Ledger.{Distinct}
use finiex_ragengine.Schema.Runs.{executed, executed_one}

pub keep_if-empty :
    {A : Type 0} (p : A → Bool) (xs : List A) → All (λ x. p x ≡ false) xs → keep_if p xs ≡ []
unfolding keep_if
keep_if-empty p [] a = refl
keep_if-empty p (x ∷ xs) a = rw a.0 (keep_if-empty p xs a.1)

module _ {S : Type 0} (env : Env S) where
  module _ (now : ℕ) where
    -- The row of a version after a run, over the row before.
    unfoldable pub found :
        List Migration → String → Option AppliedMigration → Option AppliedMigration
    found [] v o = o
    found (m ∷ ms) v o = found ms v (if str_eq m.version v then some (ledger_row env now m) else o)

    pub get-executed :
        (ms : List Migration) (db : SchemaDb S) (v : String)
        → Dict.get (executed env now ms db).ledger v ≡ found ms v (Dict.get db.ledger v)
    unfolding executed executed_one found
    get-executed [] db v = refl
    get-executed (m ∷ ms) db v =
        get-executed ms (executed_one env now m db) v
        ∙ ap (found ms v) (get-put db.ledger m.version v (ledger_row env now m))

    found_cons :
        (m : Migration) (ms : List Migration) (v : String) (o : Option AppliedMigration)
        → found (m ∷ ms) v o
          ≡ found ms v (if str_eq m.version v then some (ledger_row env now m) else o)
    unfolding found
    found_cons m ms v o = refl

    found-other :
        (ms : List Migration) (v : String) (o : Option AppliedMigration)
        → All (λ w. str_eq v w.version ≡ false) ms
        → found ms v o ≡ o
    unfolding found
    found-other [] v o a = refl
    found-other (m ∷ ms) v o a =
        let apart : str_eq m.version v ≡ false =
          ground (arith, a.0, eq_iff m.version v, eq_iff v m.version) in
        rw apart (found-other ms v o a.1)

    -- A version that is recorded, with the checksum on disk.
    unfoldable pub IsSettled : Migration → Option AppliedMigration → Type 0
    IsSettled m row = (is_some row ≡ true) × (differs env m row ≡ false)

    row-IsSettled : (m : Migration) → IsSettled m (some (ledger_row env now m))
    unfolding IsSettled
    row-IsSettled m = (refl, ap not ((eq_iff m.checksum m.checksum).1 refl))

    old-IsSettled :
        (m : Migration) (o : Option AppliedMigration)
        → not (is_some o) ≡ false
        → differs env m o ≡ false
        → IsSettled m o
    unfolding IsSettled
    old-IsSettled m none p d = cc
    old-IsSettled m (some row) p d = (refl, d)

    pending_of-cons :
        (ledger : Dict AppliedMigration) (m : Migration) (ms : List Migration)
        → pending_of env ledger (m ∷ ms) ≡ (
            if is_pending env ledger m
            then m ∷ pending_of env ledger ms
            else pending_of env ledger ms)
    unfolding pending_of keep_if
    pending_of-cons ledger m ms = refl

    apart_pending :
        (ledger : Dict AppliedMigration) (v : String) (ms : List Migration)
        → All (λ w. str_eq v w.version ≡ false) ms
        → All (λ w. str_eq v w.version ≡ false) (pending_of env ledger ms)
    unfolding pending_of
    apart_pending ledger v ms a = keep_if-All _ (is_pending env ledger) ms a

    -- After a run over what was pending, every migration is settled if none had drifted.
    pub settled :
        (ledger : Dict AppliedMigration) (ms : List Migration)
        → Distinct ms
        → All (λ m. differs env m (Dict.get ledger m.version) ≡ false) ms
        → All
            (λ m.
              IsSettled m (found (pending_of env ledger ms) m.version (Dict.get ledger m.version)))
            ms
    unfolding Distinct
    settled ledger [] d a = tt
    settled ledger (m ∷ ms) d a =
        let rest = pending_of env ledger ms in
        let others = apart_pending ledger m.version ms d.0 in
        let cons = pending_of-cons ledger m ms in
        let old = Dict.get ledger m.version in
        let same = (eq_iff m.version m.version).1 refl in
        let ih = settled ledger ms d.1 a.1 in
        elim (Bool-cases (is_pending env ledger m)) [
          | inl p ↦
              let q = cons ∙ if_true _ _ _ p in
              (
                rw (q, found_cons m rest m.version old, same)
                    (rw (found-other rest m.version (some (ledger_row env now m)) others)
                      (row-IsSettled m)),
                All-imp _ _ ms
                    (λ w
                        (h : (str_eq m.version w.version ≡ false)
                          × IsSettled w (found rest w.version (Dict.get ledger w.version))).
                      rw (q, found_cons m rest w.version (Dict.get ledger w.version), h.0) h.1)
                    (All-both _ _ ms d.0 ih),
              )
          | inr p ↦
              let q = cons ∙ if_false _ _ _ p in
              (
                rw (q, found-other rest m.version old others) (old-IsSettled m old p a.0),
                All-imp _ _ ms
                    (λ w (h : IsSettled w (found rest w.version (Dict.get ledger w.version))).
                      rw q h)
                    ih,
              )
        ]
