-- ===== src/Schema/Runs.antt =====
-- The passes of finiexragengine/core/schema/migration_runner.py over the pending migrations.
use finiex_ragengine.Prelude.{
  ℕ, ◌≡◌, refl, sym, ap, true, false, List, [], ◌∷◌, ◌++◌, All, if◌then◌else◌, Bool-cases, inl, inr,
}
use finiex_ragengine.Prelude.Dict
use finiex_ragengine.Prelude.Dict.{Dict}
use finiex_ragengine.Schema.{
  Migration, Refusal, rolled_back, not_rolled_back, Result, raises, gives, ◌>>=◌, Env, SchemaDb,
  ledger_row, record_row, apply_one, apply_in_transaction, apply_without_transaction, apply_pending,
}
use finiex_ragengine.Schema.Ledger.{Distinct, pending_put}

module _ {S : Type 0} (env : Env S) (now : ℕ) where
  -- A database after a migration was executed and recorded.
  unfoldable pub executed_one : Migration → SchemaDb S → SchemaDb S
  executed_one m db = record {
    content = (Env.exec env m.body db.content).0;
    ledger = Dict.put db.ledger m.version (ledger_row env now m);
  }

  unfoldable pub executed : List Migration → SchemaDb S → SchemaDb S
  unfolding executed_one
  executed [] db = db
  executed (m ∷ ms) db = executed ms (executed_one m db)

  -- What the first of the migrations that were not recorded left behind.
  unfoldable pub left_by : List Migration → SchemaDb S → SchemaDb S
  left_by [] db = db
  left_by (m ∷ ms) db =
      if m.transactional then db else record db { content = (Env.exec env m.body db.content).0 }

  unfoldable pub outcome_of : List Migration → List Migration → Result (List Migration)
  outcome_of done [] = gives done
  outcome_of done (m ∷ ms) = raises (if m.transactional then rolled_back m else not_rolled_back m)

  -- PostgreSQL refused the first of them.
  unfoldable pub IsRefused : List Migration → SchemaDb S → Type 0
  IsRefused [] db = Unit
  IsRefused (m ∷ ms) db = (Env.exec env m.body db.content).1 ≡ false

  -- A run executes the migrations in order, up to the first that PostgreSQL refuses: that one raises,
  -- and leaves nothing unless it ran outside a transaction, when its partial effect stays unrecorded.
  pub record Stops (todo : List Migration) (start : SchemaDb S)
      (run : SchemaDb S × Result (List Migration)) : Type 0 where
    pub done : List Migration
    pub rest : List Migration
    pub split : todo ≡ done ++ rest
    pub refused : IsRefused rest (executed done start)
    pub left : run.0 ≡ left_by rest (executed done start)
    pub outcome : run.1 ≡ outcome_of done rest

  apply_one-accepted :
      (m : Migration) (db : SchemaDb S)
      → (Env.exec env m.body db.content).1 ≡ true
      → Dict.has db.ledger m.version ≡ false
      → apply_one env now m db ≡ (executed_one m db, gives tt)
  unfolding apply_one apply_in_transaction apply_without_transaction record_row executed_one
  apply_one-accepted m db fine new = elim (Bool-cases m.transactional) [
    | inl t ↦ rw (t, fine, new) refl
    | inr f ↦ rw (f, fine, new) refl
  ]

  apply_one-refused :
      (m : Migration) (ms : List Migration) (db : SchemaDb S)
      → (Env.exec env m.body db.content).1 ≡ false
      → (r : Refusal) × (apply_one env now m db ≡ (left_by (m ∷ ms) db, raises r))
        × (outcome_of [] (m ∷ ms) ≡ raises r)
  unfolding apply_one apply_in_transaction apply_without_transaction left_by outcome_of
  apply_one-refused m ms db bad = elim (Bool-cases m.transactional) [
    | inl t ↦ (rolled_back m, rw (t, bad) refl, rw t refl)
    | inr f ↦ (not_rolled_back m, rw (f, bad) refl, rw f refl)
  ]

  outcome_of-cons :
      (m : Migration) (done rest : List Migration)
      → (outcome_of done rest >>= λ rs. gives (m ∷ rs)) ≡ outcome_of (m ∷ done) rest
  unfolding outcome_of
  outcome_of-cons m done [] = refl
  outcome_of-cons m done (w ∷ rest) = refl

  pub apply_pending-Stops :
      (todo : List Migration) (db : SchemaDb S)
      → All (λ m. Dict.has db.ledger m.version ≡ false) todo
      → Distinct todo
      → Stops todo db (apply_pending env now todo db)
  unfolding apply_pending Distinct executed IsRefused left_by outcome_of
  apply_pending-Stops [] db a d = record {
    done = [];
    rest = [];
    split = refl;
    refused = tt;
    left = refl;
    outcome = refl;
  }
  apply_pending-Stops (m ∷ ms) db a d = elim (Bool-cases (Env.exec env m.body db.content).1) [
    | inl fine ↦
        let r =
          apply_pending-Stops ms (executed_one m db)
            (pending_put db.ledger m (ledger_row env now m) ms d.0 a.1) d.1 in
        rw (apply_one-accepted m db fine a.0) (record {
          done = m ∷ r.done;
          rest = r.rest;
          split = ap (◌∷◌ m) r.split;
          refused = r.refused;
          left = r.left;
          outcome = rw r.outcome (outcome_of-cons m r.done r.rest);
        })
    | inr bad ↦
        let (e, one, out) = apply_one-refused m ms db bad in
        rw one (record {
          done = [];
          rest = m ∷ ms;
          split = refl;
          refused = bad;
          left = refl;
          outcome = sym out;
        })
  ]
