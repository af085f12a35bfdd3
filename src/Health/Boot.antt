-- ===== src/Health/Boot.antt =====
-- The construction of the store in finiexragengine/core/observability/source_health_store.py, with
-- `_load_quarantines`, and the life of a store after it. The closing of a stale set-wide event at
-- construction is left out: those events are no rows of the model.
use finiex_ragengine.Prelude.{
  ℕ, String, Bool, true, not, ◌&&◌, Option, none, some, List, [], ◌∷◌, leb, is_some, if◌then◌else◌,
  str_eq,
}
use finiex_ragengine.Prelude.Dict
use finiex_ragengine.Prelude.Dict.{Dict}
use finiex_ragengine.Health.{
  SourceHealthConfig, HealthRow, Episode, SourceHealthStore, ahead, should_poll,
}
use finiex_ragengine.Health.Passes.{Failure, record_success, record_failure, begin_pass, end_pass}

-- An instant, if it lies ahead.
abbrev pub only_ahead : ℕ → Option ℕ → Option ℕ
only_ahead now until = if ahead now until then until else none

abbrev pub put_if_some : String → Option ℕ → Dict ℕ → Dict ℕ
put_if_some id none d = d
put_if_some id (some until) d = Dict.put d id until

-- The quarantines that are not over yet, from the sources' rows.
unfoldable pub load_quarantines : ℕ → Dict HealthRow → Dict ℕ
load_quarantines now [] = []
load_quarantines now ((id, row) ∷ rows) =
    put_if_some id (only_ahead now row.quarantined_until) (load_quarantines now rows)

abbrev is_newer : Option Episode → Episode → Bool
is_newer none e = true
is_newer (some best) e = leb best.started_at e.started_at

-- The last open episode of a source.
unfoldable pub newest_open : List Episode → String → Option Episode → Option Episode
newest_open [] id best = best
newest_open (e ∷ es) id best =
    newest_open es id (
      if str_eq e.source_id id && not (is_some e.ended_at) && is_newer best e then some e else best)

abbrev put_rung : String → Option Episode → Dict (ℕ × ℕ) → Dict (ℕ × ℕ)
put_rung id none d = d
put_rung id (some e) d = Dict.put d id (e.rung, e.rungs_total)

-- The rungs of the sources that are quarantined.
unfoldable pub load_rungs : List Episode → Dict ℕ → Dict (ℕ × ℕ)
unfolding newest_open
load_rungs episodes [] = []
load_rungs episodes ((id, until) ∷ d) =
    put_rung id (newest_open episodes id none) (load_rungs episodes d)

-- `SourceHealthStore(database_url, config)`, on what the tables hold
unfoldable pub start_store :
    ℕ → SourceHealthConfig → Dict HealthRow → List Episode → SourceHealthStore
unfolding load_quarantines load_rungs
start_store now config rows episodes =
    let quarantined = load_quarantines now rows in
    record {
      config = config;
      rows = rows;
      episodes = episodes;
      quarantined = quarantined;
      rungs = load_rungs episodes quarantined;
      probing = [];
      open_pass = none;
      host_backoff = none;
      host_started_at = none;
    }

-- What the ingestor calls on its store.
pub data HealthCall : Type 0 where
  asks : String → HealthCall
  answers : String → HealthCall
  fails : String → Failure → HealthCall
  begins ends : HealthCall

unfoldable pub perform : ℕ → HealthCall → SourceHealthStore → SourceHealthStore
unfolding should_poll record_success record_failure begin_pass end_pass
perform now (asks id) store = (should_poll now id store).0
perform now (answers id) store = (record_success now id store).0
perform now (fails id f) store = record_failure now id f store
perform now begins store = begin_pass store
perform now ends store = end_pass now store

unfoldable pub perform_all : List (ℕ × HealthCall) → SourceHealthStore → SourceHealthStore
unfolding perform
perform_all [] store = store
perform_all ((now, call) ∷ calls) store = perform_all calls (perform now call store)
