-- ===== src/Health/Passes.antt =====
-- The recording of polls and the end of an ingest pass in
-- finiexragengine/core/observability/source_health_store.py.
use finiex_ragengine.Prelude.{
  ℕ, suc, ◌+◌, ◌*◌, ◌++◌, String, Bool, false, not, ◌&&◌, ◌||◌, Option, none, some, List, [], ◌∷◌,
  length, leb, is_some, if◌then◌else◌,
}
use finiex_ragengine.Prelude.Dict
use finiex_ragengine.Prelude.Dict.{Dict}
use finiex_ragengine.Health.{
  minute_micros, SourceHealthConfig, HealthRow, PendingFlag, IngestPass, SourceHealthStore,
  close_episode, apply_flag,
}

abbrev was_flagged : Option HealthRow → Bool
was_flagged none = false
was_flagged (some row) = row.flagged

abbrev streak : Option HealthRow → ℕ
streak none = 0
streak (some row) = row.consecutive_failures

abbrev pub note_success : String → Option IngestPass → Option IngestPass
note_success source_id none = none
note_success source_id (some p) = some (record p { succeeded = Dict.put p.succeeded source_id tt })

-- The store, and whether the source had been flagged.
unfoldable pub record_success : ℕ → String → SourceHealthStore → SourceHealthStore × Bool
unfolding close_episode
record_success now source_id store =
    let flagged = was_flagged (Dict.get store.rows source_id) in
    let probing = Dict.has store.probing source_id in
    (
      record store {
        rows =
            Dict.put store.rows source_id
              (record { consecutive_failures = 0; flagged = false; quarantined_until = none });
        episodes =
            if flagged || probing
            then close_episode store.episodes source_id now
                (if probing then "probe_ok" else "resumed")
            else store.episodes;
        quarantined = Dict.remove store.quarantined source_id;
        rungs = Dict.remove store.rungs source_id;
        probing = Dict.remove store.probing source_id;
        open_pass = note_success source_id store.open_pass;
      },
      flagged,
    )

-- The counters of a failed poll; the flag's columns are left alone.
abbrev pub failed_row : Option HealthRow → HealthRow
failed_row none = record { consecutive_failures = 1; flagged = false; quarantined_until = none }
failed_row (some row) = record row { consecutive_failures = suc row.consecutive_failures }

abbrev pub note_failure : String → Option IngestPass → Option IngestPass
note_failure source_id none = none
note_failure source_id (some p) = some (record p { failed = Dict.put p.failed source_id tt })

-- What becomes of a flag: withheld by the open pass, or applied at once.
abbrev pub hold_or_apply :
    ℕ → PendingFlag → Option IngestPass → SourceHealthStore → SourceHealthStore
hold_or_apply now p none store = apply_flag now p store
hold_or_apply now p (some s) store = record store {
  open_pass =
      some (record s { failed = Dict.put s.failed p.source_id tt; pending = s.pending ++ p ∷ [] });
}

-- `error_type`, `status`, `duration_ms` and `deadline_ms` of a failed poll
pub record Failure : Type 0 where
  pub error_type : String
  pub status : Option ℕ
  pub duration_ms : Option ℕ
  pub deadline_ms : Option ℕ

unfoldable pub record_failure : ℕ → String → Failure → SourceHealthStore → SourceHealthStore
record_failure now source_id f store =
    let row = failed_row (Dict.get store.rows source_id) in
    let probing = Dict.has store.probing source_id in
    let counted : SourceHealthStore = record store { rows = Dict.put store.rows source_id row } in
    let p : PendingFlag = record {
      source_id = source_id;
      error_type = f.error_type;
      status = f.status;
      duration_ms = f.duration_ms;
      deadline_ms = f.deadline_ms;
      probe = probing;
    } in
    if leb store.config.flag_after_consecutive_failures row.consecutive_failures || probing
    then hold_or_apply now p counted.open_pass counted
    else record counted { open_pass = note_failure source_id counted.open_pass }

-- `ratio >= correlated_failure_ratio` of a pass that is not thin
unfoldable pub is_correlated : SourceHealthConfig → IngestPass → Bool
is_correlated config s =
    let failed = length s.failed in
    let pollable = failed + length s.succeeded in
    leb config.correlated_min_pollable pollable
    && (if leb pollable 0
        then leb config.correlated_failure_percent 0
        else leb (config.correlated_failure_percent * pollable) (100 * failed))

unfoldable pub enter_host_event : ℕ → SourceHealthStore → SourceHealthStore
enter_host_event now store = record store {
  host_started_at = if is_some store.host_started_at then store.host_started_at else some now;
  host_backoff = some (now + store.config.correlated_backoff_minutes * minute_micros);
}

unfoldable pub leave_host_event : SourceHealthStore → SourceHealthStore
leave_host_event store = record store { host_started_at = none; host_backoff = none }

unfoldable pub apply_all : ℕ → List PendingFlag → SourceHealthStore → SourceHealthStore
unfolding apply_flag
apply_all now [] store = store
apply_all now (p ∷ ps) store = apply_all now ps (apply_flag now p store)

-- `_resolve_pass`
unfoldable pub resolve_pass : ℕ → IngestPass → SourceHealthStore → SourceHealthStore
unfolding is_correlated enter_host_event leave_host_event apply_all
resolve_pass now s store =
    if is_correlated store.config s
    then enter_host_event now store
    else apply_all now s.pending (
        if is_some store.host_started_at && not (leb (length s.succeeded) 0)
        then leave_host_event store
        else store)

-- The end of a `pass_scope`.
abbrev pub resolve_open : ℕ → Option IngestPass → SourceHealthStore → SourceHealthStore
resolve_open now none store = store
resolve_open now (some s) store = resolve_pass now s store

unfoldable pub begin_pass : SourceHealthStore → SourceHealthStore
begin_pass store = record store {
  open_pass = some (record { failed = []; succeeded = []; pending = [] });
}

unfoldable pub end_pass : ℕ → SourceHealthStore → SourceHealthStore
unfolding resolve_pass
end_pass now store = resolve_open now store.open_pass (record store { open_pass = none })
