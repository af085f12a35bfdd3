-- ===== src/Examples/Sources.antt =====
-- A failing source and a correlated pass, on concrete data.
use finiex_ragengine.Prelude.{
  ℕ, ◌+◌, ◌*◌, ◌≤◌, ◌-◌, ◌≡◌, refl, true, false, not, ◌&&◌, none, some, List, [], ◌∷◌, map, length,
  leb, get_elem?, arith,
}
use finiex_ragengine.Prelude.Dict
use finiex_ragengine.Health.{
  hour_micros, SourceHealthConfig, PendingFlag, IngestPass, SourceHealthStore, ladder, rung_for,
  start_rung, apply_flag, should_poll, count_episodes, slow, ahead, Episode,
}
use finiex_ragengine.Health.Passes.{
  Failure, record_failure, begin_pass, end_pass, is_correlated, resolve_pass, enter_host_event,
}
use finiex_ragengine.Health.Ladder.{apply_flag-Cools}
use finiex_ragengine.Health.Boot.{
  HealthCall, only_ahead, start_store, load_quarantines, load_rungs, perform_all, fails, answers,
  begins, ends,
}
use finiex_ragengine.Health.Memory.{IsKeyed}
use finiex_ragengine.Health.Restart.{IsOrdered, restart-quarantined}
use finiex_ragengine.Health.Outage.{HasSamePolicy, resolve_pass-HasSamePolicy, resolve_pass-resumes}

abbrev pub config : SourceHealthConfig
config = record {
  flag_after_consecutive_failures = 2;
  quarantine_hours = 1 ∷ 6 ∷ 24 ∷ [];
  ladder_reset_hours = 168;
  deadline_percent = 70;
  correlated_min_pollable = 3;
  correlated_failure_percent = 85;
  correlated_backoff_minutes = 5;
}

abbrev pub healthy : SourceHealthStore
healthy = record {
  config = config;
  rows = [];
  episodes = [];
  quarantined = [];
  rungs = [];
  probing = [];
  open_pass = none;
  host_backoff = none;
  host_started_at = none;
}

abbrev refused : Failure
refused = record {
  error_type = "HTTP_ERROR";
  status = some 403;
  duration_ms = none;
  deadline_ms = none;
}

abbrev flag : PendingFlag
flag = record {
  source_id = "ecb";
  error_type = "HTTP_ERROR";
  status = some 403;
  duration_ms = none;
  deadline_ms = none;
  probe = false;
}

-- The second refusal in a row outside of a pass quarantines the source on the top rung.
flagged_on_top :
    let store = record_failure 20 "ecb" refused (record_failure 10 "ecb" refused healthy) in
    Dict.get store.rungs "ecb" ≡ some (2, 3)
unfolding record_failure apply_flag rung_for start_rung count_episodes ladder slow Dict.get Dict.put
flagged_on_top = refl

apply_flag-Cools_example :
    let r = should_poll 500 "ecb" (apply_flag 10 flag healthy) in
    (hours : ℕ) × (get_elem? (ladder config) (rung_for healthy flag 10) ≡ some hours)
    × (start_rung flag 70 (length (ladder config) - 1) ≤ rung_for healthy flag 10)
    × (r.1 ≡ leb (10 + hours * hour_micros) 500)
    × (Dict.has r.0.probing "ecb" ≡ leb (10 + hours * hour_micros) 500)
apply_flag-Cools_example = apply_flag-Cools 10 500 flag healthy refl

abbrev all_failed : IngestPass
all_failed = record {
  failed = ("a", tt) ∷ ("b", tt) ∷ ("c", tt) ∷ [];
  succeeded = [];
  pending = flag ∷ [];
}

correlated : is_correlated config all_failed ≡ true
unfolding is_correlated
correlated = refl

resolve_pass-HasSamePolicy_example :
    let after = resolve_pass 100 all_failed healthy in
    HasSamePolicy after healthy × (should_poll 200 "a" after ≡ (after, false))
resolve_pass-HasSamePolicy_example =
    resolve_pass-HasSamePolicy 100 200 "a" all_failed healthy correlated (omega arith)

abbrev one_answered : IngestPass
one_answered = record {
  failed = ("a", tt) ∷ ("b", tt) ∷ [];
  succeeded = ("c", tt) ∷ [];
  pending = flag ∷ [];
}

abbrev in_outage : SourceHealthStore
in_outage = record healthy { host_started_at = some 100; host_backoff = some 300_000_100 }

uncorrelated : is_correlated config one_answered ≡ false
unfolding is_correlated
uncorrelated = refl

over :
    let after = resolve_pass 400_000_000 one_answered in_outage in
    (after.host_backoff ≡ none) × (after.host_started_at ≡ none)
over = resolve_pass-resumes 400_000_000 one_answered in_outage uncorrelated refl (omega arith)

-- Three sources fail twice, each inside a pass: the flags are withheld, then discarded.
discarded :
    let one =
      record_failure 10 "a" refused
        (record_failure 10 "b" refused (record_failure 10 "c" refused healthy)) in
    let two =
      record_failure 20 "a" refused
        (record_failure 20 "b" refused (record_failure 20 "c" refused (begin_pass one))) in
    (end_pass 30 two).quarantined ≡ []
unfolding record_failure begin_pass end_pass resolve_pass is_correlated enter_host_event Dict.get
    Dict.put
discarded = refl

-- A source is flagged in a pass, its probe is handed out after the cool-off, and another one answers.
abbrev life : List (ℕ × HealthCall)
life =
    (10, fails "ecb" refused)
    ∷ (20, begins)
    ∷ (20, fails "ecb" refused)
    ∷ (20, answers "boe")
    ∷ (20, ends)
    ∷ []

life-IsOrdered : IsOrdered 0 life 500
unfolding IsOrdered
life-IsOrdered =
    (omega arith, (omega arith, (omega arith, (omega arith, (omega arith, omega arith)))))

no_rows-IsKeyed : IsKeyed []
unfolding IsKeyed
no_rows-IsKeyed = tt

restart-quarantined_example :
    let store = perform_all life (start_store 0 config [] []) in
    let restarted = start_store 500 config store.rows store.episodes in
    (Dict.get restarted.quarantined "ecb" ≡ only_ahead 500 (Dict.get store.quarantined "ecb"))
    × ((should_poll 500 "ecb" store).1
        ≡ (not (ahead 500 store.host_backoff) && (should_poll 500 "ecb" restarted).1))
restart-quarantined_example =
    restart-quarantined 0 500 config [] [] life "ecb" no_rows-IsKeyed life-IsOrdered

-- The quarantine and its rung are there after the restart.
rung_restored :
    let store = perform_all life (start_store 0 config [] []) in
    let restarted = start_store 500 config store.rows store.episodes in
    (restarted.quarantined ≡ ("ecb", 86_400_000_020) ∷ [])
    × (restarted.rungs ≡ ("ecb", (2, 3)) ∷ [])
unfolding perform_all start_store load_quarantines load_rungs Dict.get Dict.put
rung_restored = (refl, refl)

-- A restart between the end of the cool-off and the probe's outcome: the failure that follows is no
-- probe, so the first quarantine stays open beside the second.
two_open :
    let store = perform_all life (start_store 0 config [] []) in
    let late : ℕ = 90_000_000_000 in
    let restarted = start_store late config store.rows store.episodes in
    let after = record_failure (late + 1) "ecb" refused restarted in
    map (λ (e : Episode). e.ended_at) after.episodes ≡ none ∷ none ∷ []
unfolding perform_all start_store load_quarantines load_rungs record_failure Dict.get Dict.put
two_open = refl
