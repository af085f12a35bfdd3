-- ===== src/Health/Restart.antt =====
-- A restart of the worker that owns the store of
-- finiexragengine/core/observability/source_health_store.py.
use finiex_ragengine.Prelude.{
  ℕ, ◌≤◌, String, ◌≡◌, refl, sym, ap, ◌∙◌, Bool, false, Option, none, some, List, [], ◌∷◌,
  All-append, leb, not, ◌&&◌, ◌||◌, is_some, arith, eq_iff, str_eq, Bool-cases, inl, inr,
}
use finiex_ragengine.Prelude.Dict
use finiex_ragengine.Prelude.Dict.{Dict, get-put, get-remove}
use finiex_ragengine.Health.{
  HealthRow, Episode, SourceHealthConfig, PendingFlag, IngestPass, SourceHealthStore, ahead,
  should_poll, poll_quarantined,
}
use finiex_ragengine.Health.Passes.{
  Failure, record_success, record_failure, begin_pass, end_pass, hold_or_apply, note_failure,
  note_success, failed_row, resolve_open,
}
use finiex_ragengine.Health.Boot.{
  only_ahead, start_store, HealthCall, perform, perform_all, asks, answers, fails, begins, ends,
}
use finiex_ragengine.Health.Flags.{apply-Agrees, apply-pass, resolve-Remembers, poll-Agrees}
use finiex_ragengine.Health.Memory.{
  IsKeyed, until_of, get-load, only_ahead-later, Agrees, Agrees-later, put-Agrees, Holds, Known,
  put-Known, Remembers,
}

end-Remembers :
    (now : ℕ) (o : Option IngestPass) (store : SourceHealthStore)
    → store.open_pass ≡ none
    → Known store.rows o
    → Agrees now store.rows store.quarantined
    → Remembers now (resolve_open now o store)
unfolding Remembers Known
end-Remembers now none store e known agree = (agree, rw e tt)
end-Remembers now (some s) store e known agree = resolve-Remembers now s store e known agree

hold-Remembers :
    (now : ℕ) (p : PendingFlag) (o : Option IngestPass) (store : SourceHealthStore)
    → store.open_pass ≡ o
    → Known store.rows o
    → Holds store.rows p
    → Agrees now store.rows store.quarantined
    → Remembers now (hold_or_apply now p o store)
unfolding Remembers Known
hold-Remembers now p none store e known here agree =
    (apply-Agrees now p store here agree, rw (apply-pass now p store, e) tt)
hold-Remembers now p (some s) store e known here agree =
    (agree, All-append (Holds store.rows) s.pending (p ∷ []) known (here, tt))

success-Known :
    (rows : Dict HealthRow) (id : String) (o : Option IngestPass)
    → Known rows o
    → Known rows (note_success id o)
unfolding Known
success-Known rows id none h = tt
success-Known rows id (some s) h = h

failure-Known :
    (rows : Dict HealthRow) (id : String) (o : Option IngestPass)
    → Known rows o
    → Known rows (note_failure id o)
unfolding Known
failure-Known rows id none h = tt
failure-Known rows id (some s) h = h

answer-Remembers :
    (now : ℕ) (id : String) (store : SourceHealthStore)
    → Remembers now store
    → Remembers now (record_success now id store).0
unfolding record_success Remembers
answer-Remembers now id store (agree, known) =
    let row : HealthRow = record {
      consecutive_failures = 0;
      flagged = false;
      quarantined_until = none;
    } in
    (
      put-Agrees now store.rows store.quarantined (Dict.remove store.quarantined id) id row none
          (λ j. get-remove store.quarantined id j) refl agree,
      success-Known (Dict.put store.rows id row) id store.open_pass
          (put-Known store.rows id row store.open_pass known),
    )

failed_row-until : (o : Option HealthRow) → (failed_row o).quarantined_until ≡ until_of o
failed_row-until none = refl
failed_row-until (some row) = refl

-- The counters of a failure leave the quarantine alone.
count-Agrees :
    (now : ℕ) (id : String) (rows : Dict HealthRow) (held : Dict ℕ)
    → Agrees now rows held
    → Agrees now (Dict.put rows id (failed_row (Dict.get rows id))) held
unfolding Agrees
count-Agrees now id rows held (k, agree) =
    put-Agrees now rows held held id (failed_row (Dict.get rows id)) (Dict.get held id)
      (λ j. elim (Bool-cases (str_eq id j)) [
        | inl e ↦ rw e (sym (ap (Dict.get held) ((eq_iff id j).0 e)))
        | inr e ↦ rw e refl
      ])
      (agree id ∙ ap (only_ahead now) (sym (failed_row-until (Dict.get rows id)))) (k, agree)

fail-Remembers :
    (now : ℕ) (id : String) (f : Failure) (store : SourceHealthStore)
    → Remembers now store
    → Remembers now (record_failure now id f store)
unfolding record_failure Remembers
fail-Remembers now id f store (agree, known) =
    let row = failed_row (Dict.get store.rows id) in
    let rows = Dict.put store.rows id row in
    let counted : SourceHealthStore = record store { rows = rows } in
    let agree' = count-Agrees now id store.rows store.quarantined agree in
    let known' = put-Known store.rows id row store.open_pass known in
    let probing = Dict.has store.probing id in
    let p : PendingFlag = record {
      source_id = id;
      error_type = f.error_type;
      status = f.status;
      duration_ms = f.duration_ms;
      deadline_ms = f.deadline_ms;
      probe = probing;
    } in
    let here : Holds rows p = rw (get-put store.rows id id row, (eq_iff id id).1 refl) refl in
    let crossed =
      leb store.config.flag_after_consecutive_failures row.consecutive_failures || probing in
    elim (Bool-cases crossed) [
      | inl c ↦ rw c (hold-Remembers now p store.open_pass counted refl known' here agree')
      | inr c ↦ rw c (agree', failure-Known rows id store.open_pass known')
    ]

ask-Remembers :
    (now : ℕ) (id : String) (store : SourceHealthStore)
    → Remembers now store
    → Remembers now (should_poll now id store).0
unfolding should_poll
ask-Remembers now id store h = elim (Bool-cases (ahead now store.host_backoff)) [
  | inl b ↦ rw b h
  | inr b ↦ rw b (poll-Agrees now id (Dict.get store.quarantined id) store refl h)
]

perform-Remembers :
    (now : ℕ) (call : HealthCall) (store : SourceHealthStore)
    → Remembers now store
    → Remembers now (perform now call store)
unfolding perform begin_pass end_pass Remembers Known
perform-Remembers now (asks id) store h = ask-Remembers now id store h
perform-Remembers now (answers id) store h = answer-Remembers now id store h
perform-Remembers now (fails id f) store h = fail-Remembers now id f store h
perform-Remembers now begins store (agree, known) = (agree, tt)
perform-Remembers now ends store (agree, known) =
    end-Remembers now store.open_pass (record store { open_pass = none }) refl known agree

-- Whether the calls come in the order of their instants, from one instant to another.
unfoldable pub IsOrdered : ℕ → List (ℕ × HealthCall) → ℕ → Type 0
IsOrdered from [] to = from ≤ to
IsOrdered from ((now, call) ∷ calls) to = (from ≤ now) × IsOrdered now calls to

perform_all-Remembers :
    (from to : ℕ) (calls : List (ℕ × HealthCall)) (store : SourceHealthStore)
    → IsOrdered from calls to
    → Remembers from store
    → Remembers to (perform_all calls store)
unfolding perform_all IsOrdered Remembers
perform_all-Remembers from to [] store o (agree, known) =
    (Agrees-later from to store.rows store.quarantined o agree, known)
perform_all-Remembers from to ((now, call) ∷ calls) store (le, o) (agree, known) =
    perform_all-Remembers now to calls (perform now call store) o (
      perform-Remembers now call store
        (Agrees-later from now store.rows store.quarantined le agree, known))

start-Remembers :
    (now : ℕ) (config : SourceHealthConfig) (rows : Dict HealthRow) (episodes : List Episode)
    → IsKeyed rows
    → Remembers now (start_store now config rows episodes)
unfolding start_store Remembers Agrees Known
start-Remembers now config rows episodes k = (
  (
    k,
    λ id.
        ap (only_ahead now) (get-load now rows id k)
        ∙ only_ahead-later now now (until_of (Dict.get rows id)) (omega arith),
  ),
  tt,
)

quarantine-answer :
    (t : ℕ) (id : String) (o : Option ℕ) (store : SourceHealthStore)
    → (poll_quarantined t id o store).1 ≡ not (is_some (only_ahead t o))
quarantine-answer t id none store = refl
quarantine-answer t id (some until) store = ground arith

poll-answer :
    (t : ℕ) (id : String) (store : SourceHealthStore)
    → (should_poll t id store).1 ≡ (
        not (ahead t store.host_backoff)
        && not (is_some (only_ahead t (Dict.get store.quarantined id))))
unfolding should_poll
poll-answer t id store = elim (Bool-cases (ahead t store.host_backoff)) [
  | inl b ↦ rw b refl
  | inr b ↦ rw b (quarantine-answer t id (Dict.get store.quarantined id) store)
]

-- A store that is built from the rows of one that remembers them.
restored :
    (to : ℕ) (config : SourceHealthConfig) (store : SourceHealthStore) (id : String)
    → Remembers to store
    → let restarted = start_store to config store.rows store.episodes in
      (Dict.get restarted.quarantined id ≡ only_ahead to (Dict.get store.quarantined id))
      × ((should_poll to id store).1
          ≡ (not (ahead to store.host_backoff) && (should_poll to id restarted).1))
unfolding Remembers Agrees start_store
restored to config store id ((k, agree), known) =
    let restarted = start_store to config store.rows store.episodes in
    let same : Dict.get restarted.quarantined id ≡ only_ahead to (Dict.get store.quarantined id) =
      get-load to store.rows id k ∙ sym (agree id) in
    let again : only_ahead to (Dict.get restarted.quarantined id)
        ≡ only_ahead to (Dict.get store.quarantined id) =
      ap (only_ahead to) same
      ∙ only_ahead-later to to (Dict.get store.quarantined id) (omega arith) in
    (
      same,
      poll-answer to id store
          ∙ ap (λ (o : Option ℕ). not (ahead to store.host_backoff) && not (is_some o)) (sym again)
          ∙ ap (λ (b : Bool). not (ahead to store.host_backoff) && b)
              (sym (poll-answer to id restarted)),
    )

-- A store that is built from rows without a repeated key, then any calls of the ingestor in the order
-- of their instants, then a restart that builds a store from the rows and episodes of the first. The
-- new store holds exactly the quarantines of the old one that are not over. The old store polls a
-- source exactly when no set-wide back-off is running in it and the new store polls the source.
pub restart-quarantined :
    (from to : ℕ) (config : SourceHealthConfig) (rows : Dict HealthRow) (episodes : List Episode)
    (calls : List (ℕ × HealthCall)) (id : String)
    → IsKeyed rows
    → IsOrdered from calls to
    → let store = perform_all calls (start_store from config rows episodes) in
      let restarted = start_store to config store.rows store.episodes in
      (Dict.get restarted.quarantined id ≡ only_ahead to (Dict.get store.quarantined id))
      × ((should_poll to id store).1
          ≡ (not (ahead to store.host_backoff) && (should_poll to id restarted).1))
restart-quarantined from to config rows episodes calls id k o =
    let store = perform_all calls (start_store from config rows episodes) in
    let remembered =
      perform_all-Remembers from to calls (start_store from config rows episodes) o
        (start-Remembers from config rows episodes k) in
    restored to config store id remembered
