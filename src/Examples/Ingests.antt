-- ===== src/Examples/Ingests.antt =====
-- A pass over three sources, at the second of which the embedding provider cannot be reached.
use finiex_ragengine.Prelude.{
  String, ◌++◌, ◌≡◌, refl, true, false, none, some, List, [], ◌∷◌, map, All, contains,
  if◌then◌else◌, str_eq, ◌⊎◌,
}
use finiex_ragengine.Prelude.Dict
use finiex_ragengine.Health.{should_poll}
use finiex_ragengine.Health.Passes.{begin_pass, record_success}
use finiex_ragengine.Ingest.{
  Source, FetchOutcome, pulled, unreachable, embedded, Ingestor, plan_pass,
}
use finiex_ragengine.Ingest.Books.{
  journal, account_answer, fresh_of, storable, turned_away, upsert_articles, stop_after_embed,
  due_ids,
}
use finiex_ragengine.Ingest.Accounting.{
  account_all, account_pull, open_scope, run_pass, run_ingest, count_changed,
}
use finiex_ragengine.Ingest.Polls.{poll_ids, is_stopped}
use finiex_ragengine.Ingest.Reported.{run_ingest-polls}
use finiex_ragengine.Ingest.Safe.{IsSavedEntry}
use finiex_ragengine.Ingest.Kept.{run_ingest-IsSaved}
use finiex_ragengine.Examples.Retrievals.{article_at}
use finiex_ragengine.Examples.Sources.{healthy}

abbrev source : String → Source
source id = record { source_id = id; due_for_fetch = true; deadline_ms = none }

abbrev one_article : String → FetchOutcome
one_article id = pulled 5 (record { article = article_at id 1; changed = false } ∷ [])

abbrev ingestor : Ingestor
ingestor = record {
  sources = source "a" ∷ source "b" ∷ source "c" ∷ [];
  fetch = λ id. one_article id;
  embed = λ fresh. elim fresh [
    | [] ↦ unreachable
    | x ∷ _ ↦ if str_eq x.article_id "a" then embedded (λ i. true) else unreachable
  ];
  detector = none;
  journals = true;
  answers_health = λ id. true;
  answers_lookup = λ id. true;
  answers_upsert = λ id. true;
  answers_detect = true;
  close_fault = none;
}

not_raised : (run_ingest 10 ingestor (some healthy) []).raised ≡ false
unfolding run_ingest run_pass plan_pass should_poll account_all account_pull account_answer
    begin_pass fresh_of storable turned_away upsert_articles count_changed stop_after_embed due_ids
    journal record_success contains Dict.get Dict.put Dict.remove
not_raised = refl

rewound_two : (run_ingest 10 ingestor (some healthy) []).resets ≡ "b" ∷ "c" ∷ []
unfolding run_ingest run_pass plan_pass should_poll account_all account_pull account_answer
    begin_pass fresh_of storable turned_away upsert_articles count_changed stop_after_embed due_ids
    journal record_success contains Dict.get Dict.put Dict.remove
rewound_two = refl

run_ingest-polls_example :
    let p = run_ingest 10 ingestor (some healthy) [] in
    (rest : List String) × (map (λ s. s.source_id) ingestor.sources ≡ poll_ids p ++ rest)
    × ((rest ≡ []) ⊎ (is_stopped p ≡ true))
run_ingest-polls_example = run_ingest-polls 10 ingestor (some healthy) []

run_ingest-IsSaved_example :
    All
      (IsSavedEntry ingestor (run_ingest 10 ingestor (some healthy) []))
      (plan_pass 10 ingestor.sources (open_scope (some healthy))).1
run_ingest-IsSaved_example = run_ingest-IsSaved 10 ingestor (some healthy) [] not_raised

-- The health store fails at the second source: its poll is not reported, and nothing is reset.
left_by_health :
    let p =
      run_ingest 10 (record ingestor { answers_health = λ id. str_eq id "a" }) (some healthy) [] in
    (p.raised ≡ true) × (p.resets ≡ []) × (poll_ids p ≡ "a" ∷ [])
unfolding run_ingest run_pass plan_pass should_poll account_all account_pull account_answer
    begin_pass fresh_of storable turned_away upsert_articles count_changed stop_after_embed due_ids
    journal record_success contains Dict.get Dict.put Dict.remove
left_by_health = (refl, refl, refl)

-- The corpus fails at the second source: it and the third were fetched, and nothing is reset.
nothing_rewound :
    let p =
      run_ingest 10 (record ingestor { answers_lookup = λ id. str_eq id "a" }) (some healthy) [] in
    (p.raised ≡ true) × (p.resets ≡ []) × (p.corpus ≡ "a" ∷ [])
unfolding run_ingest run_pass plan_pass should_poll account_all account_pull account_answer
    begin_pass fresh_of storable turned_away upsert_articles count_changed stop_after_embed due_ids
    journal record_success contains Dict.get Dict.put Dict.remove
nothing_rewound = (refl, refl, refl)
