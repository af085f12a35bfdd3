-- ===== src/Ingest/Accounting.antt =====
-- The sequential phase of finiexragengine/core/pipeline/ingestor.py, after the fetches: `_run_pass`
-- and `run`.
use finiex_ragengine.Prelude.{
  ℕ, suc, ◌++◌, String, Bool, true, false, not, ◌&&◌, ◌||◌, is_some, ltb, Option, none, some, List,
  [], ◌∷◌, length, if◌then◌else◌,
}
use finiex_ragengine.Retrieval.Corpus.{Article}
use finiex_ragengine.Breaking.Detector.{
  DetectorEnv, DetectionConfig, DetectionResult, detect, no_flags,
}
use finiex_ragengine.Health.{SourceHealthStore}
use finiex_ragengine.Health.Passes.{begin_pass, end_pass}
use finiex_ragengine.Ingest.{
  SourceIngest, Source, FetchedArticle, FetchOutcome, Embedding, Ingestor, AcquisitionPass, Plan,
  plan_pass, suspended, embed_failed, pulled, fetch_failed, budget_exceeded, unreachable, embedded,
}
use finiex_ragengine.Ingest.Books.{
  storable, turned_away, upsert_articles, fresh_of, account_failure, account_answer, add_entry,
  stop_after_embed,
}

-- What the loop does next.
pub data Next : Type 0 where
  goes_on stops : AcquisitionPass → Next

-- The answer of the embedder on the fresh articles.
abbrev pub store_embedded :
    Ingestor → Source → SourceIngest → List Article → Plan → Embedding → AcquisitionPass → Next
store_embedded ing s entry fresh plan budget_exceeded p =
    stops (stop_after_embed entry plan s.source_id suspended (record p { suspended = true }))
store_embedded ing s entry fresh plan unreachable p =
    stops (stop_after_embed entry plan s.source_id embed_failed (record p { embed_failed = true }))
store_embedded ing s entry fresh plan (embedded accepted) p =
    let kept = storable accepted 0 fresh in
    let away = turned_away accepted 0 fresh in
    let (corpus, written) = upsert_articles p.corpus kept in
    if ing.answers_upsert s.source_id
    then goes_on (
        add_entry s.source_id
          (record entry { embedded = length kept; rejected = length away; stored = written })
          (record p {
            corpus = corpus;
            refused = p.refused ++ away;
            detect_batch = p.detect_batch ++ kept;
          }))
    else stops (record p { raised = true })

-- The articles that are new, of which there may be none.
abbrev pub embed_fresh :
    Ingestor → Source → SourceIngest → List Article → Plan → AcquisitionPass → Next
embed_fresh ing s entry [] plan p = goes_on (add_entry s.source_id entry p)
embed_fresh ing s entry (a ∷ more) plan p =
    store_embedded ing s entry (a ∷ more) plan (ing.embed (a ∷ more)) p

unfoldable pub count_changed : List FetchedArticle → ℕ
count_changed [] = 0
count_changed (f ∷ fs) = let n = count_changed fs in if f.changed then suc n else n

-- Whether the health store refuses the outcome of a poll.
abbrev pub health_fails : Ingestor → Source → AcquisitionPass → Bool
health_fails ing s p = is_some p.health && not (ing.answers_health s.source_id)

-- A pass that an error of the health store leaves: what the store was to note did not happen.
abbrev pub abandon : AcquisitionPass → AcquisitionPass → AcquisitionPass
abandon p q = record q { health = p.health; recovered = p.recovered; raised = true }

-- The iteration for a source that was fetched, which is the first of `plan`.
unfoldable pub account_pull : ℕ → Ingestor → Source → Plan → FetchOutcome → AcquisitionPass → Next
unfolding account_failure account_answer fresh_of stop_after_embed storable turned_away
    upsert_articles count_changed
account_pull now ing s plan (fetch_failed duration error_type status) p =
    let q = account_failure now ing s duration error_type status p in
    if health_fails ing s p then stops (abandon p q) else goes_on q
account_pull now ing s plan (pulled duration fetched) p =
    let p' = account_answer now ing s duration fetched p in
    let fresh = fresh_of p'.corpus fetched in
    let entry : SourceIngest = record {
      fetched = length fetched;
      embedded = 0;
      rejected = 0;
      stored = 0;
      normalised = count_changed fetched;
    } in
    if health_fails ing s p
    then stops (abandon p p')
    else if ing.answers_lookup s.source_id
    then embed_fresh ing s entry fresh plan p'
    else stops (record p' { raised = true })

abbrev pub go_on : (AcquisitionPass → AcquisitionPass) → Next → AcquisitionPass
go_on rest (goes_on p) = rest p
go_on rest (stops p) = p

-- The loop of `_run_pass`.
unfoldable pub account_all : ℕ → Ingestor → Plan → AcquisitionPass → AcquisitionPass
unfolding account_pull
account_all now ing [] p = p
account_all now ing ((s, some poll) ∷ plan) p =
    account_all now ing plan (record p { polls = p.polls ++ poll ∷ [] })
account_all now ing ((s, none) ∷ plan) p =
    go_on (λ q. account_all now ing plan q)
      (account_pull now ing s ((s, none) ∷ plan) (ing.fetch s.source_id) p)

abbrev pub run_detector : Option (DetectorEnv × DetectionConfig) → List Article → DetectionResult
run_detector none batch = no_flags
run_detector (some _) [] = no_flags
run_detector (some (env, cfg)) (a ∷ more) = detect env cfg (a ∷ more)

-- Whether the detector is called.
abbrev pub detects : Ingestor → AcquisitionPass → Bool
detects ing p = is_some ing.detector && ltb 0 (length p.detect_batch)

abbrev pub detect_flags : Ingestor → AcquisitionPass → AcquisitionPass
detect_flags ing p =
    let found = run_detector ing.detector p.detect_batch in
    if p.raised
    then p
    else if detects ing p && not ing.answers_detect
    then record p { raised = true }
    else record p {
      candidates = found.candidates;
      flagged = found.flagged;
      max_tier = found.max_tier;
    }

abbrev pub new_pass : Option SourceHealthStore → List String → AcquisitionPass
new_pass health corpus = record {
  health = health;
  corpus = corpus;
  refused = [];
  resets = [];
  samples = [];
  polls = [];
  fetched = 0;
  embedded = 0;
  rejected = 0;
  stored = 0;
  normalised = 0;
  suspended = false;
  embed_failed = false;
  recovered = [];
  detect_batch = [];
  candidates = 0;
  flagged = [];
  max_tier = 0;
  raised = false;
}

-- `_run_pass`
unfoldable pub run_pass : ℕ → Ingestor → Option SourceHealthStore → List String → AcquisitionPass
unfolding plan_pass account_all
run_pass now ing health corpus =
    let (h, plan) = plan_pass now ing.sources health in
    detect_flags ing (account_all now ing plan (new_pass h corpus))

abbrev left_or_ended : ℕ → Option SourceHealthStore → SourceHealthStore → SourceHealthStore
left_or_ended now none h = end_pass now h
left_or_ended now (some left) h = left

abbrev pub close_scope :
    ℕ → Option SourceHealthStore → Option SourceHealthStore → Option SourceHealthStore
close_scope now fault none = none
close_scope now fault (some h) = some (left_or_ended now fault h)

abbrev pub open_scope : Option SourceHealthStore → Option SourceHealthStore
open_scope none = none
open_scope (some h) = some (begin_pass h)

unfoldable pub run_ingest : ℕ → Ingestor → Option SourceHealthStore → List String → AcquisitionPass
unfolding run_pass begin_pass end_pass
run_ingest now ing health corpus =
    let p = run_pass now ing (open_scope health) corpus in
    record p {
      health = close_scope now ing.close_fault p.health;
      raised = p.raised || (is_some p.health && is_some ing.close_fault);
    }
