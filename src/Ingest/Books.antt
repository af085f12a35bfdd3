-- ===== src/Ingest/Books.antt =====
-- The bookkeeping of one source in finiexragengine/core/pipeline/ingestor.py.
use finiex_ragengine.Prelude.{
  ℕ, suc, ◌+◌, ◌++◌, String, Bool, true, false, Option, none, some, List, [], ◌∷◌, length,
  if◌then◌else◌, contains,
}
use finiex_ragengine.Retrieval.Corpus.{Article}
use finiex_ragengine.Health.{SourceHealthStore}
use finiex_ragengine.Health.Passes.{Failure, record_success, record_failure}
use finiex_ragengine.Ingest.{
  PollStatus, SourceIngest, SourcePoll, PollSample, Source, FetchedArticle, Ingestor,
  AcquisitionPass, Plan, ok, failed,
}

-- The fresh articles that got a vector, from a position on, and those that got none.
unfoldable pub storable : (ℕ → Bool) → ℕ → List Article → List Article
storable accepted i [] = []
storable accepted i (a ∷ more) =
    let rest = storable accepted (suc i) more in if accepted i then a ∷ rest else rest

unfoldable pub turned_away : (ℕ → Bool) → ℕ → List Article → List String
turned_away accepted i [] = []
turned_away accepted i (a ∷ more) =
    let rest = turned_away accepted (suc i) more in if accepted i then rest else a.article_id ∷ rest

-- `upsert`: ON CONFLICT (article_id) DO NOTHING, with the count of rows written
unfoldable pub upsert_articles : List String → List Article → List String × ℕ
unfolding contains
upsert_articles corpus [] = (corpus, 0)
upsert_articles corpus (a ∷ more) =
    let (c, n) =
      upsert_articles (if contains corpus a.article_id then corpus else corpus ++ a.article_id ∷ [])
        more in
    (c, if contains corpus a.article_id then n else suc n)

-- The articles that are not in the corpus.
unfoldable pub fresh_of : List String → List FetchedArticle → List Article
unfolding contains
fresh_of corpus [] = []
fresh_of corpus (f ∷ fs) =
    let rest = fresh_of corpus fs in
    if contains corpus f.article.article_id then rest else f.article ∷ rest

abbrev pub poll_of : String → PollStatus → Option SourceIngest → SourcePoll
poll_of id status ingest = record {
  source_id = id;
  status = status;
  ingest = ingest;
  until = none;
  rung = none;
}

unfoldable pub journal : Bool → PollSample → AcquisitionPass → AcquisitionPass
journal journals sample p = if journals then record p { samples = p.samples ++ sample ∷ [] } else p

abbrev pub note_failed : ℕ → Source → Failure → Option SourceHealthStore → Option SourceHealthStore
note_failed now s f none = none
note_failed now s f (some h) = some (record_failure now s.source_id f h)

-- A fetch that raised.
unfoldable pub account_failure :
    ℕ → Ingestor → Source → ℕ → String → Option ℕ → AcquisitionPass → AcquisitionPass
unfolding journal record_failure
account_failure now ing s duration error_type status p =
    let p' =
      journal ing.journals
        (record {
          source_id = s.source_id;
          is_ok = false;
          duration_ms = duration;
          error_type = some error_type;
          status = status;
          articles = 0;
        })
        p in
    let failure : Failure = record {
      error_type = error_type;
      status = status;
      duration_ms = some duration;
      deadline_ms = s.deadline_ms;
    } in
    record p' {
      polls = p'.polls ++ poll_of s.source_id failed none ∷ [];
      health = note_failed now s failure p'.health;
    }

abbrev pub note_recovery : String → AcquisitionPass → SourceHealthStore × Bool → AcquisitionPass
note_recovery id p (h, was_flagged) = record p {
  health = some h;
  recovered = if was_flagged then p.recovered ++ id ∷ [] else p.recovered;
}

abbrev pub note_answer : ℕ → String → Option SourceHealthStore → AcquisitionPass → AcquisitionPass
note_answer now id none p = p
note_answer now id (some h) p = note_recovery id p (record_success now id h)

-- A fetch that answered, before its articles are looked up.
unfoldable pub account_answer :
    ℕ → Ingestor → Source → ℕ → List FetchedArticle → AcquisitionPass → AcquisitionPass
unfolding journal record_success
account_answer now ing s duration fetched p =
    let p' =
      journal ing.journals
        (record {
          source_id = s.source_id;
          is_ok = true;
          duration_ms = duration;
          error_type = none;
          status = none;
          articles = length fetched;
        })
        p in
    note_answer now s.source_id p'.health p'

-- The end of an iteration that was not stopped.
abbrev pub add_entry : String → SourceIngest → AcquisitionPass → AcquisitionPass
add_entry id entry p = record p {
  polls = p.polls ++ poll_of id ok (some entry) ∷ [];
  fetched = p.fetched + entry.fetched;
  embedded = p.embedded + entry.embedded;
  rejected = p.rejected + entry.rejected;
  normalised = p.normalised + entry.normalised;
  stored = p.stored + entry.stored;
}

-- `reset_conditional_get` on every due source of the rest of the plan
unfoldable pub due_ids : Plan → List String
due_ids [] = []
due_ids ((s, none) ∷ plan) = s.source_id ∷ due_ids plan
due_ids ((s, some _) ∷ plan) = due_ids plan

unfoldable pub stop_after_embed :
    SourceIngest → Plan → String → PollStatus → AcquisitionPass → AcquisitionPass
unfolding due_ids
stop_after_embed entry plan id status p = record p {
  polls = p.polls ++ poll_of id status (some (record entry { embedded = 0 })) ∷ [];
  fetched = p.fetched + entry.fetched;
  normalised = p.normalised + entry.normalised;
  resets = p.resets ++ due_ids plan;
}
