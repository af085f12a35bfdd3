-- ===== src/Examples/Retrievals.antt =====
-- A retrieval from a small corpus, its vectors and arithmetic over the natural numbers.
use finiex_ragengine.Prelude.{
  ℕ, ◌+◌, ◌*◌, ◌<◌, ◌≡◌, refl, String, Option, none, some, List, [], ◌∷◌, map, length, arith, All,
  leb, ◌==◌,
}
use finiex_ragengine.Prelude.Sort.{sort_by, insert_by}
use finiex_ragengine.Errors.{gives}
use finiex_ragengine.Prelude.Int.{pos}
use finiex_ragengine.Pipeline.Evaluator.{
  SentimentLlmOutput, SymbolEval, SymbolEvaluator, articles_of, ref_of, scored_row, evaluate,
}
use finiex_ragengine.Pipeline.Evaluator.Grounded.{Grounded, evaluate-Grounded}
use finiex_ragengine.Retrieval.Corpus.{Article, Floats, CorpusRow, ScoredArticle}
use finiex_ragengine.Retrieval.Retriever.{
  RetrievalConfig, recent, deep, Candidate, RetrievedArticle, RetrievedContext, Surroundings,
  similar, squeeze_one, squeeze, retrieved_of, candidates_of, context_of, retrieve,
}
use finiex_ragengine.Retrieval.Retriever.Dropped.{Accounted, squeeze_accounts}
use finiex_ragengine.Retrieval.Retriever.Admitted.{IsSqueezed, retrieve-IsSqueezed}

abbrev naturals : Floats ℕ
naturals = record {
  nought = 0;
  add = λ a b. a + b;
  mul = λ a b. a * b;
  div = λ a b. a;
  sqrt = λ a. a;
  equal = λ a b. a == b;
  at_least = λ a b. leb b a;
}

abbrev pub article_at : String → ℕ → Article
article_at id published = record {
  article_id = id;
  source_id = "feed";
  source_weight = 1;
  url = "u";
  title = "t";
  summary = "s";
  published_at = published;
  fetched_at = published;
}

abbrev row_at : String → ℕ → List ℕ → Option ℕ → CorpusRow ℕ
row_at id published embedding importance = record {
  article = article_at id published;
  embedding = embedding;
  importance = importance;
}

-- The distance of two vectors is, here, the first place of the row's.
abbrev first : List ℕ → List ℕ → ℕ
first [] v = 0
first (x ∷ a) v = x

-- "b" repeats the story of "a"; "c" is older than the broad window and important; "d" is off topic.
abbrev env : Surroundings ℕ
env = record {
  floats = naturals;
  round4 = λ d. d;
  distance_to = first;
  get_vector = λ q. gives (1 ∷ []);
  corpus =
      row_at "a" 590_000_000 (3 ∷ 0 ∷ []) none
      ∷ row_at "b" 595_000_000 (4 ∷ 0 ∷ []) none
      ∷ row_at "c" 100_000_000 (0 ∷ 1 ∷ []) (some 3)
      ∷ row_at "d" 599_000_000 (9 ∷ 0 ∷ []) (some 2)
      ∷ [];
  now = 600_000_000;
  recent_fault = none;
  deep_fault = none;
}

abbrev config : RetrievalConfig ℕ
config = record {
  top_k = 3;
  recency_window_minutes = 1;
  dedup_similarity = 10;
  floor_distance = some 5;
  deep_tier = some (record { min_importance = 2; window_minutes = 10 });
}

abbrev hit_at : String → ℕ → List ℕ → Option ℕ → ℕ → ScoredArticle ℕ
hit_at id published embedding importance distance = record {
  article = article_at id published;
  distance = distance;
  embedding = embedding;
  importance = importance;
}

abbrev fetched : List (Candidate ℕ)
fetched =
    (recent, hit_at "a" 590_000_000 (3 ∷ 0 ∷ []) none 3)
    ∷ (recent, hit_at "b" 595_000_000 (4 ∷ 0 ∷ []) none 4)
    ∷ (recent, hit_at "d" 599_000_000 (9 ∷ 0 ∷ []) (some 2) 9)
    ∷ (deep, hit_at "c" 100_000_000 (0 ∷ 1 ∷ []) (some 3) 0)
    ∷ (deep, hit_at "d" 599_000_000 (9 ∷ 0 ∷ []) (some 2) 9)
    ∷ []

returns : retrieve env config "Bitcoin" ≡ gives (context_of env config fetched)
unfolding retrieve candidates_of sort_by insert_by
returns = refl

abbrev id : RetrievedArticle → String
id r = r.article.article_id

ids : map id (context_of env config fetched).retrieved ≡ "a" ∷ "c" ∷ []
unfolding context_of sort_by insert_by squeeze_one similar
ids = refl

retrieve-IsSqueezed_example :
    (v : List ℕ) × (env.get_vector "Bitcoin" ≡ gives v)
    × ((kept : List (Candidate ℕ)) × IsSqueezed env config v kept
        × ((context_of env config fetched).retrieved ≡ map retrieved_of kept))
retrieve-IsSqueezed_example =
    retrieve-IsSqueezed env config "Bitcoin" (context_of env config fetched) (omega arith) returns

few : length (squeeze naturals (record config { top_k = 9 }) fetched).kept < 9
unfolding squeeze squeeze_one similar
few = ground arith

squeeze_accounts_example :
    All
      (Accounted naturals
        (record config { top_k = 9 })
        (squeeze naturals (record config { top_k = 9 }) fetched).kept)
      fetched
squeeze_accounts_example = squeeze_accounts naturals (record config { top_k = 9 }) fetched few

abbrev scores : SentimentLlmOutput
scores = record {
  signal = "BUY";
  sentiment_score = pos 40;
  confidence = 80;
  reasoning = "rate cut";
  urgency = 85;
  breaking_reason = none;
}

abbrev evaluator : SymbolEvaluator
evaluator = record {
  retrieve = λ query. retrieve env config query;
  metadata = gives tt;
  build = λ query context. gives "prompt";
  complete_structured = λ prompt. gives (record {
    data_json = "{}";
    usage = record { prompt_tokens = 100; completion_tokens = 20 };
    model = "small-1";
  });
  validate = λ json. gives scores;
  breaking_threshold = 80;
}

abbrev evaluated : SymbolEval
evaluated = record {
  result = scored_row 80 "BTCUSD" scores (context_of env config fetched);
  prompt = "prompt";
  usage = record { prompt_tokens = 100; completion_tokens = 20 };
  articles = articles_of (context_of env config fetched);
  raw_output = "{}";
  model_snapshot = "small-1";
  retrieval = some (context_of env config fetched).funnel;
}

evaluates : evaluate evaluator "BTCUSD" "Bitcoin" ≡ gives evaluated
unfolding evaluate retrieve candidates_of context_of sort_by insert_by squeeze_one similar
evaluates = refl

evaluate-Grounded_example :
    (context : RetrievedContext) × (retrieve env config "Bitcoin" ≡ gives context)
    × (evaluated.result.sources ≡ map ref_of context.retrieved)
    × (evaluated.result.symbol ≡ "BTCUSD")
    × (evaluated.retrieval ≡ some context.funnel)
    × Grounded evaluator context.retrieved evaluated
evaluate-Grounded_example = evaluate-Grounded evaluator "BTCUSD" "Bitcoin" evaluated evaluates
