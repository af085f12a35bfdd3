-- ===== src/Pipeline/Evaluator.antt =====
-- finiexragengine/core/pipeline/symbol_evaluator.py, with `SymbolEval` of types/eval_types.py and
-- `LlmUsage` of types/llm_types.py: retrieval, prompt, model, row. The prompt's text, the model's
-- completion and the validation of its fields are arguments.
pub mod Grounded
use finiex_ragengine.Prelude.{
  ℕ, ◌+◌, ◌/◌, String, false, Option, none, some, List, [], ◌∷◌, map, max, leb,
}
use finiex_ragengine.Prelude.Int.{ℤ}
use finiex_ragengine.Errors.{ErrorClass, Fallible, gives, raises, ◌>>=◌}
use finiex_ragengine.Outcome.{ArticleRef, SentimentResult, RetrievalFunnel}
use finiex_ragengine.Retrieval.Corpus.{Article}
use finiex_ragengine.Retrieval.Retriever.{
  RetrievalTier, recent, deep, RetrievedArticle, RetrievedContext,
}
use finiex_ragengine.Pipeline.Contract.{hold_row}

pub record LlmUsage : Type 0 where
  pub prompt_tokens : ℕ
  pub completion_tokens : ℕ

unfoldable pub total_tokens : LlmUsage → ℕ
total_tokens u = u.prompt_tokens + u.completion_tokens

-- The scored fields that a completion must have.
pub record SentimentLlmOutput : Type 0 where
  pub signal : String
  pub sentiment_score : ℤ
  pub confidence : ℕ
  pub reasoning : String
  pub urgency : ℕ
  pub breaking_reason : Option String

-- `data` is the JSON object as text, "" where it is empty.
pub record LlmCompletion : Type 0 where
  pub data_json : String
  pub usage : LlmUsage
  pub model : String

-- `stage_timings` are measurements and are left out.
pub record SymbolEval : Type 0 where
  pub result : SentimentResult
  pub prompt : String
  pub usage : LlmUsage
  pub articles : List Article
  pub raw_output : String
  pub model_snapshot : String
  pub retrieval : Option RetrievalFunnel

-- int(max(stamps).timestamp() * 1000) of the articles' fetch times, in milliseconds
abbrev pub newest : ℕ → List Article → ℕ
newest t [] = t
newest t (a ∷ more) = newest (max t a.fetched_at) more

unfoldable pub evidence_as_of : List Article → Option ℕ
evidence_as_of [] = none
evidence_as_of (a ∷ more) = some (newest a.fetched_at more / 1000)

abbrev pub tier_label : RetrievalTier → String
tier_label recent = "recent"
tier_label deep = "deep"

unfoldable pub ref_of : RetrievedArticle → ArticleRef
ref_of r = record {
  article_id = r.article.article_id;
  fetched_at = some r.article.fetched_at;
  published_at = some r.article.published_at;
  retrieval_tier = some (tier_label r.retrieval_tier);
}

abbrev pub articles_of : RetrievedContext → List Article
articles_of context = map (λ (r : RetrievedArticle). r.article) context.retrieved

pub record SymbolEvaluator : Type 0 where
  -- `retrieve` of the retriever
  pub retrieve : String → Fallible RetrievedContext
  -- the reading of the prompt's front matter, which is the runner's `prompt_metadata`
  pub metadata : Fallible (Unit {0})
  -- the prompt for a query and its context
  pub build : String → RetrievedContext → Fallible String
  pub complete_structured : String → Fallible LlmCompletion
  -- `SentimentLlmOutput(**data)`, or the text of the validation error
  pub validate : String → Fallible SentimentLlmOutput
  pub breaking_threshold : ℕ

-- The mechanical row of an empty context.
unfoldable pub no_data_eval : String → RetrievalFunnel → SymbolEval
unfolding hold_row
no_data_eval symbol funnel = record {
  result = hold_row symbol "No relevant news found" "no_data";
  prompt = "";
  usage = record { prompt_tokens = 0; completion_tokens = 0 };
  articles = [];
  raw_output = "";
  model_snapshot = "";
  retrieval = some funnel;
}

unfoldable pub scored_row : ℕ → String → SentimentLlmOutput → RetrievedContext → SentimentResult
unfolding ref_of evidence_as_of
scored_row breaking_threshold symbol scored context = record {
  symbol = symbol;
  signal = scored.signal;
  sentiment_score = scored.sentiment_score;
  confidence = scored.confidence;
  reasoning = scored.reasoning;
  urgency = scored.urgency;
  is_breaking = leb breaking_threshold scored.urgency;
  sources = map ref_of context.retrieved;
  evidence_as_of = evidence_as_of (articles_of context);
  breaking_reason = scored.breaking_reason;
  basis = "llm";
  base_currency = none;
  quote_currency = none;
  breaking_episode_id = none;
  breaking_episode_start = false;
}

-- A schema mismatch is raised as `LLMParseError`.
unfoldable pub as_parse_error : Fallible SentimentLlmOutput → Fallible SentimentLlmOutput
as_parse_error (gives scored) = gives scored
as_parse_error (raises exc) = raises (record exc { error_class = ErrorClass.llm_parse })

unfoldable pub scored_eval :
    SymbolEvaluator → String → String → RetrievedContext → Fallible SymbolEval
unfolding scored_row as_parse_error
scored_eval e symbol query context = do
  prompt ← e.build query context
  completion ← e.complete_structured prompt
  scored ← as_parse_error (e.validate completion.data_json)
  gives (record {
    result = scored_row e.breaking_threshold symbol scored context;
    prompt = prompt;
    usage = completion.usage;
    articles = articles_of context;
    raw_output = completion.data_json;
    model_snapshot = completion.model;
    retrieval = some context.funnel;
  })

-- `if not articles: …`, on the context's articles
unfoldable pub evaluate_on :
    SymbolEvaluator
    → String
    → String
    → RetrievedContext
    → List RetrievedArticle
    → Fallible SymbolEval
unfolding no_data_eval scored_eval
evaluate_on e symbol query context [] = gives (no_data_eval symbol context.funnel)
evaluate_on e symbol query context (_ ∷ _) = scored_eval e symbol query context

unfoldable pub evaluate : SymbolEvaluator → String → String → Fallible SymbolEval
unfolding evaluate_on
evaluate e symbol query = do
  context ← e.retrieve query
  known ← e.metadata
  evaluate_on e symbol query context context.retrieved
