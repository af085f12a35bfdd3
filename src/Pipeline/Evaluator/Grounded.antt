-- ===== src/Pipeline/Evaluator/Grounded.antt =====
-- What an evaluation of finiexragengine/core/pipeline/symbol_evaluator.py rests on.
use finiex_ragengine.Prelude.{
  ℕ, ◌/◌, ◌≤◌, max, ◌⊎◌, inl, inr, All, Bool-cases, arith, String, ◌≡◌, refl, sym, ap, false, some,
  List, [], ◌∷◌, map, leb,
}
use finiex_ragengine.Errors.{Fallible, gives, ◌>>=◌, >>=-gives, gives-injective}
use finiex_ragengine.Outcome.{RetrievalFunnel}
use finiex_ragengine.Retrieval.Corpus.{Article}
use finiex_ragengine.Retrieval.Retriever.{RetrievedArticle, RetrievedContext}
use finiex_ragengine.Pipeline.Evaluator.{
  SymbolEval, SymbolEvaluator, SentimentLlmOutput, LlmCompletion, total_tokens, evidence_as_of,
  newest, articles_of, ref_of, no_data_eval, scored_row, as_parse_error, scored_eval, evaluate_on,
  evaluate,
}

-- An evaluation as its context allows it.
abbrev pub Scored : SymbolEvaluator → String → RetrievedContext → SymbolEval → Type 0
Scored e symbol context ev =
    (scored : SentimentLlmOutput) × (ev.result
      ≡ scored_row e.breaking_threshold symbol scored context)

scored_eval-Scored :
    (e : SymbolEvaluator) (symbol query : String) (context : RetrievedContext) (ev : SymbolEval)
    → scored_eval e symbol query context ≡ gives ev
    → Scored e symbol context ev × (ev.retrieval ≡ some context.funnel)
unfolding scored_eval
scored_eval-Scored e symbol query context ev h =
    let last : String → LlmCompletion → SentimentLlmOutput → Fallible SymbolEval =
      λ prompt completion scored. gives (record {
        result = scored_row e.breaking_threshold symbol scored context;
        prompt = prompt;
        usage = completion.usage;
        articles = articles_of context;
        raw_output = completion.data_json;
        model_snapshot = completion.model;
        retrieval = some context.funnel;
      }) in
    let after_prompt : String → LlmCompletion → Fallible SymbolEval = λ prompt completion.
      as_parse_error (e.validate completion.data_json) >>= last prompt completion in
    let p =
      >>=-gives (e.build query context)
        (λ prompt. e.complete_structured prompt >>= after_prompt prompt) h in
    let c = >>=-gives (e.complete_structured p.0) (after_prompt p.0) p.2 in
    let s = >>=-gives (as_parse_error (e.validate c.0.data_json)) (last p.0 c.0) c.2 in
    let same = gives-injective s.2 in
    (
      (s.0, sym (ap (λ (x : SymbolEval). x.result) same)),
      sym (ap (λ (x : SymbolEval). x.retrieval) same),
    )

-- One of the articles was fetched at an instant.
abbrev FetchedAt : ℕ → List Article → Type 0
FetchedAt t [] = ⊥
FetchedAt t (a ∷ more) = (a.fetched_at ≡ t) ⊎ FetchedAt t more

-- The instant at which the last of the articles was fetched.
abbrev pub IsNewest : ℕ → List Article → Type 0
IsNewest t articles = All (λ a. a.fetched_at ≤ t) articles × FetchedAt t articles

newest_bounds :
    (t : ℕ) (more : List Article)
    → (t ≤ newest t more)
      × All (λ a. a.fetched_at ≤ newest t more) more
      × ((t ≡ newest t more) ⊎ FetchedAt (newest t more) more)
newest_bounds t [] = (omega arith, tt, inl refl)
newest_bounds t (a ∷ more) =
    let (le, all, which) = newest_bounds (max t a.fetched_at) more in
    let last = newest (max t a.fetched_at) more in
    let here : (t ≡ last) ⊎ ((a.fetched_at ≡ last) ⊎ FetchedAt last more) = elim which [
      | inl e ↦ elim (Bool-cases (leb a.fetched_at t)) [
        | inl h ↦ inl (ground (arith, e, h))
        | inr h ↦ inr (inl (ground (arith, e, h)))
      ]
      | inr later ↦ inr (inr later)
    ] in
    (omega (arith, le), (omega (arith, le), all), here)

newest-IsNewest :
    (a : Article) (more : List Article) → IsNewest (newest a.fetched_at more) (a ∷ more)
newest-IsNewest a more =
    let (le, all, which) = newest_bounds a.fetched_at more in ((le, all), which)

-- What the row claims, by whether there was an article to read.
abbrev pub Grounded : SymbolEvaluator → List RetrievedArticle → SymbolEval → Type 0
Grounded e [] ev =
    (ev.result.basis ≡ "no_data")
    × (ev.result.signal ≡ "HOLD")
    × (ev.result.is_breaking ≡ false)
    × (total_tokens ev.usage ≡ 0)
    × (ev.raw_output ≡ "")
Grounded e (r ∷ rs) ev =
    (ev.result.basis ≡ "llm")
    × (ev.result.is_breaking ≡ leb e.breaking_threshold ev.result.urgency)
    × ((t : ℕ) × (ev.result.evidence_as_of ≡ some (t / 1000))
        × IsNewest t (map (λ (x : RetrievedArticle). x.article) (r ∷ rs)))

no_data_row :
    (symbol : String) (funnel : RetrievalFunnel)
    → let ev = no_data_eval symbol funnel in
      (ev.result.sources ≡ [])
      × (ev.result.symbol ≡ symbol)
      × (ev.retrieval ≡ some funnel)
      × ((ev.result.basis ≡ "no_data")
          × (ev.result.signal ≡ "HOLD")
          × (ev.result.is_breaking ≡ false)
          × (total_tokens ev.usage ≡ 0)
          × (ev.raw_output ≡ ""))
unfolding no_data_eval total_tokens
no_data_row symbol funnel = (refl, refl, refl, (refl, refl, refl, refl, refl))

scored_row_claims :
    (threshold : ℕ) (symbol : String) (scored : SentimentLlmOutput) (context : RetrievedContext)
    (articles : List RetrievedArticle)
    → context.retrieved ≡ articles
    → let r = scored_row threshold symbol scored context in
      (r.sources ≡ map ref_of articles)
      × (r.symbol ≡ symbol)
      × (r.basis ≡ "llm")
      × (r.is_breaking ≡ leb threshold r.urgency)
      × (r.evidence_as_of ≡ evidence_as_of (map (λ (x : RetrievedArticle). x.article) articles))
unfolding scored_row
scored_row_claims threshold symbol scored context articles q = (
  ap (map ref_of) q,
  refl,
  refl,
  refl,
  ap (λ rs. evidence_as_of (map (λ (x : RetrievedArticle). x.article) rs)) q,
)

evaluate_on-Grounded :
    (e : SymbolEvaluator) (symbol query : String) (context : RetrievedContext)
    (articles : List RetrievedArticle) (ev : SymbolEval)
    → context.retrieved ≡ articles
    → evaluate_on e symbol query context articles ≡ gives ev
    → (ev.result.sources ≡ map ref_of articles)
      × (ev.result.symbol ≡ symbol)
      × (ev.retrieval ≡ some context.funnel)
      × Grounded e articles ev
unfolding evaluate_on evidence_as_of
evaluate_on-Grounded e symbol query context [] ev q h =
    let same : no_data_eval symbol context.funnel ≡ ev = gives-injective h in
    rw (sym same) (no_data_row symbol context.funnel)
evaluate_on-Grounded e symbol query context (r ∷ rs) ev q h =
    let s = scored_eval-Scored e symbol query context ev h in
    let row = scored_row_claims e.breaking_threshold symbol s.0.0 context (r ∷ rs) q in
    (
      rw s.0.1 row.0,
      rw s.0.1 row.1,
      s.1,
      (
        rw s.0.1 row.2,
        rw s.0.1 row.3,
        (
          newest r.article.fetched_at (map (λ (x : RetrievedArticle). x.article) rs),
          rw s.0.1 row.4,
          newest-IsNewest r.article (map (λ (x : RetrievedArticle). x.article) rs),
        ),
      ),
    )

-- An evaluation that returns rests on one retrieval. Its row is the symbol's and cites exactly the
-- retrieved articles. Without an article it is the mechanical HOLD: not breaking, no tokens, no raw
-- output. With one it is the model's: breaking exactly where its urgency reaches the threshold, and
-- dated, in milliseconds, by the instant at which the last fetched of its articles was fetched.
pub evaluate-Grounded :
    (e : SymbolEvaluator) (symbol query : String) (ev : SymbolEval)
    → evaluate e symbol query ≡ gives ev
    → (context : RetrievedContext) × (e.retrieve query ≡ gives context)
      × (ev.result.sources ≡ map ref_of context.retrieved)
      × (ev.result.symbol ≡ symbol)
      × (ev.retrieval ≡ some context.funnel)
      × Grounded e context.retrieved ev
unfolding evaluate
evaluate-Grounded e symbol query ev h =
    let after : RetrievedContext → Unit {0} → Fallible SymbolEval =
      λ c known. evaluate_on e symbol query c c.retrieved in
    let c = >>=-gives (e.retrieve query) (λ (c : RetrievedContext). e.metadata >>= after c) h in
    let m = >>=-gives e.metadata (after c.0) c.2 in
    let g = evaluate_on-Grounded e symbol query c.0 c.0.retrieved ev refl m.2 in
    (c.0, c.1, g.0, g.1, g.2, g.3)
