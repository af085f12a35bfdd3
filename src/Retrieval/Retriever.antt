-- ===== src/Retrieval/Retriever.antt =====
-- finiexragengine/core/rag/retriever.py: the candidates of the two windows, the relevance floor, the
-- ranking and the squeeze. `RetrievalConfig` is types/config_types/pipeline_config_types.py.
pub mod Kept
pub mod Dropped
pub mod Ranking
pub mod Search
pub mod Admitted
pub mod Funnel
use finiex_ragengine.Prelude.{
  ℕ, suc, ◌+◌, ◌-◌, ◌*◌, String, Bool, true, false, not, ◌||◌, ◌&&◌, Option, none, some, List, [],
  ◌∷◌, ◌++◌, map, max, min, length, keep_if, leb, ltb, ◌==◌, if◌then◌else◌, str_eq,
}
use finiex_ragengine.Prelude.Sort.{sort_by}
use finiex_ragengine.Errors.{FiniexRagError, Fallible, gives, raises, ◌>>=◌}
use finiex_ragengine.Outcome.{RetrievalFunnel}
use finiex_ragengine.Retrieval.Corpus.{Article, Floats, cosine, CorpusRow, ScoredArticle, query}

pub record DeepTierConfig : Type 0 where
  pub min_importance : ℕ
  pub window_minutes : ℕ

pub record RetrievalConfig (F : Type 0) : Type 0 where
  pub top_k : ℕ
  pub recency_window_minutes : ℕ
  pub dedup_similarity : F
  pub floor_distance : Option ℕ
  pub deep_tier : Option DeepTierConfig

pub data RetrievalTier : Type 0 where
  recent deep : RetrievalTier

abbrev pub Candidate : Type 0 → Type 0
Candidate F = RetrievalTier × ScoredArticle F

pub record RetrievedArticle : Type 0 where
  pub article : Article
  pub retrieval_tier : RetrievalTier

pub record RetrievedContext : Type 0 where
  pub retrieved : List RetrievedArticle
  pub funnel : RetrievalFunnel

abbrev pub micros_per_minute : ℕ
micros_per_minute = 60_000_000

abbrev pub overfetch : ℕ
overfetch = 2

-- `_TIER_RANK`
unfoldable pub tier_rank : RetrievalTier → ℕ
tier_rank recent = 0
tier_rank deep = 1

-- hit.importance, or -1, moved up by one
abbrev pub importance_rank : Option ℕ → ℕ
importance_rank none = 0
importance_rank (some i) = suc i

-- `a < b or (a == b and rest)`: one place of a comparison of tuples
abbrev pub lex : ℕ → ℕ → Bool → Bool
lex a b rest = ltb a b || (a == b && rest)

-- The comparison of two `_rank_key`s; `round4` is `round(…, 4)`.
unfoldable pub rank_le : {F : Type 0} → (ℕ → ℕ) → Candidate F → Candidate F → Bool
unfolding tier_rank
rank_le round4 (s, a) (t, b) = lex (tier_rank s) (tier_rank t) (
    lex (round4 a.distance) (round4 b.distance) (
      lex b.article.source_weight a.article.source_weight
        (leb (importance_rank b.importance) (importance_rank a.importance))))

unfoldable pub seen : List String → String → Bool
seen [] k = false
seen (j ∷ ids) k = str_eq j k || seen ids k

-- What the loop of `_squeeze` carries.
pub record Squeeze (F : Type 0) : Type 0 where
  pub kept : List (Candidate F)
  pub seen_ids : List String
  pub tier_duplicates : ℕ
  pub near_duplicates : ℕ

module _ {F : Type 0} (fl : Floats F) (config : RetrievalConfig F) where
  -- `_cosine(hit.embedding, other.embedding) >= dedup_similarity`
  unfoldable pub similar : ScoredArticle F → ScoredArticle F → Bool
  unfolding cosine
  similar hit other =
      Floats.at_least fl (cosine fl hit.embedding other.embedding)
        (RetrievalConfig.dedup_similarity config)

  -- `any(…)` over the candidates kept so far
  unfoldable pub similar_to_any : ScoredArticle F → List (Candidate F) → Bool
  similar_to_any hit [] = false
  similar_to_any hit ((_, other) ∷ kept) = similar hit other || similar_to_any hit kept

  -- The loop body, and whether the loop goes on.
  unfoldable pub squeeze_one : Squeeze F → Candidate F → Squeeze F × Bool
  unfolding seen similar_to_any
  squeeze_one s (tier, hit) =
      let kept = s.kept ++ (tier, hit) ∷ [] in
      if seen s.seen_ids hit.article.article_id
      then (record s { tier_duplicates = suc s.tier_duplicates }, true)
      else if similar_to_any hit s.kept
      then (record s { near_duplicates = suc s.near_duplicates }, true)
      else (
        record s { seen_ids = hit.article.article_id ∷ s.seen_ids; kept = kept },
        not (length kept == RetrievalConfig.top_k config),
      )

  unfoldable pub squeeze_from : Squeeze F → List (Candidate F) → Squeeze F
  squeeze_from s [] = s
  squeeze_from s (c ∷ ranked) =
      let (s', more) = squeeze_one s c in
      let rest = squeeze_from s' ranked in if more then rest else s'

abbrev pub start_squeeze : {F : Type 0} → Squeeze F
start_squeeze = record { kept = []; seen_ids = []; tier_duplicates = 0; near_duplicates = 0 }

-- `_squeeze`, before it forgets the scores
unfoldable pub squeeze :
    {F : Type 0} → Floats F → RetrievalConfig F → List (Candidate F) → Squeeze F
unfolding squeeze_from
squeeze fl config ranked = squeeze_from fl config start_squeeze ranked

abbrev pub retrieved_of : {F : Type 0} → Candidate F → RetrievedArticle
retrieved_of (tier, hit) = record { article = hit.article; retrieval_tier = tier }

unfoldable pub count_deep : List RetrievedArticle → ℕ
unfolding tier_rank
count_deep [] = 0
count_deep (r ∷ rs) = tier_rank r.retrieval_tier + count_deep rs

-- min(…, default=None) and max(…, default=None) of the distances
abbrev pub pick : (ℕ → ℕ → ℕ) → ℕ → Option ℕ → Option ℕ
pick f x none = some x
pick f x (some y) = some (f x y)

unfoldable pub extreme : {F : Type 0} → (ℕ → ℕ → ℕ) → List (Candidate F) → Option ℕ
extreme f [] = none
extreme f ((_, hit) ∷ cs) = pick f hit.distance (extreme f cs)

-- hit.distance <= floor, where there is a floor
abbrev pub on_topic : {F : Type 0} → Option ℕ → Candidate F → Bool
on_topic none c = true
on_topic (some floor) (_, hit) = leb hit.distance floor

unfoldable pub apply_floor : {F : Type 0} → Option ℕ → List (Candidate F) → List (Candidate F)
unfolding keep_if
apply_floor floor candidates = keep_if (on_topic floor) candidates

-- What `retrieve` calls and reads, and how its three calls fail.
pub record Surroundings (F : Type 0) : Type 0 where
  pub floats : Floats F
  pub round4 : ℕ → ℕ
  pub distance_to : List F → List F → ℕ
  pub get_vector : String → Fallible (List F)
  pub corpus : List (CorpusRow F)
  pub now : ℕ
  pub recent_fault : Option FiniexRagError
  pub deep_fault : Option FiniexRagError

module _ {F : Type 0} (env : Surroundings F) (config : RetrievalConfig F) where
  -- `store.query` with the capped fetch, each hit under the tier
  unfoldable pub window :
      RetrievalTier → List F → ℕ → Option ℕ → Option FiniexRagError → Fallible (List (Candidate F))
  unfolding query
  window tier vector minutes min_importance fault =
      query (Surroundings.distance_to env) vector (Surroundings.corpus env)
        (RetrievalConfig.top_k config * overfetch)
        (Surroundings.now env - minutes * micros_per_minute) min_importance fault
      >>= λ hits. gives (map (λ hit. (tier, hit)) hits)

  unfoldable pub deep_window : List F → Option DeepTierConfig → Fallible (List (Candidate F))
  unfolding window
  deep_window vector none = gives []
  deep_window vector (some d) =
      window RetrievalTier.deep vector d.window_minutes (some d.min_importance)
        (Surroundings.deep_fault env)

  unfoldable pub candidates_of : List F → Fallible (List (Candidate F))
  unfolding window deep_window
  candidates_of vector = do
    broad ←
        window RetrievalTier.recent vector (RetrievalConfig.recency_window_minutes config) none
          (Surroundings.recent_fault env)
    old ← deep_window vector (RetrievalConfig.deep_tier config)
    gives (broad ++ old)

  -- The candidates after the floor, ranked.
  unfoldable pub ranked : List (Candidate F) → List (Candidate F)
  unfolding rank_le apply_floor
  ranked candidates =
      sort_by (rank_le (Surroundings.round4 env))
        (apply_floor (RetrievalConfig.floor_distance config) candidates)

  unfoldable pub context_of : List (Candidate F) → RetrievedContext
  unfolding ranked squeeze count_deep extreme apply_floor
  context_of candidates =
      let s = squeeze (Surroundings.floats env) config (ranked candidates) in
      let retrieved = map retrieved_of s.kept in
      let floor = RetrievalConfig.floor_distance config in
      record {
        retrieved = retrieved;
        funnel = record {
          in_window = length candidates;
          floor_dropped = length candidates - length (apply_floor floor candidates);
          tier_duplicates = s.tier_duplicates;
          near_duplicates = s.near_duplicates;
          kept = length retrieved;
          deep_kept = count_deep retrieved;
          best_distance = extreme min candidates;
          worst_distance = extreme max candidates;
          floor = floor;
        };
      }

  unfoldable pub retrieve : String → Fallible RetrievedContext
  unfolding candidates_of context_of
  retrieve query_text = do
    vector ← Surroundings.get_vector env query_text
    candidates ← candidates_of vector
    gives (context_of candidates)
