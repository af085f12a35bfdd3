-- ===== src/Retrieval/Retriever/Search.antt =====
-- The candidates that `retrieve` of finiexragengine/core/rag/retriever.py takes from its two windows.
use finiex_ragengine.Prelude.{
  ℕ, ◌+◌, ◌-◌, ◌*◌, ◌≤◌, ◌≡◌, refl, sym, Bool, true, ◌&&◌, Option, none, some, List, [], ◌∷◌, ◌++◌,
  map, take, keep_if, length, length-append, length-map, length-take, All, All-imp, All-append,
  take-All, keep_if_holds, keep_if-All, All-both, arith, leb, InList, inl, inr,
}
use finiex_ragengine.Prelude.Sort.{sort_by, sort_by-All}
use finiex_ragengine.Errors.{FiniexRagError, Fallible, gives, ◌>>=◌, >>=-gives, gives-injective}
use finiex_ragengine.Retrieval.Corpus.{CorpusRow, ScoredArticle, query, important, scored}
use finiex_ragengine.Retrieval.Retriever.{
  RetrievalConfig, DeepTierConfig, RetrievalTier, recent, deep, Candidate, Surroundings,
  micros_per_minute, overfetch, window, deep_window, candidates_of,
}

-- A row of the corpus that the filters let through, as the search found it.
abbrev pub Found :
    {F : Type 0}
    → (List F → List F → ℕ)
    → List F
    → List (CorpusRow F)
    → ℕ
    → Option ℕ
    → ScoredArticle F
    → Type 0
Found {F = F} d v corpus since least hit =
    (row : CorpusRow F) × (hit ≡ scored d v row)
    × InList row corpus
    × (since ≤ row.article.published_at)
    × (important least row.importance ≡ true)

map-All :
    {A B : Type 0} (P : A → Type 0) (Q : B → Type 0) (f : A → B) (xs : List A)
    → ((x : A) → P x → Q (f x))
    → All P xs
    → All Q (map f xs)
map-All P Q f [] h a = tt
map-All P Q f (x ∷ xs) h a = (h x a.0, map-All P Q f xs h a.1)

in_list : {A : Type 0} (xs : List A) → All (λ x. InList x xs) xs
in_list [] = tt
in_list (x ∷ xs) = (inl refl, All-imp _ _ xs (λ y (h : InList y xs). inr h) (in_list xs))

query-Found :
    {F : Type 0} (d : List F → List F → ℕ) (v : List F) (corpus : List (CorpusRow F)) (k since : ℕ)
    (least : Option ℕ) (fault : Option FiniexRagError) (res : List (ScoredArticle F))
    → query d v corpus k since least fault ≡ gives res
    → All (Found d v corpus since least) res × (length res ≤ k)
unfolding query
query-Found d v corpus k since least (some exc) res h = cc
query-Found {F = F} d v corpus k since least none res h =
    let row_ok : CorpusRow F → Bool =
      λ row. leb since row.article.published_at && important least row.importance in
    let rows = keep_if row_ok corpus in
    let hits = map (scored d v) rows in
    let le : ScoredArticle F → ScoredArticle F → Bool = λ a b. leb a.distance b.distance in
    let P : ScoredArticle F → Type 0 = Found d v corpus since least in
    let rows_ok =
      All-both _ _ rows (keep_if-All (λ row. InList row corpus) row_ok corpus (in_list corpus))
        (keep_if_holds row_ok corpus) in
    let found =
      map-All _ P (scored d v) rows
        (λ row
            (h : InList row corpus
              × (leb since row.article.published_at && important least row.importance ≡ true)).
          let passed = h.1 in (row, refl, h.0, ground (arith, passed), ground (arith, passed)))
        rows_ok in
    let e : take k (sort_by le hits) ≡ res = gives-injective h in
    rw (sym e) (
      take-All P k (sort_by le hits) (sort_by-All le P hits found),
      length-take k (sort_by le hits),
    )

module _ {F : Type 0} (env : Surroundings F) (config : RetrievalConfig F) (v : List F) where
  abbrev since : ℕ → ℕ
  since minutes = Surroundings.now env - minutes * micros_per_minute

  abbrev FoundSince : ℕ → Option ℕ → ScoredArticle F → Type 0
  FoundSince minutes least hit =
      Found (Surroundings.distance_to env) v (Surroundings.corpus env) (since minutes) least hit

  abbrev InDeep : Option DeepTierConfig → ScoredArticle F → Type 0
  InDeep none hit = ⊥
  InDeep (some d) hit = FoundSince d.window_minutes (some d.min_importance) hit

  -- A row of the corpus, at its distance from the query, that was published inside the window of its
  -- tier; through the deep tier only with that tier's least importance.
  abbrev pub InWindow : Candidate F → Type 0
  InWindow (recent, hit) = FoundSince (RetrievalConfig.recency_window_minutes config) none hit
  InWindow (deep, hit) = InDeep (RetrievalConfig.deep_tier config) hit

  tag-All :
      (tier : RetrievalTier) (P : ScoredArticle F → Type 0) (hits : List (ScoredArticle F))
      → ((hit : ScoredArticle F) → P hit → InWindow (tier, hit))
      → All P hits
      → All InWindow (map (λ hit. (tier, hit)) hits)
  tag-All tier P [] f a = tt
  tag-All tier P (x ∷ xs) f a = (f x a.0, tag-All tier P xs f a.1)

  -- Few enough, and each in its window.
  abbrev Fetched : List (Candidate F) → Type 0
  Fetched cs = All InWindow cs × (length cs ≤ RetrievalConfig.top_k config * overfetch)

  window-Fetched :
      (tier : RetrievalTier) (minutes : ℕ) (least : Option ℕ) (fault : Option FiniexRagError)
      (cs : List (Candidate F))
      → ((hit : ScoredArticle F) → FoundSince minutes least hit → InWindow (tier, hit))
      → window env config tier v minutes least fault ≡ gives cs
      → Fetched cs
  unfolding window
  window-Fetched tier minutes least fault cs f h =
      let k = RetrievalConfig.top_k config * overfetch in
      let d = Surroundings.distance_to env in
      let rows = Surroundings.corpus env in
      let tagged : List (ScoredArticle F) → Fallible (List (Candidate F)) =
        λ hits. gives (map (λ hit. (tier, hit)) hits) in
      let q = >>=-gives (query d v rows k (since minutes) least fault) tagged h in
      let a = query-Found d v rows k (since minutes) least fault q.0 q.1 in
      let e : map (λ hit. (tier, hit)) q.0 ≡ cs = gives-injective q.2 in
      rw (sym e) (
        tag-All tier (FoundSince minutes least) q.0 f a.0,
        omega (arith, a.1, length-map {B = Candidate F} (λ hit. (tier, hit)) q.0),
      )

  deep-Fetched :
      (d : Option DeepTierConfig) (cs : List (Candidate F))
      → RetrievalConfig.deep_tier config ≡ d
      → deep_window env config v d ≡ gives cs
      → Fetched cs
  unfolding deep_window
  deep-Fetched none cs e h = let q : [] ≡ cs = gives-injective h in rw (sym q) (tt, omega arith)
  deep-Fetched (some d) cs e h =
      window-Fetched deep d.window_minutes (some d.min_importance) (Surroundings.deep_fault env) cs
        (λ hit f. rw e f) h

  abbrev pub AllFetched : List (Candidate F) → Type 0
  AllFetched cs =
      All InWindow cs
      × (length cs
          ≤ RetrievalConfig.top_k config * overfetch + RetrievalConfig.top_k config * overfetch)

  pub candidates_of-Fetched :
      (cs : List (Candidate F)) → candidates_of env config v ≡ gives cs → AllFetched cs
  unfolding candidates_of
  candidates_of-Fetched cs h =
      let minutes = RetrievalConfig.recency_window_minutes config in
      let fault = Surroundings.recent_fault env in
      let with_deep : List (Candidate F) → List (Candidate F) → Fallible (List (Candidate F)) =
        λ x y. gives (x ++ y) in
      let window_deep = deep_window env config v (RetrievalConfig.deep_tier config) in
      let broad =
        >>=-gives (window env config recent v minutes none fault) (λ x. window_deep >>= with_deep x)
          h in
      let old = >>=-gives window_deep (with_deep broad.0) broad.2 in
      let a = window-Fetched recent minutes none fault broad.0 (λ hit f. f) broad.1 in
      let b = deep-Fetched (RetrievalConfig.deep_tier config) old.0 refl old.1 in
      let e : broad.0 ++ old.0 ≡ cs = gives-injective old.2 in
      rw (sym e) (
        All-append InWindow broad.0 old.0 a.0 b.0,
        omega (arith, a.1, b.1, length-append broad.0 old.0),
      )
