-- ===== src/Retrieval/Retriever/Admitted.antt =====
-- What `retrieve` of finiexragengine/core/rag/retriever.py returns.
use finiex_ragengine.Prelude.{◌≤◌, String, ◌≡◌, sym, ap, true, List, map, length, All, Pairwise}
use finiex_ragengine.Errors.{Fallible, gives, ◌>>=◌, >>=-gives, gives-injective}
use finiex_ragengine.Retrieval.Retriever.{
  RetrievalConfig, Candidate, RetrievedContext, Surroundings, rank_le, squeeze, retrieved_of,
  on_topic, candidates_of, ranked, context_of, retrieve,
}
use finiex_ragengine.Retrieval.Retriever.Kept.{
  Apart, squeeze-Apart, squeeze-All, squeeze-Pairwise, length-squeeze,
}
use finiex_ragengine.Retrieval.Retriever.Search.{InWindow, AllFetched, candidates_of-Fetched}
use finiex_ragengine.Retrieval.Retriever.Ranking.{
  floor, ranked-All, ranked-on_topic, ranked-InOrder,
}

module _ {F : Type 0} (env : Surroundings F) (config : RetrievalConfig F) (v : List F) where
  -- What a retrieval promises of the candidates that its articles are of.
  pub record IsSqueezed (kept : List (Candidate F)) : Type 0 where
    pub in_window : All (InWindow env config v) kept
    pub relevant : All (λ c. on_topic (floor env config) c ≡ true) kept
    pub apart : Pairwise (Apart (Surroundings.floats env) config) kept
    pub in_order : Pairwise (λ a b. rank_le (Surroundings.round4 env) a b ≡ true) kept
    pub capped : length kept ≤ RetrievalConfig.top_k config

  abbrev kept_of : List (Candidate F) → List (Candidate F)
  kept_of cs = (squeeze (Surroundings.floats env) config (ranked env config cs)).kept

  kept_of-IsSqueezed :
      (cs : List (Candidate F))
      → 1 ≤ RetrievalConfig.top_k config
      → All (InWindow env config v) cs
      → IsSqueezed (kept_of cs)
  kept_of-IsSqueezed cs h a =
      let fl = Surroundings.floats env in
      let l = ranked env config cs in
      record {
        in_window =
            squeeze-All fl config (InWindow env config v) l
              (ranked-All env config (InWindow env config v) cs a);
        relevant =
            squeeze-All fl config (λ c. on_topic (floor env config) c ≡ true) l
              (ranked-on_topic env config cs);
        apart = squeeze-Apart fl config l;
        in_order =
            squeeze-Pairwise fl config (λ a b. rank_le (Surroundings.round4 env) a b ≡ true) l
              (ranked-InOrder env config cs);
        capped = length-squeeze fl config l h;
      }

module _ {F : Type 0} (env : Surroundings F) (config : RetrievalConfig F) where
  -- A retrieval that returns comes from the query's vector and from rows of the corpus: each in the
  -- window of its tier, and of that tier's least importance.
  pub retrieve_from :
      (q : String) (ctx : RetrievedContext)
      → retrieve env config q ≡ gives ctx
      → (v : List F) × (Surroundings.get_vector env q ≡ gives v)
        × ((cs : List (Candidate F)) × AllFetched env config v cs
            × (context_of env config cs ≡ ctx))
  unfolding retrieve
  retrieve_from q ctx h =
      let done : List (Candidate F) → Fallible RetrievedContext =
        λ cs. gives (context_of env config cs) in
      let v =
        >>=-gives (Surroundings.get_vector env q) (λ v. candidates_of env config v >>= done) h in
      let c = >>=-gives (candidates_of env config v.0) done v.2 in
      (v.0, v.1, (c.0, candidates_of-Fetched env config v.0 c.0 c.1, gives-injective c.2))

  -- Where at least one article may be kept, what a retrieval returns are the articles of rows of the
  -- corpus, each at its distance from the query's vector and with its own importance. They were
  -- published inside the window of their tier (through the deep tier only with its least importance),
  -- lie within the relevance floor, are different articles and no near-duplicates of one another, and
  -- stand in rank order: at most `top_k`.
  pub retrieve-IsSqueezed :
      (q : String) (ctx : RetrievedContext)
      → 1 ≤ RetrievalConfig.top_k config
      → retrieve env config q ≡ gives ctx
      → (v : List F) × (Surroundings.get_vector env q ≡ gives v)
        × ((kept : List (Candidate F)) × IsSqueezed env config v kept
            × (ctx.retrieved ≡ map retrieved_of kept))
  unfolding context_of
  retrieve-IsSqueezed q ctx h e =
      let (v, vector, (cs, fetched, same)) = retrieve_from q ctx e in
      (
        v,
        vector,
        (
          kept_of env config v cs,
          kept_of-IsSqueezed env config v cs h fetched.0,
          sym (ap (λ c. c.retrieved) same),
        ),
      )
