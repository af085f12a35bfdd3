-- ===== src/Retrieval/Retriever/Funnel.antt =====
-- The counters that `retrieve` of finiexragengine/core/rag/retriever.py reports.
use finiex_ragengine.Prelude.{
  ℕ, ◌+◌, ◌*◌, ◌≤◌, ◌<◌, String, ◌≡◌, refl, sym, List, [], ◌∷◌, map, length, length-map,
  length-keep_if, arith,
}
use finiex_ragengine.Prelude.Sort.{length-sort_by}
use finiex_ragengine.Errors.{gives}
use finiex_ragengine.Outcome.{RetrievalFunnel}
use finiex_ragengine.Retrieval.Retriever.{
  RetrievalConfig, RetrievalTier, recent, deep, Candidate, RetrievedArticle, RetrievedContext,
  Surroundings, tier_rank, rank_le, squeeze, retrieved_of, count_deep, on_topic, apply_floor,
  ranked, context_of, retrieve,
}
use finiex_ragengine.Retrieval.Retriever.Dropped.{squeeze_total}
use finiex_ragengine.Retrieval.Retriever.Admitted.{retrieve_from}

tier_rank-le : (t : RetrievalTier) → tier_rank t ≤ 1
unfolding tier_rank
tier_rank-le recent = omega arith
tier_rank-le deep = omega arith

count_deep-le : (rs : List RetrievedArticle) → count_deep rs ≤ length rs
unfolding count_deep
count_deep-le [] = omega arith
count_deep-le (r ∷ rs) = omega (arith, tier_rank-le r.retrieval_tier, count_deep-le rs)

-- The parts of a funnel.
abbrev pub parts : RetrievalFunnel → ℕ
parts f = f.floor_dropped + f.tier_duplicates + f.near_duplicates + f.kept

module _ {F : Type 0} (env : Surroundings F) (config : RetrievalConfig F) where
  length-ranked :
      (cs : List (Candidate F))
      → length (ranked env config cs)
        ≡ length (apply_floor (RetrievalConfig.floor_distance config) cs)
  unfolding ranked
  length-ranked cs =
      length-sort_by (rank_le (Surroundings.round4 env))
        (apply_floor (RetrievalConfig.floor_distance config) cs)

  context_of_funnel :
      (cs : List (Candidate F))
      → let ctx = context_of env config cs in
        (parts ctx.funnel ≤ ctx.funnel.in_window)
        × (ctx.funnel.kept < RetrievalConfig.top_k config → parts ctx.funnel ≡ ctx.funnel.in_window)
        × (ctx.funnel.deep_kept ≤ ctx.funnel.kept)
  unfolding context_of apply_floor
  context_of_funnel cs =
      let s = squeeze (Surroundings.floats env) config (ranked env config cs) in
      let count = squeeze_total (Surroundings.floats env) config (ranked env config cs) in
      let n = length-ranked cs in
      let m = length-map {B = RetrievedArticle} retrieved_of s.kept in
      let le = length-keep_if (on_topic (RetrievalConfig.floor_distance config)) cs in
      (
        omega (arith, count.0, n, m, le),
        (λ h. omega (arith, count.1, n, m, le, h)),
        count_deep-le (map retrieved_of s.kept),
      )

  -- The counters of a retrieval's funnel: what the floor dropped, the duplicates of both kinds and
  -- what was kept are together at most the candidates of the windows, and exactly those where fewer
  -- than `top_k` are kept; the windows offer at most four times `top_k`; `kept` is the number of
  -- returned articles, of which `deep_kept` at most are all.
  pub retrieve_funnel :
      (q : String) (ctx : RetrievedContext)
      → retrieve env config q ≡ gives ctx
      → (parts ctx.funnel ≤ ctx.funnel.in_window)
        × (ctx.funnel.kept < RetrievalConfig.top_k config → parts ctx.funnel ≡ ctx.funnel.in_window)
        × (ctx.funnel.in_window ≤ 4 * RetrievalConfig.top_k config)
        × (ctx.funnel.kept ≡ length ctx.retrieved)
        × (ctx.funnel.deep_kept ≤ ctx.funnel.kept)
  unfolding context_of
  retrieve_funnel q ctx e =
      let r = retrieve_from env config q ctx e in
      let c = context_of_funnel r.2.0 in
      let b = r.2.1.1 in rw (sym r.2.2) (c.0, c.1, omega (arith, b), refl, c.2)
