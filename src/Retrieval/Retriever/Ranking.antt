-- ===== src/Retrieval/Retriever/Ranking.antt =====
-- The order of `_rank_key` and the relevance floor in finiexragengine/core/rag/retriever.py.
use finiex_ragengine.Prelude.{
  ℕ, ◌≡◌, Bool, true, false, Option, List, All, keep_if-All, keep_if_holds, Pairwise, arith, leb,
}
use finiex_ragengine.Prelude.Sort.{sort_by-All, sort_by-Sorted}
use finiex_ragengine.Retrieval.Retriever.{
  RetrievalConfig, Candidate, Surroundings, tier_rank, importance_rank, lex, rank_le, on_topic,
  apply_floor, ranked,
}

lex_total : (a b : ℕ) (r s : Bool) → (r ≡ false → s ≡ true) → lex a b r ≡ false → lex b a s ≡ true
lex_total a b r s f h = ground (arith, f, h)

lex_trans :
    (a b c : ℕ) (r s t : Bool)
    → (r ≡ true → s ≡ true → t ≡ true)
    → lex a b r ≡ true
    → lex b c s ≡ true
    → lex a c t ≡ true
lex_trans a b c r s t f h g = ground (arith, f, h, g)

module _ {F : Type 0} (round4 : ℕ → ℕ) where
  rank_le_total : (a b : Candidate F) → rank_le round4 a b ≡ false → rank_le round4 b a ≡ true
  unfolding rank_le
  rank_le_total (s, a) (t, b) =
      let i = importance_rank a.importance in
      let j = importance_rank b.importance in
      let v = a.article.source_weight in
      let w = b.article.source_weight in
      lex_total (tier_rank s) (tier_rank t)
        (lex (round4 a.distance) (round4 b.distance) (lex w v (leb j i)))
        (lex (round4 b.distance) (round4 a.distance) (lex v w (leb i j)))
        (lex_total (round4 a.distance) (round4 b.distance) (lex w v (leb j i)) (lex v w (leb i j))
          (lex_total w v (leb j i) (leb i j) λ h. ground (arith, h)))

  rank_le_trans :
      (a b c : Candidate F)
      → rank_le round4 a b ≡ true
      → rank_le round4 b c ≡ true
      → rank_le round4 a c ≡ true
  unfolding rank_le
  rank_le_trans (s, a) (t, b) (u, c) =
      let i = importance_rank a.importance in
      let j = importance_rank b.importance in
      let k = importance_rank c.importance in
      let x = round4 a.distance in
      let y = round4 b.distance in
      let z = round4 c.distance in
      let u' = a.article.source_weight in
      let v = b.article.source_weight in
      let w = c.article.source_weight in
      lex_trans (tier_rank s) (tier_rank t) (tier_rank u) (lex x y (lex v u' (leb j i)))
        (lex y z (lex w v (leb k j))) (lex x z (lex w u' (leb k i)))
        (lex_trans x y z (lex v u' (leb j i)) (lex w v (leb k j)) (lex w u' (leb k i))
          λ h g. lex_trans w v u' (leb k j) (leb j i) (leb k i) (λ f e. ground (arith, e, f)) g h)

module _ {F : Type 0} (env : Surroundings F) (config : RetrievalConfig F) where
  abbrev pub floor : Option ℕ
  floor = RetrievalConfig.floor_distance config

  pub ranked-All :
      (P : Candidate F → Type 0) (cs : List (Candidate F)) → All P cs → All P (ranked env config cs)
  unfolding ranked apply_floor
  ranked-All P cs a =
      sort_by-All (rank_le (Surroundings.round4 env)) P (apply_floor floor cs)
        (keep_if-All P (on_topic floor) cs a)

  pub ranked-on_topic :
      (cs : List (Candidate F)) → All (λ c. on_topic floor c ≡ true) (ranked env config cs)
  unfolding ranked apply_floor
  ranked-on_topic cs =
      sort_by-All (rank_le (Surroundings.round4 env)) (λ c. on_topic floor c ≡ true)
        (apply_floor floor cs) (keep_if_holds (on_topic floor) cs)

  pub ranked-InOrder :
      (cs : List (Candidate F))
      → Pairwise (λ a b. rank_le (Surroundings.round4 env) a b ≡ true) (ranked env config cs)
  unfolding ranked
  ranked-InOrder cs =
      let r = Surroundings.round4 env in
      sort_by-Sorted (rank_le r) (rank_le_total r) (rank_le_trans r) (apply_floor floor cs)
