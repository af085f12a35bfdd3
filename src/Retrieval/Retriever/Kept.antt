-- ===== src/Retrieval/Retriever/Kept.antt =====
-- The loop of `_squeeze` in finiexragengine/core/rag/retriever.py: what it keeps and what it drops.
use finiex_ragengine.Prelude.{
  suc, ◌≤◌, ◌<◌, String, ◌≡◌, ◌≢◌, Bool, true, false, not, List, [], ◌∷◌, ◌++◌, length,
  length-append, All, All-imp, All-both, All-append, Pairwise, Pairwise-snoc, ◌==◌, arith, eq_iff,
  Bool-cases, inl, inr,
}
use finiex_ragengine.Retrieval.Corpus.{Floats, ScoredArticle}
use finiex_ragengine.Retrieval.Retriever.{
  RetrievalConfig, Candidate, Squeeze, seen, similar, similar_to_any, squeeze_one, squeeze_from,
  start_squeeze, squeeze,
}

abbrev pub id_of : {F : Type 0} → Candidate F → String
id_of c = c.1.article.article_id

seen_not : (ids : List String) (k j : String) → seen ids k ≡ true → seen ids j ≡ false → k ≢ j
unfolding seen
seen_not ids k j h g e = cc

module _ {F : Type 0} (fl : Floats F) (config : RetrievalConfig F) where
  -- Two kept candidates, the better ranked one first: other articles, and not near-duplicates.
  abbrev pub Apart : Candidate F → Candidate F → Type 0
  Apart a b = (id_of a ≢ id_of b) × (similar fl config b.1 a.1 ≡ false)

  -- The three ways through the loop body.
  pub one-cases :
      (P : Squeeze F × Bool → Type 0) (s : Squeeze F) (c : Candidate F)
      → (seen s.seen_ids (id_of c) ≡ true
          → P (record s { tier_duplicates = suc s.tier_duplicates }, true))
      → (similar_to_any fl config c.1 s.kept ≡ true
          → P (record s { near_duplicates = suc s.near_duplicates }, true))
      → (seen s.seen_ids (id_of c) ≡ false
          → similar_to_any fl config c.1 s.kept ≡ false
          → P (
            record s { seen_ids = id_of c ∷ s.seen_ids; kept = s.kept ++ c ∷ [] },
            not (length (s.kept ++ c ∷ []) == RetrievalConfig.top_k config),
          ))
      → P (squeeze_one fl config s c)
  unfolding squeeze_one
  one-cases P s (tier, hit) f g h = elim (Bool-cases (seen s.seen_ids hit.article.article_id)) [
    | inl e ↦ rw e (f e)
    | inr e ↦ elim (Bool-cases (similar_to_any fl config hit s.kept)) [
      | inl e' ↦ rw (e, e') (g e')
      | inr e' ↦ rw (e, e') (h e e')
    ]
  ]

  -- An invariant of the loop, on its state and what is left of the list: a step that goes on keeps
  -- it, a step that leaves establishes `Q`.
  pub squeeze_from_rule :
      (I : Squeeze F → List (Candidate F) → Type 0) (Q : Squeeze F → Type 0)
      → ((s : Squeeze F) → I s [] → Q s)
      → ((s : Squeeze F) (c : Candidate F) (cs : List (Candidate F))
          → I s (c ∷ cs)
          → let r = squeeze_one fl config s c in (r.1 ≡ true → I r.0 cs) × (r.1 ≡ false → Q r.0))
      → (s : Squeeze F) (cs : List (Candidate F)) → I s cs
      → Q (squeeze_from fl config s cs)
  unfolding squeeze_from
  squeeze_from_rule I Q base f s [] i = base s i
  squeeze_from_rule I Q base f s (c ∷ cs) i =
      let r = squeeze_one fl config s c in
      elim (Bool-cases r.1) [
        | inl e ↦ rw e (squeeze_from_rule I Q base f r.0 cs ((f s c cs i).0 e))
        | inr e ↦ rw e ((f s c cs i).1 e)
      ]

  -- What every step keeps holds after the loop.
  pub squeeze_from_keeps :
      (I : Squeeze F → Type 0)
      → ((s : Squeeze F) (c : Candidate F) → I s → I (squeeze_one fl config s c).0)
      → (s : Squeeze F) (cs : List (Candidate F)) → I s
      → I (squeeze_from fl config s cs)
  squeeze_from_keeps I f =
      squeeze_from_rule (λ s _. I s) I (λ s i. i) λ s c cs i. ((λ _. f s c i), λ _. f s c i)

  pub unlike :
      (hit : ScoredArticle F) (kept : List (Candidate F))
      → similar_to_any fl config hit kept ≡ false
      → All (λ (o : Candidate F). similar fl config hit o.1 ≡ false) kept
  unfolding similar_to_any
  unlike hit [] h = tt
  unlike hit ((t, o) ∷ kept) h = (ground (arith, h), unlike hit kept (ground (arith, h)))

  -- The kept candidates are apart, and `seen_ids` knows each of them.
  abbrev Clean : Squeeze F → Type 0
  Clean s = Pairwise Apart s.kept × All (λ c. seen s.seen_ids (id_of c) ≡ true) s.kept

  one-Clean : (s : Squeeze F) (c : Candidate F) → Clean s → Clean (squeeze_one fl config s c).0
  unfolding seen
  one-Clean s c k =
      one-cases (λ r. Clean r.0) s c (λ _. k) (λ _. k)
        λ new other. (
          Pairwise-snoc Apart s.kept c k.0 (
              All-both _ _ s.kept
                (All-imp _ _ s.kept (λ a h. seen_not s.seen_ids (id_of a) (id_of c) h new) k.1)
                (unlike c.1 s.kept other)),
          All-append _ s.kept (c ∷ []) (All-imp _ _ s.kept (λ a h. ground (arith, h)) k.1)
              (ground (arith, eq_iff (id_of c) (id_of c)), tt),
        )

  -- Any two candidates that `_squeeze` keeps are different articles, and the lower ranked one is
  -- not a near-duplicate of the other.
  pub squeeze-Apart : (cs : List (Candidate F)) → Pairwise Apart (squeeze fl config cs).kept
  unfolding squeeze
  squeeze-Apart cs = (squeeze_from_keeps Clean one-Clean start_squeeze cs (tt, tt)).0

  -- What holds of every candidate holds of the kept ones, and their order is kept.
  pub squeeze-All :
      (P : Candidate F → Type 0) (cs : List (Candidate F))
      → All P cs
      → All P (squeeze fl config cs).kept
  unfolding squeeze
  squeeze-All P cs a =
      squeeze_from_rule (λ s cs. All P s.kept × All P cs) (λ s. All P s.kept) (λ s i. i.0)
        (λ s c cs i.
          let more =
            one-cases (λ r. All P r.0.kept) s c (λ _. i.0) (λ _. i.0)
              λ _ _. All-append P s.kept (c ∷ []) i.0 (i.1.0, tt) in
          ((λ _. (more, i.1.1)), λ _. more))
        start_squeeze cs (tt, a)

  -- Each kept candidate is related to each that is left.
  abbrev Ahead :
      (Candidate F → Candidate F → Type 0) → List (Candidate F) → List (Candidate F) → Type 0
  Ahead R kept cs = All (λ k. All (R k) cs) kept

  pub squeeze-Pairwise :
      (R : Candidate F → Candidate F → Type 0) (cs : List (Candidate F))
      → Pairwise R cs
      → Pairwise R (squeeze fl config cs).kept
  unfolding squeeze
  squeeze-Pairwise R cs p =
      squeeze_from_rule (λ s cs. Pairwise R s.kept × Ahead R s.kept cs × Pairwise R cs)
        (λ s. Pairwise R s.kept) (λ s i. i.0)
        (λ s c cs i.
          let left = All-imp _ _ s.kept (λ k a. a.1) i.1 in
          let step =
            one-cases (λ r. Pairwise R r.0.kept × Ahead R r.0.kept cs) s c (λ _. (i.0, left))
              (λ _. (i.0, left))
              λ _ _. (
                Pairwise-snoc R s.kept c i.0 (All-imp _ _ s.kept (λ k a. a.0) i.1),
                All-append _ s.kept (c ∷ []) left (i.2.0, tt),
              ) in
          ((λ _. (step.0, step.1, i.2.1)), λ _. step.0))
        start_squeeze cs (tt, tt, p)

  -- Where at least one article may be kept, no more than `top_k` are.
  pub length-squeeze :
      (cs : List (Candidate F))
      → 1 ≤ RetrievalConfig.top_k config
      → length (squeeze fl config cs).kept ≤ RetrievalConfig.top_k config
  unfolding squeeze
  length-squeeze cs h =
      let k = RetrievalConfig.top_k config in
      squeeze_from_rule (λ s _. length s.kept < k) (λ s. length s.kept ≤ k)
        (λ s i. omega (arith, i))
        (λ s c cs i.
          one-cases (λ r. (r.1 ≡ true → length r.0.kept < k) × (r.1 ≡ false → length r.0.kept ≤ k))
            s c (λ _. ((λ _. i), λ _. omega (arith, i))) (λ _. ((λ _. i), λ _. omega (arith, i)))
            λ _ _. (
              (λ e. ground (arith, length-append s.kept (c ∷ []), i, e)),
              λ _. omega (arith, length-append s.kept (c ∷ []), i),
            ))
        start_squeeze cs (omega (arith, h))
