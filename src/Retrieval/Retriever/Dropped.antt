-- ===== src/Retrieval/Retriever/Dropped.antt =====
-- The candidates that the loop of `_squeeze` in finiexragengine/core/rag/retriever.py drops, and the
-- counters of the funnel.
use finiex_ragengine.Prelude.{
  ℕ, suc, ◌+◌, ◌≤◌, ◌<◌, String, ◌≡◌, refl, sym, ◌∙◌, true, false, ◌||◌, List, [], ◌∷◌, ◌++◌, map,
  length, length-append, All, arith, eq_iff, Bool-cases, inl, inr, ◌⊎◌,
}
use finiex_ragengine.Retrieval.Corpus.{Floats, ScoredArticle}
use finiex_ragengine.Retrieval.Retriever.{
  RetrievalConfig, Candidate, Squeeze, seen, similar_to_any, squeeze_one, squeeze_from,
  start_squeeze, squeeze,
}
use finiex_ragengine.Retrieval.Retriever.Kept.{id_of, one-cases, squeeze_from_keeps}

seen-append : (xs ys : List String) (k : String) → seen (xs ++ ys) k ≡ (seen xs k || seen ys k)
unfolding seen
seen-append [] ys k = refl
seen-append (x ∷ xs) ys k = ground (arith, seen-append xs ys k)

ids-append :
    {F : Type 0} (xs ys : List (Candidate F)) → map id_of (xs ++ ys) ≡ map id_of xs ++ map id_of ys
ids-append [] ys = refl
ids-append (x ∷ xs) ys = rw (ids-append xs ys)

module _ {F : Type 0} (fl : Floats F) (config : RetrievalConfig F) where
  similar-append :
      (hit : ScoredArticle F) (xs ys : List (Candidate F))
      → similar_to_any fl config hit (xs ++ ys)
        ≡ (similar_to_any fl config hit xs || similar_to_any fl config hit ys)
  unfolding similar_to_any
  similar-append hit [] ys = refl
  similar-append hit ((t, o) ∷ xs) ys = ground (arith, similar-append hit xs ys)

  -- `seen_ids` holds the ids of the kept candidates.
  abbrev InStep : Squeeze F → Type 0
  InStep s = (k : String) → seen s.seen_ids k ≡ seen (map id_of s.kept) k

  one-InStep : (s : Squeeze F) (c : Candidate F) → InStep s → InStep (squeeze_one fl config s c).0
  unfolding seen
  one-InStep s c i =
      one-cases fl config (λ r. InStep r.0) s c (λ _. i) (λ _. i)
        λ _ _ k.
          rw (ids-append s.kept (c ∷ []), seen-append (map id_of s.kept) (id_of c ∷ []) k, i k)
            (ground arith)

  -- Kept, or dropped for a candidate that is kept: the same article, or a near-duplicate of it.
  abbrev pub Accounted : List (Candidate F) → Candidate F → Type 0
  Accounted kept c =
      (seen (map id_of kept) (id_of c) ≡ true) ⊎ (similar_to_any fl config c.1 kept ≡ true)

  Accounted-append :
      (kept more : List (Candidate F)) (c : Candidate F)
      → Accounted kept c
      → Accounted (kept ++ more) c
  Accounted-append kept more c (inl h) =
      inl
        (rw (ids-append kept more, seen-append (map id_of kept) (map id_of more) (id_of c), h) refl)
  Accounted-append kept more c (inr h) = inr (rw (similar-append c.1 kept more, h) refl)

  one-Accounted :
      (s : Squeeze F) (b c : Candidate F)
      → Accounted s.kept c
      → Accounted (squeeze_one fl config s b).0.kept c
  one-Accounted s b c a =
      one-cases fl config (λ r. Accounted r.0.kept c) s b (λ _. a) (λ _. a)
        λ _ _. Accounted-append s.kept (b ∷ []) c a

  one_accounts :
      (s : Squeeze F) (c : Candidate F) → InStep s → Accounted (squeeze_one fl config s c).0.kept c
  unfolding seen
  one_accounts s c i =
      one-cases fl config (λ r. Accounted r.0.kept c) s c (λ e. inl (sym (i (id_of c)) ∙ e)) inr
        λ _ _. inl (
          rw (ids-append s.kept (c ∷ []), seen-append (map id_of s.kept) (id_of c ∷ []) (id_of c))
            (ground (arith, eq_iff (id_of c) (id_of c))))

  one_full :
      (s : Squeeze F) (c : Candidate F)
      → (squeeze_one fl config s c).1 ≡ false
      → length (squeeze_one fl config s c).0.kept ≡ RetrievalConfig.top_k config
  one_full s c =
      one-cases fl config (λ r. r.1 ≡ false → length r.0.kept ≡ RetrievalConfig.top_k config) s c
        (λ _ e. cc) (λ _ e. cc) λ _ _ e. ground (arith, e)

  from_accounts :
      (s final : Squeeze F) (cs : List (Candidate F))
      → InStep s
      → squeeze_from fl config s cs ≡ final
      → length final.kept < RetrievalConfig.top_k config
      → All (Accounted final.kept) cs
  unfolding squeeze_from
  from_accounts s final [] i q h = tt
  from_accounts s final (c ∷ cs) i q h =
      let r = squeeze_one fl config s c in
      let kept =
        squeeze_from_keeps fl config (λ s. Accounted s.kept c) (λ s b. one-Accounted s b c) r.0 cs
          (one_accounts s c i) in
      elim (Bool-cases r.1) [
        | inl e ↦
            let q' = rw e at q in
            (
              rw q' at kept,
              from_accounts (squeeze_one fl config s c).0 final cs (one-InStep s c i) q' h,
            )
        | inr e ↦ absurd (ground (arith, one_full s c e, rw e at q, h))
      ]

  -- Where fewer than `top_k` are kept, every candidate is kept, or a kept candidate is the same
  -- article or one that it is a near-duplicate of: nothing is dropped for another reason.
  pub squeeze_accounts :
      (cs : List (Candidate F))
      → length (squeeze fl config cs).kept < RetrievalConfig.top_k config
      → All (Accounted (squeeze fl config cs).kept) cs
  unfolding squeeze
  squeeze_accounts cs h =
      from_accounts start_squeeze (squeeze_from fl config start_squeeze cs) cs (λ k. refl) refl h

  -- Every candidate that the loop reaches is counted once: as kept, or under one of the counters.
  abbrev pub total : Squeeze F → ℕ
  total s = length s.kept + s.tier_duplicates + s.near_duplicates

  one_total :
      (s : Squeeze F) (c : Candidate F) → total (squeeze_one fl config s c).0 ≡ suc (total s)
  one_total s c =
      one-cases fl config (λ r. total r.0 ≡ suc (total s)) s c (λ _. omega arith) (λ _. omega arith)
        λ _ _. omega (arith, length-append s.kept (c ∷ []))

  from_total :
      (s : Squeeze F) (cs : List (Candidate F))
      → (total (squeeze_from fl config s cs) ≤ total s + length cs)
        × (length (squeeze_from fl config s cs).kept < RetrievalConfig.top_k config
            → total (squeeze_from fl config s cs) ≡ total s + length cs)
  unfolding squeeze_from
  from_total s [] = (omega arith, λ _. omega arith)
  from_total s (c ∷ cs) =
      let r = squeeze_one fl config s c in
      let one = one_total s c in
      let rest = from_total r.0 cs in
      elim (Bool-cases r.1) [
        | inl e ↦ rw e (omega (arith, one, rest.0), λ h. omega (arith, one, rest.1 h))
        | inr e ↦ rw e (omega (arith, one), λ h. omega (arith, one_full s c e, h))
      ]

  pub squeeze_total :
      (cs : List (Candidate F))
      → (total (squeeze fl config cs) ≤ length cs)
        × (length (squeeze fl config cs).kept < RetrievalConfig.top_k config
            → total (squeeze fl config cs) ≡ length cs)
  unfolding squeeze
  squeeze_total cs =
      let h = from_total start_squeeze cs in (omega (arith, h.0), λ full. omega (arith, h.1 full))
