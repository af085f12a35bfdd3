-- ===== src/Ingest/Safe.antt =====
-- What keeps an article of a pass of finiexragengine/core/pipeline/ingestor.py from being lost.
use finiex_ragengine.Prelude.{
  String, ◌≡◌, Bool, true, ◌||◌, Option, none, some, List, [], ◌∷◌, Bool-cases, inl, inr, arith,
  contains, eq_iff, All, All-imp,
}
use finiex_ragengine.Retrieval.Corpus.{Article}
use finiex_ragengine.Ingest.{
  Source, SourcePoll, FetchedArticle, FetchOutcome, pulled, fetch_failed, Ingestor, AcquisitionPass,
  Plan,
}
use finiex_ragengine.Ingest.Books.{due_ids, fresh_of}
use finiex_ragengine.Ingest.Saved.{Sub}

-- What is in the corpus, refused or reset stays so.
unfoldable pub Grows : AcquisitionPass → AcquisitionPass → Type 0
Grows p q = Sub p.corpus q.corpus × Sub p.refused q.refused × Sub p.resets q.resets

pub Grows-trans : (p q r : AcquisitionPass) → Grows p q → Grows q r → Grows p r
unfolding Grows
Grows-trans p q r g h = ((λ k x. h.0 k (g.0 k x)), (λ k x. h.1 k (g.1 k x)), λ k x. h.2 k (g.2 k x))

-- An article that the corpus holds, that the provider refused, or whose source will send it again.
abbrev pub is_safe : AcquisitionPass → String → Article → Bool
is_safe p source_id a =
    contains p.corpus a.article_id || contains p.refused a.article_id || contains p.resets source_id

pub Grows-is_safe :
    (p q : AcquisitionPass) (id : String) (a : Article)
    → Grows p q
    → is_safe p id a ≡ true
    → is_safe q id a ≡ true
unfolding Grows
Grows-is_safe p q id a g h = ground (arith, h, g.0 a.article_id, g.1 a.article_id, g.2 id)

unfoldable pub IsSaved : AcquisitionPass → String → FetchOutcome → Type 0
IsSaved p id (fetch_failed _ _ _) = Unit
IsSaved p id (pulled _ fetched) = All (λ f. is_safe p id f.article ≡ true) fetched

pub Grows-IsSaved :
    (p q : AcquisitionPass) (id : String) (o : FetchOutcome)
    → Grows p q
    → IsSaved p id o
    → IsSaved q id o
unfolding IsSaved
Grows-IsSaved p q id (fetch_failed _ _ _) g s = tt
Grows-IsSaved p q id (pulled d fetched) g s =
    All-imp _ _ fetched
      (λ f (h : is_safe p id f.article ≡ true). Grows-is_safe p q id f.article g h) s

pub reset-All :
    (p : AcquisitionPass) (id : String) (fs : List FetchedArticle)
    → contains p.resets id ≡ true
    → All (λ f. is_safe p id f.article ≡ true) fs
reset-All p id [] r = tt
reset-All p id (f ∷ fs) r = (ground (arith, r), reset-All p id fs r)

pub reset-IsSaved :
    (p : AcquisitionPass) (id : String) (o : FetchOutcome)
    → contains p.resets id ≡ true
    → IsSaved p id o
unfolding IsSaved
reset-IsSaved p id (fetch_failed _ _ _) r = tt
reset-IsSaved p id (pulled d fs) r = reset-All p id fs r

-- Every fetched article that was not fresh is in the corpus.
pub fresh_safe :
    (corpus : List String) (fs : List FetchedArticle) (p : AcquisitionPass) (id : String)
    → Sub corpus p.corpus
    → All (λ a. is_safe p id a ≡ true) (fresh_of corpus fs)
    → All (λ f. is_safe p id f.article ≡ true) fs
unfolding fresh_of
fresh_safe corpus [] p id g a = tt
fresh_safe corpus (f ∷ fs) p id g a = elim (Bool-cases (contains corpus f.article.article_id)) [
  | inl t ↦ (ground (arith, g f.article.article_id t), fresh_safe corpus fs p id g (rw t at a))
  | inr n ↦ let b = rw n at a in (b.0, fresh_safe corpus fs p id g b.1)
]

unfoldable pub IsSavedEntry : Ingestor → AcquisitionPass → Source × Option SourcePoll → Type 0
IsSavedEntry ing p (s, none) = IsSaved p s.source_id (ing.fetch s.source_id)
IsSavedEntry ing p (s, some _) = Unit

-- A stop rewinds every source of the rest of the plan.
pub rewound :
    (ing : Ingestor) (plan : Plan) (p : AcquisitionPass)
    → Sub (due_ids plan) p.resets
    → All (IsSavedEntry ing p) plan
unfolding due_ids IsSavedEntry contains
rewound ing [] p s = tt
rewound ing ((source, none) ∷ plan) p s = (
  reset-IsSaved p source.source_id (ing.fetch source.source_id)
      (s source.source_id (ground (arith, eq_iff source.source_id source.source_id))),
  rewound ing plan p (λ k h. s k (ground (arith, h))),
)
rewound ing ((source, some _) ∷ plan) p s = (tt, rewound ing plan p s)
