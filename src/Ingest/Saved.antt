-- ===== src/Ingest/Saved.antt =====
-- Which articles an upsert of finiexragengine/core/pipeline/ingestor.py leaves in the corpus.
use finiex_ragengine.Prelude.{
  ℕ, suc, ◌++◌, String, ◌≡◌, Bool, true, ◌||◌, List, [], ◌∷◌, Bool-cases, inl, inr, if◌then◌else◌,
  arith, contains, eq_iff, All,
}
use finiex_ragengine.Retrieval.Corpus.{Article}
use finiex_ragengine.Ingest.Books.{storable, turned_away, upsert_articles}

abbrev pub Sub : List String → List String → Type 0
Sub xs ys = (k : String) → contains xs k ≡ true → contains ys k ≡ true

pub Sub-append : (xs ys : List String) → Sub xs (xs ++ ys)
unfolding contains
Sub-append [] ys k h = cc
Sub-append (x ∷ xs) ys k h = ground (arith, Sub-append xs ys k)

pub Sub-append_right : (xs ys : List String) → Sub ys (xs ++ ys)
unfolding contains
Sub-append_right [] ys k h = h
Sub-append_right (x ∷ xs) ys k h = ground (arith, Sub-append_right xs ys k)

contains_last : (xs : List String) (k : String) → contains (xs ++ k ∷ []) k ≡ true
unfolding contains
contains_last [] k = ground (arith, eq_iff k k)
contains_last (x ∷ xs) k = ground (arith, contains_last xs k)

-- The corpus after an upsert holds what it held_back, and every article of the upsert.
pub upsert_articles-Sub :
    (corpus : List String) (more : List Article) → Sub corpus (upsert_articles corpus more).0
unfolding upsert_articles
upsert_articles-Sub corpus [] k h = h
upsert_articles-Sub corpus (a ∷ more) k h = elim (Bool-cases (contains corpus a.article_id)) [
  | inl t ↦ rw t (upsert_articles-Sub corpus more k h)
  | inr f ↦ rw f (
      upsert_articles-Sub (corpus ++ a.article_id ∷ []) more k
        (Sub-append corpus (a.article_id ∷ []) k h))
]

written : (corpus : List String) (id : String) → List String
written corpus id = if contains corpus id then corpus else corpus ++ id ∷ []

written_id : (corpus : List String) (id : String) → contains (written corpus id) id ≡ true
unfolding written
written_id corpus id = elim (Bool-cases (contains corpus id)) [
  | inl t ↦ rw t t
  | inr f ↦ rw f (contains_last corpus id)
]

pub upsert_articles-All :
    (corpus : List String) (more : List Article) (after : List String)
    → Sub (upsert_articles corpus more).0 after
    → All (λ a. contains after a.article_id ≡ true) more
unfolding upsert_articles written
upsert_articles-All corpus [] after s = tt
upsert_articles-All corpus (a ∷ more) after s =
    let mid = written corpus a.article_id in
    (
      s a.article_id (upsert_articles-Sub mid more a.article_id (written_id corpus a.article_id)),
      upsert_articles-All mid more after s,
    )

-- Each fresh article was kept or turned away.
pub sorted_out :
    (accepted : ℕ → Bool) (i : ℕ) (fresh : List Article) (corpus away : List String)
    → All (λ a. contains corpus a.article_id ≡ true) (storable accepted i fresh)
    → Sub (turned_away accepted i fresh) away
    → All (λ a. contains corpus a.article_id || contains away a.article_id ≡ true) fresh
unfolding storable turned_away contains
sorted_out accepted i [] corpus away a s = tt
sorted_out accepted i (x ∷ fresh) corpus away a s = elim (Bool-cases (accepted i)) [
  | inl t ↦
      let b = rw t at a in
      (ground (arith, b.0), sorted_out accepted (suc i) fresh corpus away b.1 (rw t at s))
  | inr f ↦
      let sub : Sub (x.article_id ∷ turned_away accepted (suc i) fresh) away = rw f at s in
      (
        ground (arith, sub x.article_id, eq_iff x.article_id x.article_id),
        sorted_out accepted (suc i) fresh corpus away (rw f at a)
            (λ k h. sub k (ground (arith, h))),
      )
]
