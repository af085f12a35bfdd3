-- ===== src/Retrieval/Corpus.antt =====
-- finiexragengine/types/article_types.py, the corpus' vector search (`query` of
-- core/rag/pgvector_store.py) and `_cosine` of core/rag/retriever.py.
-- A vector is a list of floats, whose arithmetic is an argument; a distance and a weight are only
-- compared, so each is its place in that order.
use finiex_ragengine.Prelude.{
  ℕ, String, Bool, true, false, ◌&&◌, ◌||◌, Option, none, some, List, [], ◌∷◌, map, take, keep_if,
  leb, if◌then◌else◌,
}
use finiex_ragengine.Prelude.Sort.{sort_by}
use finiex_ragengine.Errors.{FiniexRagError, Fallible, gives, raises}

pub record Article : Type 0 where
  pub article_id : String
  pub source_id : String
  pub source_weight : ℕ
  pub url : String
  pub title : String
  pub summary : String
  pub published_at : ℕ
  pub fetched_at : ℕ

-- Python's floats
pub record Floats (F : Type 0) : Type 0 where
  pub nought : F
  pub add : F → F → F
  pub mul : F → F → F
  pub div : F → F → F
  pub sqrt : F → F
  pub equal : F → F → Bool
  pub at_least : F → F → Bool

module _ {F : Type 0} (fl : Floats F) where
  -- sum(x * y for x, y in zip(a, b)), from `s` on
  unfoldable pub dot_from : F → List F → List F → F
  dot_from s [] b = s
  dot_from s (x ∷ a) [] = s
  dot_from s (x ∷ a) (y ∷ b) = dot_from (Floats.add fl s (Floats.mul fl x y)) a b

  abbrev pub norm : List F → F
  norm a = Floats.sqrt fl (dot_from (Floats.nought fl) a a)

  unfoldable pub cosine : List F → List F → F
  unfolding dot_from
  cosine a b =
      if Floats.equal fl (norm a) (Floats.nought fl) || Floats.equal fl (norm b) (Floats.nought fl)
      then Floats.nought fl
      else Floats.div fl (dot_from (Floats.nought fl) a b) (Floats.mul fl (norm a) (norm b))

-- One row of the corpus.
pub record CorpusRow (F : Type 0) : Type 0 where
  pub article : Article
  pub embedding : List F
  pub importance : Option ℕ

pub record ScoredArticle (F : Type 0) : Type 0 where
  pub article : Article
  pub distance : ℕ
  pub embedding : List F
  pub importance : Option ℕ

-- `importance >= %s`, which is not true of a NULL, where a least importance is given
unfoldable pub important : Option ℕ → Option ℕ → Bool
important none i = true
important (some least) none = false
important (some least) (some i) = leb least i

module _ {F : Type 0} (distance_to : List F → List F → ℕ) (vector : List F) where
  abbrev pub scored : CorpusRow F → ScoredArticle F
  scored row = record {
    article = row.article;
    distance = distance_to row.embedding vector;
    embedding = row.embedding;
    importance = row.importance;
  }

  -- The statement: filters, order and limit; `<=>` is `distance_to`.
  unfoldable pub query :
      List (CorpusRow F)
      → ℕ
      → ℕ
      → Option ℕ
      → Option FiniexRagError
      → Fallible (List (ScoredArticle F))
  unfolding important
  query corpus top_k since min_importance (some exc) = raises exc
  query corpus top_k since min_importance none =
      let hits =
        keep_if
          (λ row. leb since row.article.published_at && important min_importance row.importance)
          corpus in
      gives (take top_k (sort_by (λ a b. leb a.distance b.distance) (map scored hits)))
