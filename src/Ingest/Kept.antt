-- ===== src/Ingest/Kept.antt =====
-- No article that a pass of finiexragengine/core/pipeline/ingestor.py fetches is lost.
use finiex_ragengine.Prelude.{
  ℕ, ◌++◌, String, ◌≡◌, refl, true, false, ◌||◌, Option, none, some, List, [], ◌∷◌, length,
  Bool-cases, inl, inr, ◌⊎◌, arith, contains, All, All-imp,
}
use finiex_ragengine.Retrieval.Corpus.{Article}
use finiex_ragengine.Health.{SourceHealthStore}
use finiex_ragengine.Ingest.{
  Source, SourceIngest, FetchedArticle, FetchOutcome, pulled, fetch_failed, Embedding,
  budget_exceeded, unreachable, embedded, Ingestor, AcquisitionPass, Plan, plan_pass,
}
use finiex_ragengine.Ingest.Books.{
  account_answer, account_failure, due_ids, stop_after_embed, add_entry, fresh_of, storable,
  turned_away, upsert_articles,
}
use finiex_ragengine.Ingest.Accounting.{
  Next, goes_on, stops, store_embedded, embed_fresh, account_pull, account_all, go_on, new_pass,
  health_fails, open_scope, run_ingest,
}
use finiex_ragengine.Ingest.Polls.{SameBooks, account_answer-SameBooks, account_failure_books}
use finiex_ragengine.Ingest.Reported.{SameReport, run_ingest-SameReport}
use finiex_ragengine.Ingest.Saved.{
  Sub-append, Sub-append_right, upsert_articles-Sub, upsert_articles-All, sorted_out,
}
use finiex_ragengine.Ingest.Safe.{
  Grows, Grows-trans, IsSaved, Grows-IsSaved, fresh_safe, IsSavedEntry, rewound,
}

-- One iteration: the pass goes on with the source saved, stops with the rest of the plan saved, or is
-- left by an error.
unfoldable Keeps : Ingestor → AcquisitionPass → Source → Plan → FetchOutcome → Next → Type 0
Keeps ing p s plan o (goes_on q) = Grows p q × IsSaved q s.source_id o
Keeps ing p s plan o (stops q) = Grows p q × ((q.raised ≡ true) ⊎ All (IsSavedEntry ing q) plan)

SameBooks-Grows : (p q : AcquisitionPass) → SameBooks p q → Grows p q
unfolding SameBooks Grows
SameBooks-Grows p q s = ((λ k h. rw s.1 h), (λ k h. rw s.2 h), λ k h. rw s.3 h)

module _ (ing : Ingestor) (s : Source) (plan : Plan) (d : ℕ) (fs : List FetchedArticle) where
  store_embedded-Keeps :
      (entry : SourceIngest) (fresh : List Article) (e : Embedding) (q : AcquisitionPass)
      → fresh_of q.corpus fs ≡ fresh
      → Keeps ing q s plan (pulled d fs) (store_embedded ing s entry fresh plan e q)
  unfolding Keeps Grows stop_after_embed IsSaved
  store_embedded-Keeps entry fresh budget_exceeded q e = (
    ((λ k h. h), (λ k h. h), Sub-append q.resets (due_ids plan)),
    inr (rewound ing plan _ (Sub-append_right q.resets (due_ids plan))),
  )
  store_embedded-Keeps entry fresh unreachable q e = (
    ((λ k h. h), (λ k h. h), Sub-append q.resets (due_ids plan)),
    inr (rewound ing plan _ (Sub-append_right q.resets (due_ids plan))),
  )
  store_embedded-Keeps entry fresh (embedded accepted) q e =
      let kept = storable accepted 0 fresh in
      let away = turned_away accepted 0 fresh in
      let corpus = (upsert_articles q.corpus kept).0 in
      let after =
        add_entry s.source_id
          (record entry {
            embedded = length kept;
            rejected = length away;
            stored = (upsert_articles q.corpus kept).1;
          })
          (record q {
            corpus = corpus;
            refused = q.refused ++ away;
            detect_batch = q.detect_batch ++ kept;
          }) in
      let sorted =
        sorted_out accepted 0 fresh corpus (q.refused ++ away)
          (upsert_articles-All q.corpus kept corpus (λ k h. h)) (Sub-append_right q.refused away) in
      let grows = upsert_articles-Sub q.corpus kept in
      elim (Bool-cases (ing.answers_upsert s.source_id)) [
        | inl t ↦ rw t (
          (grows, Sub-append q.refused away, λ k h. h),
          fresh_safe q.corpus fs after s.source_id grows (
              rw e (
                All-imp _ _ fresh
                  (λ a
                      (h : contains corpus a.article_id || contains (q.refused ++ away) a.article_id
                        ≡ true).
                    ground (arith, h))
                  sorted)),
        )
        | inr f ↦ rw f (((λ k h. h), (λ k h. h), λ k h. h), inl refl)
      ]

  embed_fresh-Keeps :
      (entry : SourceIngest) (fresh : List Article) (q : AcquisitionPass)
      → fresh_of q.corpus fs ≡ fresh
      → Keeps ing q s plan (pulled d fs) (embed_fresh ing s entry fresh plan q)
  unfolding Keeps Grows IsSaved
  embed_fresh-Keeps entry [] q e = (
    ((λ k h. h), (λ k h. h), λ k h. h),
    fresh_safe q.corpus fs (add_entry s.source_id entry q) s.source_id (λ k h. h) (rw e tt),
  )
  embed_fresh-Keeps entry (a ∷ more) q e =
      store_embedded-Keeps entry (a ∷ more) (ing.embed (a ∷ more)) q e

Keeps-from :
    (ing : Ingestor) (p q : AcquisitionPass) (s : Source) (plan : Plan) (o : FetchOutcome)
    (n : Next)
    → Grows p q
    → Keeps ing q s plan o n
    → Keeps ing p s plan o n
unfolding Keeps
Keeps-from ing p q s plan o (goes_on r) g k = (Grows-trans p q r g k.0, k.1)
Keeps-from ing p q s plan o (stops r) g k = (Grows-trans p q r g k.0, k.1)

account_pull-Keeps :
    (now : ℕ) (ing : Ingestor) (s : Source) (plan : Plan) (o : FetchOutcome) (p : AcquisitionPass)
    → Keeps ing p s plan o (account_pull now ing s plan o p)
unfolding account_pull Keeps Grows IsSaved
account_pull-Keeps now ing s plan (fetch_failed duration error_type status) p =
    let b = account_failure_books now ing s duration error_type status p in
    let q = account_failure now ing s duration error_type status p in
    let g : Grows p q = ((λ k h. rw b.1 h), (λ k h. rw b.2 h), λ k h. rw b.3 h) in
    elim (Bool-cases (health_fails ing s p)) [ inl t ↦ rw t (g, inl refl) | inr f ↦ rw f (g, tt) ]
account_pull-Keeps now ing s plan (pulled d fs) p =
    let q = account_answer now ing s d fs p in
    let g = SameBooks-Grows p q (account_answer-SameBooks now ing s d fs p) in
    elim (Bool-cases (health_fails ing s p)) [
      | inl t ↦ rw t (g, inl refl)
      | inr f ↦ elim (Bool-cases (ing.answers_lookup s.source_id)) [
        | inl t ↦
            rw (f, t)
              (Keeps-from ing p q s plan (pulled d fs) _ g
                (embed_fresh-Keeps ing s plan d fs _ (fresh_of q.corpus fs) q refl))
        | inr n ↦ rw (f, n) (g, inl refl)
      ]
    ]

saved_later :
    (ing : Ingestor) (p q : AcquisitionPass) (plan : Plan)
    → Grows p q
    → All (IsSavedEntry ing p) plan
    → All (IsSavedEntry ing q) plan
unfolding IsSavedEntry
saved_later ing p q [] g a = tt
saved_later ing p q ((s, none) ∷ plan) g a =
    (Grows-IsSaved p q s.source_id (ing.fetch s.source_id) g a.0, saved_later ing p q plan g a.1)
saved_later ing p q ((s, some _) ∷ plan) g a = (tt, saved_later ing p q plan g a.1)

go_on-IsSaved :
    (ing : Ingestor) (rest : AcquisitionPass → AcquisitionPass) (p : AcquisitionPass) (s : Source)
    (plan : Plan) (n : Next)
    → ((q : AcquisitionPass)
        → (rest q).raised ≡ false
        → Grows q (rest q) × All (IsSavedEntry ing (rest q)) plan)
    → Keeps ing p s ((s, none) ∷ plan) (ing.fetch s.source_id) n
    → (go_on rest n).raised ≡ false
    → Grows p (go_on rest n) × All (IsSavedEntry ing (go_on rest n)) ((s, none) ∷ plan)
unfolding Keeps IsSavedEntry
go_on-IsSaved ing rest p s plan (goes_on q) ih k h =
    let (g, saved) = ih q h in
    (
      Grows-trans p q (rest q) k.0 g,
      (Grows-IsSaved q (rest q) s.source_id (ing.fetch s.source_id) g k.1, saved),
    )
go_on-IsSaved ing rest p s plan (stops q) ih (g, inl raised) h = absurd (ground (arith, raised, h))
go_on-IsSaved ing rest p s plan (stops q) ih (g, inr saved) h = (g, saved)

-- The end of the loop, where no error of the database left it.
account_all-IsSaved :
    (now : ℕ) (ing : Ingestor) (plan : Plan) (p : AcquisitionPass)
    → (account_all now ing plan p).raised ≡ false
    → Grows p (account_all now ing plan p)
      × All (IsSavedEntry ing (account_all now ing plan p)) plan
unfolding account_all Grows IsSavedEntry
account_all-IsSaved now ing [] p h = (((λ k x. x), (λ k x. x), λ k x. x), tt)
account_all-IsSaved now ing ((s, some poll) ∷ plan) p h =
    let (g, saved) =
      account_all-IsSaved now ing plan (record p { polls = p.polls ++ poll ∷ [] }) h in
    (g, (tt, saved))
account_all-IsSaved now ing ((s, none) ∷ plan) p h =
    go_on-IsSaved ing (λ q. account_all now ing plan q) p s plan _
      (λ q raised. account_all-IsSaved now ing plan q raised)
      (account_pull-Keeps now ing s ((s, none) ∷ plan) (ing.fetch s.source_id) p) h

-- A pass that no error of the database leaves, be it of the corpus or of the health store. Every article that it fetched from a source that was due
-- is in the corpus, or was refused by the embedding provider, or its source's conditional-get state
-- was reset: the next fetch brings it again.
pub run_ingest-IsSaved :
    (now : ℕ) (ing : Ingestor) (health : Option SourceHealthStore) (corpus : List String)
    → (run_ingest now ing health corpus).raised ≡ false
    → All
        (IsSavedEntry ing (run_ingest now ing health corpus))
        (plan_pass now ing.sources (open_scope health)).1
unfolding SameReport Grows
run_ingest-IsSaved now ing health corpus h =
    let (stores, plan) = plan_pass now ing.sources (open_scope health) in
    let p = account_all now ing plan (new_pass stores corpus) in
    let same = run_ingest-SameReport now ing health corpus in
    let saved = (account_all-IsSaved now ing plan (new_pass stores corpus) (same.5 h)).1 in
    saved_later ing p (run_ingest now ing health corpus) plan
      ((λ k x. rw same.2 x), (λ k x. rw same.3 x), λ k x. rw same.4 x) saved
