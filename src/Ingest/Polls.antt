-- ===== src/Ingest/Polls.antt =====
-- The poll entries of a pass of finiexragengine/core/pipeline/ingestor.py.
use mathlib.Core.List.{append_assoc, append-nil, map-append}
use finiex_ragengine.Prelude.{
  ℕ, ◌++◌, String, ◌≡◌, refl, sym, ap, ◌∙◌, Bool, true, false, ◌||◌, Option, none, some, List, [],
  ◌∷◌, map, Bool-cases, inl, inr, ◌⊎◌, arith,
}
use finiex_ragengine.Retrieval.Corpus.{Article}
use finiex_ragengine.Health.{SourceHealthStore, should_poll}
use finiex_ragengine.Ingest.{
  Source, SourcePoll, SourceIngest, PollSample, FetchedArticle, FetchOutcome, pulled, fetch_failed,
  Embedding, budget_exceeded, unreachable, embedded, Ingestor, AcquisitionPass, Plan, floor_skip,
  held_back, plan_asked, plan_one, plan_pass,
}
use finiex_ragengine.Ingest.Books.{
  journal, note_answer, account_answer, account_failure, stop_after_embed, fresh_of,
}
use finiex_ragengine.Ingest.Accounting.{
  Next, goes_on, stops, store_embedded, embed_fresh, account_pull, account_all, go_on, health_fails,
}

-- What the recording of an answer leaves alone.
unfoldable pub SameBooks : AcquisitionPass → AcquisitionPass → Type 0
SameBooks p q =
    (q.polls ≡ p.polls)
    × (q.corpus ≡ p.corpus)
    × (q.refused ≡ p.refused)
    × (q.resets ≡ p.resets)
    × (q.raised ≡ p.raised)

journal-SameBooks :
    (b : Bool) (sample : PollSample) (p : AcquisitionPass) → SameBooks p (journal b sample p)
unfolding journal SameBooks
journal-SameBooks true sample p = (refl, refl, refl, refl, refl)
journal-SameBooks false sample p = (refl, refl, refl, refl, refl)

note_answer-SameBooks :
    (now : ℕ) (id : String) (health : Option SourceHealthStore) (p : AcquisitionPass)
    → SameBooks p (note_answer now id health p)
unfolding SameBooks
note_answer-SameBooks now id none p = (refl, refl, refl, refl, refl)
note_answer-SameBooks now id (some h) p = (refl, refl, refl, refl, refl)

pub account_answer-SameBooks :
    (now : ℕ) (ing : Ingestor) (s : Source) (duration : ℕ) (fetched : List FetchedArticle)
    (p : AcquisitionPass)
    → SameBooks p (account_answer now ing s duration fetched p)
unfolding account_answer SameBooks
account_answer-SameBooks now ing s duration fetched p =
    let sample : PollSample = _ in
    let q = journal ing.journals sample p in
    let a = journal-SameBooks ing.journals sample p in
    let b = note_answer-SameBooks now s.source_id q.health q in
    (b.0 ∙ a.0, b.1 ∙ a.1, b.2 ∙ a.2, b.3 ∙ a.3, b.4 ∙ a.4)

pub account_failure_books :
    (now : ℕ) (ing : Ingestor) (s : Source) (duration : ℕ) (error_type : String) (status : Option ℕ)
    (p : AcquisitionPass)
    → let q = account_failure now ing s duration error_type status p in
      (map (λ x. x.source_id) q.polls ≡ map (λ x. x.source_id) p.polls ++ s.source_id ∷ [])
      × (q.corpus ≡ p.corpus)
      × (q.refused ≡ p.refused)
      × (q.resets ≡ p.resets)
      × (q.raised ≡ p.raised)
unfolding account_failure SameBooks
account_failure_books now ing s duration error_type status p =
    let a = journal-SameBooks ing.journals _ p in
    (
      map-append _ _ _
          ∙ ap (λ xs. map (λ (x : SourcePoll). x.source_id) xs ++ s.source_id ∷ []) a.0,
      a.1,
      a.2,
      a.3,
      a.4,
    )

abbrev pub poll_ids : AcquisitionPass → List String
poll_ids p = map (λ x. x.source_id) p.polls

-- Whether the pass was stopped at the embedder, or left by an error of the database.
abbrev pub is_stopped : AcquisitionPass → Bool
is_stopped p = p.suspended || p.embed_failed || p.raised

-- One iteration adds the source's poll, or stops.
unfoldable pub Polled : AcquisitionPass → String → Next → Type 0
Polled p id (goes_on q) = poll_ids q ≡ poll_ids p ++ id ∷ []
Polled p id (stops q) =
    (is_stopped q ≡ true) × ((poll_ids q ≡ poll_ids p ++ id ∷ []) ⊎ (poll_ids q ≡ poll_ids p))

polls_added :
    (p q : AcquisitionPass) (x : SourcePoll)
    → q.polls ≡ p.polls
    → map (λ y. y.source_id) (q.polls ++ x ∷ []) ≡ poll_ids p ++ x.source_id ∷ []
polls_added p q x e =
    map-append _ _ _ ∙ ap (λ xs. map (λ (y : SourcePoll). y.source_id) xs ++ x.source_id ∷ []) e

or_last : (a b : Bool) → a || b || true ≡ true
or_last true b = refl
or_last false true = refl
or_last false false = refl

or_second : (a b : Bool) → a || true || b ≡ true
or_second true b = refl
or_second false b = refl

store_embedded-Polled :
    (ing : Ingestor) (s : Source) (entry : SourceIngest) (fresh : List Article) (plan : Plan)
    (e : Embedding) (p q : AcquisitionPass)
    → q.polls ≡ p.polls
    → Polled p s.source_id (store_embedded ing s entry fresh plan e q)
unfolding Polled stop_after_embed
store_embedded-Polled ing s entry fresh plan budget_exceeded p q h =
    (refl, inl (polls_added p q _ h))
store_embedded-Polled ing s entry fresh plan unreachable p q h =
    (or_second q.suspended q.raised, inl (polls_added p q _ h))
store_embedded-Polled ing s entry fresh plan (embedded accepted) p q h =
    elim (Bool-cases (ing.answers_upsert s.source_id)) [
      | inl t ↦ rw t (polls_added p q _ h)
      | inr f ↦
          rw f
            (or_last q.suspended q.embed_failed, inr (ap (map (λ (y : SourcePoll). y.source_id)) h))
    ]

embed_fresh-Polled :
    (ing : Ingestor) (s : Source) (entry : SourceIngest) (fresh : List Article) (plan : Plan)
    (p q : AcquisitionPass)
    → q.polls ≡ p.polls
    → Polled p s.source_id (embed_fresh ing s entry fresh plan q)
unfolding Polled
embed_fresh-Polled ing s entry [] plan p q h = polls_added p q _ h
embed_fresh-Polled ing s entry (a ∷ more) plan p q h =
    store_embedded-Polled ing s entry (a ∷ more) plan (ing.embed (a ∷ more)) p q h

account_pull-Polled :
    (now : ℕ) (ing : Ingestor) (s : Source) (plan : Plan) (o : FetchOutcome) (p : AcquisitionPass)
    → Polled p s.source_id (account_pull now ing s plan o p)
unfolding account_pull Polled SameBooks
account_pull-Polled now ing s plan (fetch_failed duration error_type status) p =
    let q = account_failure now ing s duration error_type status p in
    let added = (account_failure_books now ing s duration error_type status p).0 in
    elim (Bool-cases (health_fails ing s p)) [
      | inl t ↦ rw t (or_last q.suspended q.embed_failed, inl added)
      | inr f ↦ rw f added
    ]
account_pull-Polled now ing s plan (pulled duration fetched) p =
    let q = account_answer now ing s duration fetched p in
    let h = (account_answer-SameBooks now ing s duration fetched p).0 in
    let none_added = inr (ap (map (λ (y : SourcePoll). y.source_id)) h) in
    elim (Bool-cases (health_fails ing s p)) [
      | inl t ↦ rw t (or_last q.suspended q.embed_failed, none_added)
      | inr g ↦ elim (Bool-cases (ing.answers_lookup s.source_id)) [
        | inl t ↦ rw (g, t) (embed_fresh-Polled ing s _ (fresh_of q.corpus fetched) plan p q h)
        | inr f ↦ rw (g, f) (or_last q.suspended q.embed_failed, none_added)
      ]
    ]

-- The source that an entry of the plan is about.
abbrev pub entry_id : Source × Option SourcePoll → String
entry_id (s, none) = s.source_id
entry_id (s, some poll) = poll.source_id

-- The polls of a run are those of a first part of the plan, and of all of it unless it stopped.
pub record Reports (ids : List String) (p q : AcquisitionPass) : Type 0 where
  pub handled : List String
  pub rest : List String
  pub split : ids ≡ handled ++ rest
  pub polled : poll_ids q ≡ poll_ids p ++ handled
  pub complete : (rest ≡ []) ⊎ (is_stopped q ≡ true)

Reports-cons :
    (id : String) (ids : List String) (p q r : AcquisitionPass)
    → poll_ids q ≡ poll_ids p ++ id ∷ []
    → Reports ids q r
    → Reports (id ∷ ids) p r
Reports-cons id ids p q r h rest = record {
  handled = id ∷ rest.handled;
  rest = rest.rest;
  split = ap (◌∷◌ id) rest.split;
  polled =
      rest.polled
      ∙ ap (λ xs. xs ++ rest.handled) h
      ∙ append_assoc (poll_ids p) (id ∷ []) rest.handled;
  complete = rest.complete;
}

go_on-Reports :
    (rest : AcquisitionPass → AcquisitionPass) (id : String) (ids : List String)
    (p : AcquisitionPass) (n : Next)
    → ((q : AcquisitionPass) → Reports ids q (rest q))
    → Polled p id n
    → Reports (id ∷ ids) p (go_on rest n)
unfolding Polled
go_on-Reports rest id ids p (goes_on q) ih h = Reports-cons id ids p q (rest q) h (ih q)
go_on-Reports rest id ids p (stops q) ih (h, inl added) = record {
  handled = id ∷ [];
  rest = ids;
  split = refl;
  polled = added;
  complete = inr h;
}
go_on-Reports rest id ids p (stops q) ih (h, inr same) = record {
  handled = [];
  rest = id ∷ ids;
  split = refl;
  polled = same ∙ sym (append-nil (poll_ids p));
  complete = inr h;
}

pub account_all-Reports :
    (now : ℕ) (ing : Ingestor) (plan : Plan) (p : AcquisitionPass)
    → Reports (map entry_id plan) p (account_all now ing plan p)
unfolding account_all
account_all-Reports now ing [] p = record {
  handled = [];
  rest = [];
  split = refl;
  polled = sym (append-nil (poll_ids p));
  complete = inl refl;
}
account_all-Reports now ing ((s, some poll) ∷ plan) p =
    Reports-cons poll.source_id (map entry_id plan) p (record p { polls = p.polls ++ poll ∷ [] }) _
      (map-append _ _ _)
      (account_all-Reports now ing plan (record p { polls = p.polls ++ poll ∷ [] }))
account_all-Reports now ing ((s, none) ∷ plan) p =
    go_on-Reports (λ q. account_all now ing plan q) s.source_id (map entry_id plan) p _
      (λ q. account_all-Reports now ing plan q)
      (account_pull-Polled now ing s ((s, none) ∷ plan) (ing.fetch s.source_id) p)

floor_id : (s : Source) → entry_id (s, floor_skip s) ≡ s.source_id
floor_id s = elim (Bool-cases s.due_for_fetch) [ inl t ↦ rw t refl | inr f ↦ rw f refl ]

held_id :
    (now : ℕ) (s : Source) (h : SourceHealthStore)
    → (held_back now s.source_id h).source_id ≡ s.source_id
held_id now s h = ground arith

plan_asked_id :
    (now : ℕ) (s : Source) (r : SourceHealthStore × Bool)
    → entry_id (s, (plan_asked now s r).1) ≡ s.source_id
plan_asked_id now s (h, true) = floor_id s
plan_asked_id now s (h, false) = held_id now s h

plan_one_id :
    (now : ℕ) (s : Source) (health : Option SourceHealthStore)
    → entry_id (s, (plan_one now s health).1) ≡ s.source_id
plan_one_id now s none = floor_id s
plan_one_id now s (some h) = plan_asked_id now s (should_poll now s.source_id h)

pub plan_pass_ids :
    (now : ℕ) (ss : List Source) (health : Option SourceHealthStore)
    → map entry_id (plan_pass now ss health).1 ≡ map (λ s. s.source_id) ss
unfolding plan_pass
plan_pass_ids now [] health = refl
plan_pass_ids now (s ∷ ss) health =
    rw (plan_one_id now s health, plan_pass_ids now ss (plan_one now s health).0) refl
