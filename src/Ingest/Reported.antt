-- ===== src/Ingest/Reported.antt =====
-- The report of a whole pass of finiexragengine/core/pipeline/ingestor.py.
use finiex_ragengine.Prelude.{
  ℕ, ◌++◌, String, ◌≡◌, refl, sym, ap, ◌∙◌, Bool, true, false, Option, List, [], map, inl, inr, ◌⊎◌,
  not, ◌&&◌, ◌||◌, is_some, arith, Bool-cases,
}
use finiex_ragengine.Health.{SourceHealthStore}
use finiex_ragengine.Ingest.{Ingestor, AcquisitionPass, plan_pass}
use finiex_ragengine.Ingest.Accounting.{
  detects, detect_flags, account_all, new_pass, run_pass, open_scope, run_ingest,
}
use finiex_ragengine.Ingest.Polls.{poll_ids, is_stopped, account_all-Reports, plan_pass_ids}

unfoldable pub SameReport : AcquisitionPass → AcquisitionPass → Type 0
SameReport p q =
    (poll_ids q ≡ poll_ids p)
    × (is_stopped p ≡ true → is_stopped q ≡ true)
    × (q.corpus ≡ p.corpus)
    × (q.refused ≡ p.refused)
    × (q.resets ≡ p.resets)
    × (q.raised ≡ false → p.raised ≡ false)

raised_stops : (a b c d : Bool) → a || b || c ≡ true → a || b || (c || d) ≡ true
raised_stops a b c d h = ground (arith, h)

flagged-SameReport : (ing : Ingestor) (p : AcquisitionPass) → SameReport p (detect_flags ing p)
unfolding SameReport
flagged-SameReport ing p = elim (Bool-cases p.raised) [
  | inl r ↦ rw r (refl, (λ h. h), refl, refl, refl, λ h. h)
  | inr r ↦ elim (Bool-cases (detects ing p && not ing.answers_detect)) [
    | inl d ↦ rw (r, d) (refl, (λ h. ground arith), refl, refl, refl, λ h. refl)
    | inr d ↦ rw (r, d) (refl, (λ h. h), refl, refl, refl, λ h. h)
  ]
]

-- Breaking detection and the end of the scope change nothing of this.
pub run_ingest-SameReport :
    (now : ℕ) (ing : Ingestor) (health : Option SourceHealthStore) (corpus : List String)
    → let planned = plan_pass now ing.sources (open_scope health) in
      SameReport
        (account_all now ing planned.1 (new_pass planned.0 corpus))
        (run_ingest now ing health corpus)
unfolding run_ingest run_pass SameReport
run_ingest-SameReport now ing health corpus =
    let planned = plan_pass now ing.sources (open_scope health) in
    let p = account_all now ing planned.1 (new_pass planned.0 corpus) in
    let q = detect_flags ing p in
    let s = flagged-SameReport ing p in
    let fails = is_some q.health && is_some ing.close_fault in
    (
      s.0,
      (λ h. raised_stops q.suspended q.embed_failed q.raised fails (s.1 h)),
      s.2,
      s.3,
      s.4,
      λ h. s.5 (ground (arith, h)),
    )

-- The polls of a pass name the sources in declared order, each once. Where not all are named, the
-- pass was stopped at the embedder, or left by an error of the database.
pub run_ingest-polls :
    (now : ℕ) (ing : Ingestor) (health : Option SourceHealthStore) (corpus : List String)
    → let p = run_ingest now ing health corpus in
      (rest : List String) × (map (λ s. s.source_id) ing.sources ≡ poll_ids p ++ rest)
      × ((rest ≡ []) ⊎ (is_stopped p ≡ true))
unfolding SameReport
run_ingest-polls now ing health corpus =
    let planned = plan_pass now ing.sources (open_scope health) in
    let same = run_ingest-SameReport now ing health corpus in
    let r = account_all-Reports now ing planned.1 (new_pass planned.0 corpus) in
    (
      r.rest,
      sym (plan_pass_ids now ing.sources (open_scope health))
          ∙ r.split
          ∙ ap (λ xs. xs ++ r.rest) (sym (same.0 ∙ r.polled)),
      elim r.complete [ inl e ↦ inl e | inr e ↦ inr (same.1 e) ],
    )
