-- ===== src/Health/Flags.antt =====
-- The quarantines after a poll, a flag and a pass of
-- finiexragengine/core/observability/source_health_store.py.
use finiex_ragengine.Prelude.{
  ℕ, String, ◌≡◌, refl, sym, ap, ◌∙◌, Option, none, some, List, [], ◌∷◌, All, All-imp, leb, ltb,
  length, not, ◌&&◌, is_some, eq_iff, str_eq, Bool-cases, inl, inr,
}
use finiex_ragengine.Prelude.Dict
use finiex_ragengine.Prelude.Dict.{Dict, get-put, get-remove}
use finiex_ragengine.Health.{
  PendingFlag, IngestPass, SourceHealthStore, apply_flag, poll_quarantined,
}
use finiex_ragengine.Health.Passes.{
  apply_all, resolve_pass, enter_host_event, leave_host_event, is_correlated,
}
use finiex_ragengine.Health.Boot.{only_ahead}
use finiex_ragengine.Health.Memory.{Agrees, flag-Agrees, Holds, flag-Holds, Known, Remembers}

pub poll-Agrees :
    (now : ℕ) (id : String) (o : Option ℕ) (store : SourceHealthStore)
    → Dict.get store.quarantined id ≡ o
    → Remembers now store
    → Remembers now (poll_quarantined now id o store).0
unfolding Remembers Agrees
poll-Agrees now id none store e h = h
poll-Agrees now id (some until) store e ((k, agree), known) = elim (Bool-cases (ltb now until)) [
  | inl held ↦ rw held ((k, agree), known)
  | inr over ↦ rw over (
    (
      k,
      λ j. rw (get-remove store.quarantined id j) (elim (Bool-cases (str_eq id j)) [
        | inl here ↦
            let e' : Dict.get store.quarantined j ≡ some until =
              ap (Dict.get store.quarantined) (sym ((eq_iff id j).0 here)) ∙ e in
            let gone : only_ahead now (Dict.get store.quarantined j) ≡ none = rw (e', over) refl in
            rw here (sym gone ∙ agree j)
        | inr there ↦ rw there (agree j)
      ]),
    ),
    known,
  )
]

pub apply-Agrees :
    (now : ℕ) (p : PendingFlag) (store : SourceHealthStore)
    → Holds store.rows p
    → Agrees now store.rows store.quarantined
    → let after = apply_flag now p store in Agrees now after.rows after.quarantined
unfolding apply_flag
apply-Agrees now p store known agree =
    flag-Agrees now _ store.rows store.quarantined p.source_id (Dict.get store.rows p.source_id)
      known agree

apply-Holds :
    (now : ℕ) (p q : PendingFlag) (store : SourceHealthStore)
    → Holds store.rows q
    → Holds (apply_flag now p store).rows q
unfolding apply_flag
apply-Holds now p q store h =
    flag-Holds _ (Dict.get store.rows p.source_id) store.rows p.source_id q h

pub apply-pass :
    (now : ℕ) (p : PendingFlag) (store : SourceHealthStore)
    → (apply_flag now p store).open_pass ≡ store.open_pass
unfolding apply_flag
apply-pass now p store = refl

apply_all-Remembers :
    (now : ℕ) (ps : List PendingFlag) (store : SourceHealthStore)
    → store.open_pass ≡ none
    → All (Holds store.rows) ps
    → Agrees now store.rows store.quarantined
    → Remembers now (apply_all now ps store)
unfolding apply_all Remembers Known
apply_all-Remembers now [] store e known agree = (agree, rw e tt)
apply_all-Remembers now (p ∷ ps) store e (here, known) agree =
    let after = apply_flag now p store in
    apply_all-Remembers now ps after (apply-pass now p store ∙ e)
      (All-imp (Holds store.rows) (Holds after.rows) ps (λ q. apply-Holds now p q store) known)
      (apply-Agrees now p store here agree)

pub resolve-Remembers :
    (now : ℕ) (s : IngestPass) (store : SourceHealthStore)
    → store.open_pass ≡ none
    → All (Holds store.rows) s.pending
    → Agrees now store.rows store.quarantined
    → Remembers now (resolve_pass now s store)
unfolding resolve_pass enter_host_event leave_host_event Remembers Known
resolve-Remembers now s store e known agree = elim (Bool-cases (is_correlated store.config s)) [
  | inl c ↦ rw c (agree, rw e tt)
  | inr c ↦
      let resumes = is_some store.host_started_at && not (leb (length s.succeeded) 0) in
      rw c (elim (Bool-cases resumes) [
        | inl r ↦ rw r (apply_all-Remembers now s.pending (leave_host_event store) e known agree)
        | inr r ↦ rw r (apply_all-Remembers now s.pending store e known agree)
      ])
]
