-- ===== src/Health/Ladder.antt =====
-- The cool-off that a flag of finiexragengine/core/observability/source_health_store.py sets.
use finiex_ragengine.Prelude.{
  ℕ, ◌+◌, ◌-◌, ◌*◌, ◌≤◌, String, ◌≡◌, refl, ap, ◌∙◌, Bool, true, false, Option, none, some, List,
  [], ◌∷◌, length, ltb, leb, get_elem?, get_elem?-lt, arith, eq_iff, str_eq, Bool-cases, inl, inr,
  if_true,
}
use finiex_ragengine.Prelude.Dict
use finiex_ragengine.Prelude.Dict.{Dict, get-put, get-remove}
use finiex_ragengine.Health.{
  PendingFlag, SourceHealthStore, ladder, steps_or, slow, start_rung, rung_for, apply_flag,
  should_poll, or_zero, hour_micros,
}

length-steps : (hours : List ℕ) → 1 ≤ length (steps_or hours)
length-steps [] = omega arith
length-steps (h ∷ hs) = omega arith

slow-le : (d e : Option ℕ) (percent last : ℕ) → slow d e percent last ≤ last
unfolding slow
slow-le none e percent last = omega arith
slow-le (some d) none percent last = omega arith
slow-le (some d) (some e) percent last = ground arith

start_rung-le : (p : PendingFlag) (percent last : ℕ) → start_rung p percent last ≤ last
unfolding start_rung
start_rung-le p percent last = ground (arith, slow-le p.duration_ms p.deadline_ms percent last)

held_until :
    (now : ℕ) (p : PendingFlag) (store : SourceHealthStore) (hours : ℕ)
    → get_elem? (ladder store.config) (rung_for store p now) ≡ some hours
    → Dict.get (apply_flag now p store).quarantined p.source_id ≡ some (now + hours * hour_micros)
unfolding apply_flag
held_until now p store hours e =
    let until =
      now + or_zero (get_elem? (ladder store.config) (rung_for store p now)) * hour_micros in
    get-put store.quarantined p.source_id p.source_id until
    ∙ if_true (str_eq p.source_id p.source_id) (some until) _
        ((eq_iff p.source_id p.source_id).1 refl)
    ∙ ap (λ o. some (now + or_zero o * hour_micros)) e

unfoldable IsDueAt : ℕ → ℕ → String → SourceHealthStore × Bool → Type 0
IsDueAt until t id r = (r.1 ≡ leb until t) × (Dict.has r.0.probing id ≡ leb until t)

-- What a source that is held until an instant is answered.
poll-IsDueAt :
    (until t : ℕ) (id : String) (store : SourceHealthStore)
    → store.host_backoff ≡ none
    → Dict.get store.quarantined id ≡ some until
    → Dict.has store.probing id ≡ false
    → IsDueAt until t id (should_poll t id store)
unfolding should_poll IsDueAt
poll-IsDueAt until t id store b e n = elim (Bool-cases (leb until t)) [
  | inl due ↦
      let ahead : ltb t until ≡ false = ground (arith, due) in
      let put = get-put store.probing id id tt in
      rw (b, e, ahead, due) (refl, rw (put, (eq_iff id id).1 refl) refl)
  | inr held ↦
      let ahead : ltb t until ≡ true = ground (arith, held) in rw (b, e, ahead, held) (refl, n)
]

apply_flag-host :
    (now : ℕ) (p : PendingFlag) (store : SourceHealthStore)
    → (apply_flag now p store).host_backoff ≡ store.host_backoff
unfolding apply_flag
apply_flag-host now p store = refl

apply_flag-probing :
    (now : ℕ) (p : PendingFlag) (store : SourceHealthStore)
    → Dict.has (apply_flag now p store).probing p.source_id ≡ false
unfolding apply_flag
apply_flag-probing now p store =
    let removed = get-remove store.probing p.source_id p.source_id in
    rw (removed, (eq_iff p.source_id p.source_id).1 refl) refl

-- A flag outside of any set-wide back-off, and the first question about its source after it, at an
-- instant `t`. The flag's rung lies on the ladder, at or above the one that the failure starts on.
-- The source is polled exactly when that rung's hours have passed, and is then marked as probing;
-- before, it is not polled and not marked.
pub apply_flag-Cools :
    (now t : ℕ) (p : PendingFlag) (store : SourceHealthStore)
    → store.host_backoff ≡ none
    → let steps = ladder store.config in
      let rung = rung_for store p now in
      let r = should_poll t p.source_id (apply_flag now p store) in
      (hours : ℕ) × (get_elem? steps rung ≡ some hours)
      × (start_rung p store.config.deadline_percent (length steps - 1) ≤ rung)
      × (r.1 ≡ leb (now + hours * hour_micros) t)
      × (Dict.has r.0.probing p.source_id ≡ leb (now + hours * hour_micros) t)
unfolding ladder rung_for IsDueAt
apply_flag-Cools now t p store b =
    let steps = steps_or store.config.quarantine_hours in
    let last = length steps - 1 in
    let some_step = length-steps store.config.quarantine_hours in
    let e = get_elem?-lt steps (rung_for store p now) (omega (arith, some_step)) in
    let after = apply_flag now p store in
    let due =
      poll-IsDueAt (now + e.0 * hour_micros) t p.source_id after (apply_flag-host now p store ∙ b)
        (held_until now p store e.0 e.1) (apply_flag-probing now p store) in
    (e.0, e.1, omega (arith, start_rung-le p store.config.deadline_percent last), due.0, due.1)
