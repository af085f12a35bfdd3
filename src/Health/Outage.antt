-- ===== src/Health/Outage.antt =====
-- The correlated outages of finiexragengine/core/observability/source_health_store.py: the end of an
-- ingest pass as a whole.
use finiex_ragengine.Prelude.{
  ℕ, ◌+◌, ◌*◌, ◌<◌, String, ◌≡◌, refl, true, false, none, some, List, [], ◌∷◌, length, leb, is_some,
  arith, lt→ltb,
}
use finiex_ragengine.Health.{
  minute_micros, PendingFlag, IngestPass, SourceHealthStore, apply_flag, should_poll,
}
use finiex_ragengine.Health.Passes.{
  is_correlated, enter_host_event, leave_host_event, apply_all, resolve_pass,
}

-- Whether two stores hold the same rows, episodes, quarantines, rungs and probes.
unfoldable pub HasSamePolicy : SourceHealthStore → SourceHealthStore → Type 0
HasSamePolicy a b =
    (a.rows ≡ b.rows)
    × (a.episodes ≡ b.episodes)
    × (a.quarantined ≡ b.quarantined)
    × (a.rungs ≡ b.rungs)
    × (a.probing ≡ b.probing)

enter-HasSamePolicy :
    (now : ℕ) (store : SourceHealthStore) → HasSamePolicy (enter_host_event now store) store
unfolding HasSamePolicy enter_host_event
enter-HasSamePolicy now store = (refl, refl, refl, refl, refl)

enter-backoff :
    (now : ℕ) (store : SourceHealthStore)
    → (enter_host_event now store).host_backoff
      ≡ some (now + store.config.correlated_backoff_minutes * minute_micros)
unfolding enter_host_event
enter-backoff now store = refl

poll_backed_off :
    (t until : ℕ) (id : String) (store : SourceHealthStore)
    → store.host_backoff ≡ some until
    → t < until
    → should_poll t id store ≡ (store, false)
unfolding should_poll
poll_backed_off t until id store b h = let l = lt→ltb t until h in rw (b, l) refl

resolve-correlated :
    (now : ℕ) (s : IngestPass) (store : SourceHealthStore)
    → is_correlated store.config s ≡ true
    → resolve_pass now s store ≡ enter_host_event now store
unfolding resolve_pass
resolve-correlated now s store c = rw c refl

-- The end of a pass whose failures are correlated. No flag is applied: the rows, episodes,
-- quarantines, rungs and probes stay as they were. Until the back-off's minutes have passed no
-- source is polled, and asking changes nothing.
pub resolve_pass-HasSamePolicy :
    (now t : ℕ) (id : String) (s : IngestPass) (store : SourceHealthStore)
    → is_correlated store.config s ≡ true
    → t < now + store.config.correlated_backoff_minutes * minute_micros
    → let after = resolve_pass now s store in
      HasSamePolicy after store × (should_poll t id after ≡ (after, false))
resolve_pass-HasSamePolicy now t id s store c h = rw (resolve-correlated now s store c) (
  enter-HasSamePolicy now store,
  poll_backed_off t (now + store.config.correlated_backoff_minutes * minute_micros) id
      (enter_host_event now store) (enter-backoff now store) h,
)

apply_all-host :
    (now : ℕ) (ps : List PendingFlag) (store : SourceHealthStore)
    → let after = apply_all now ps store in
      (after.host_backoff ≡ store.host_backoff) × (after.host_started_at ≡ store.host_started_at)
unfolding apply_all apply_flag
apply_all-host now [] store = (refl, refl)
apply_all-host now (p ∷ ps) store = apply_all-host now ps (apply_flag now p store)

-- The end of a pass, during an outage, that is not correlated and in which a source answered: the
-- outage and its back-off are over, whatever flags the pass applies.
pub resolve_pass-resumes :
    (now : ℕ) (s : IngestPass) (store : SourceHealthStore)
    → is_correlated store.config s ≡ false
    → is_some store.host_started_at ≡ true
    → 0 < length s.succeeded
    → let after = resolve_pass now s store in
      (after.host_backoff ≡ none) × (after.host_started_at ≡ none)
unfolding resolve_pass leave_host_event
resolve_pass-resumes now s store c o h =
    let l : leb (length s.succeeded) 0 ≡ false = ground (arith, h) in
    rw (c, o, l) (apply_all-host now s.pending (leave_host_event store))
