-- ===== src/Breaking/Tracker/Rows.antt =====
-- The registry rows that one pass of breaking_episode.py writes.
use finiex_ragengine.Prelude.{
  ℕ, String, ◌≡◌, ◌≢◌, true, false, Option, none, some, List, [], ◌∷◌, ◌++◌, arith, eq_iff,
  Bool-cases, inl, inr, All, All-append,
}
use finiex_ragengine.Prelude.Int.{ℤ}
use finiex_ragengine.Prelude.Dict
use finiex_ragengine.Prelude.Dict.{get-put, get-remove}
use finiex_ragengine.Outcome.{SentimentResult, AnalysisEnvelope, EpisodeUpsert}
use finiex_ragengine.Breaking.EpisodeRule.{BreakingPassDecision}
use finiex_ragengine.Breaking.Tracker.{
  BreakingEpisodeTracker, PassState, record_edge, stamp_identity, observe_result, observe_rows,
  observe_envelope, start_pass, write_row,
}

-- No two rows of the list have one episode id.
abbrev pub Distinct : List EpisodeUpsert → Type 0
Distinct [] = Unit
Distinct (x ∷ xs) = All (λ y. x.episode_id ≢ y.episode_id) xs × Distinct xs

Distinct-snoc :
    (xs : List EpisodeUpsert) (y : EpisodeUpsert)
    → Distinct xs
    → All (λ x. x.episode_id ≢ y.episode_id) xs
    → Distinct (xs ++ y ∷ [])
Distinct-snoc [] y d a = (tt, tt)
Distinct-snoc (x ∷ xs) y d a = (
  All-append (λ z. x.episode_id ≢ z.episode_id) xs (y ∷ []) d.0 (a.0, tt),
  Distinct-snoc xs y d.1 a.1,
)

-- The ids written so far are distinct, and `rows_written` knows each of them.
abbrev Written : PassState → Type 0
Written s =
    Distinct s.outcome.episodes
    × All (λ x. Dict.has s.rows_written x.episode_id ≡ true) s.outcome.episodes

All-ne :
    (d : Dict.Dict (Unit {0})) (y : EpisodeUpsert) (xs : List EpisodeUpsert)
    → Dict.has d y.episode_id ≡ false
    → All (λ x. Dict.has d x.episode_id ≡ true) xs
    → All (λ x. x.episode_id ≢ y.episode_id) xs
All-ne d y [] h a = tt
All-ne d y (x ∷ xs) h a = ((λ e. cc), All-ne d y xs h a.1)

All-put :
    (d : Dict.Dict (Unit {0})) (k : String) (xs : List EpisodeUpsert)
    → All (λ x. Dict.has d x.episode_id ≡ true) xs
    → All (λ x. Dict.has (Dict.put d k tt) x.episode_id ≡ true) xs
All-put d k [] a = tt
All-put d k (x ∷ xs) a =
    (ground (arith, get-put d k x.episode_id tt, eq_iff k x.episode_id), All-put d k xs a.1)

write_row-Written : (row : EpisodeUpsert) (s : PassState) → Written s → Written (write_row row s)
unfolding write_row
write_row-Written row s w = elim (Bool-cases (Dict.has s.rows_written row.episode_id)) [
  | inl e ↦ rw e w
  | inr e ↦ rw e (
    Distinct-snoc s.outcome.episodes row w.0 (All-ne s.rows_written row s.outcome.episodes e w.1),
    All-append (λ x. Dict.has (Dict.put s.rows_written row.episode_id tt) x.episode_id ≡ true)
        s.outcome.episodes (row ∷ []) (All-put s.rows_written row.episode_id s.outcome.episodes w.1)
        (
          ground (
            arith,
            get-put s.rows_written row.episode_id row.episode_id tt,
            eq_iff row.episode_id row.episode_id,
          ),
          tt,
        ),
  )
]

record_edge_rows :
    (ts : ℕ) (result : SentimentResult) (key : String) (d : BreakingPassDecision)
    (times : Option ℤ × Option ℤ) (s : PassState)
    → let s' = record_edge ts result key d times s in
      (s'.outcome.episodes ≡ s.outcome.episodes) × (s'.rows_written ≡ s.rows_written)
unfolding record_edge
record_edge_rows ts result key d times s = ground arith

stamp_identity-Written :
    (utc_stamp : ℕ → String) (envelope : AnalysisEnvelope) (result : SentimentResult) (key : String)
    (d : BreakingPassDecision) (times : Option ℤ × Option ℤ) (start : Option ℕ) (s : PassState)
    → Written s
    → Written (stamp_identity utc_stamp envelope result key d times start s).0
unfolding stamp_identity
stamp_identity-Written utc_stamp envelope result key d times none s w = w
stamp_identity-Written utc_stamp envelope result key d times (some start) s w =
    write_row-Written _ _ w

observe_result-Written :
    (utc_stamp : ℕ → String) (envelope : AnalysisEnvelope) (result : SentimentResult)
    (s : PassState)
    → Written s
    → Written (observe_result utc_stamp envelope result s).0
unfolding observe_result
observe_result-Written utc_stamp envelope result s w =
    stamp_identity-Written utc_stamp envelope result _ _ _ _ _ (
      rw
        (
          (record_edge_rows envelope.timestamp result _ _ _ _).0,
          (record_edge_rows envelope.timestamp result _ _ _ _).1,
        )
        w)

observe_rows-Written :
    (utc_stamp : ℕ → String) (envelope : AnalysisEnvelope) (rows : List SentimentResult)
    (s : PassState)
    → Written s
    → Written (observe_rows utc_stamp envelope rows s).0
unfolding observe_rows
observe_rows-Written utc_stamp envelope [] s w = w
observe_rows-Written utc_stamp envelope (r ∷ rs) s w =
    observe_rows-Written utc_stamp envelope rs (observe_result utc_stamp envelope r s).0
      (observe_result-Written utc_stamp envelope r s w)

-- One pass writes at most one registry row for an episode, however many rows of the envelope (the
-- symbols of one fanned analysis) share it: no two rows that it hands on have the same id.
pub observe_envelope-Distinct :
    (utc_stamp : ℕ → String) (t : BreakingEpisodeTracker) (envelope : AnalysisEnvelope)
    → Distinct (observe_envelope utc_stamp t envelope).1.episodes
unfolding observe_envelope
observe_envelope-Distinct utc_stamp t envelope =
    (observe_rows-Written utc_stamp envelope envelope.result (start_pass t) (tt, tt)).0
