-- ===== src/Stream/Store/Registry.antt =====
-- Repeated writes: a registry row recorded twice, and a save after one that failed.
use text.Mathlib.TextPositions.{eq_refl}
use finiex_ragengine.Prelude.{
  ℕ, ◌+◌, String, ◌≡◌, refl, sym, ap, true, false, Option, none, some, List, [], ◌∷◌, ◌++◌, arith,
  eq_iff,
}
use finiex_ragengine.Prelude.Dict
use finiex_ragengine.Prelude.Dict.{Dict, get-put}
use finiex_ragengine.Outcome.{AnalysisEnvelope, EpisodeUpsert}
use finiex_ragengine.Stream.Sequencer.{mint, row_or_fresh}
use finiex_ragengine.Stream.Store.{
  Db, OutcomeRow, EpisodeRow, SaveStep, before_stamp, merge_episode, upsert, save, stream_head,
}
use finiex_ragengine.Stream.Store.Gapless.{head_seq}

merge_twice :
    (row : EpisodeUpsert) (o : Option EpisodeRow)
    → merge_episode row (some (merge_episode row o)) ≡ merge_episode row o
unfolding merge_episode
merge_twice row none = ground arith
merge_twice row (some old) = ground arith

-- A retried transaction that replays a pass changes nothing: recording the same row twice leaves
-- the table's every entry as recording it once does, the pass count included.
pub upsert_twice :
    (table : Dict EpisodeRow) (row : EpisodeUpsert) (id : String)
    → Dict.get (upsert (upsert table row) row) id ≡ Dict.get (upsert table row) id
unfolding upsert
upsert_twice table row id =
    rw (get-put, get-put, get-put, eq_refl)
      (ground (arith, eq_iff row.episode_id id, merge_twice row (Dict.get table row.episode_id)))

-- The journal's row for a saved envelope.
abbrev pub journal_row : AnalysisEnvelope → AnalysisEnvelope → Option String → OutcomeRow
journal_row envelope stamped raw_output = record {
  pipeline_id = envelope.pipeline_id;
  ts = envelope.timestamp;
  status = envelope.status;
  envelope = stamped;
  raw_output = raw_output;
}

-- A save that fails after the envelope was stamped leaves the tables as they were, and the number on
-- the envelope that the caller holds. The next save of that stream, where it succeeds, adds one row
-- to the journal, which holds the second envelope under the first one's number.
pub save_number_reused :
    (db : Db) (first second : AnalysisEnvelope) (i i' r r' : Option String)
    (es es' : List EpisodeUpsert) (now now' : ℕ) (step : SaveStep)
    → before_stamp step ≡ false
    → first.pipeline_id ≡ second.pipeline_id
    → let failed = save db i first r es now (some step) in
      let next = save failed.db i' second r' es' now' none in
      (failed.raised ≡ true)
      × (failed.envelope.seq ≡ some ((stream_head db first.pipeline_id).seq + 1))
      × (failed.db ≡ db)
      × (next.envelope.seq ≡ failed.envelope.seq)
      × (next.db.outcomes ≡ db.outcomes ++ journal_row second next.envelope r' ∷ [])
unfolding save stream_head mint
save_number_reused db first second i i' r r' es es' now now' step h e =
    let start = head_seq (Dict.get db.stream_seq first.pipeline_id) in
    rw h (
      refl,
      ap (λ (n : ℕ). some (n + 1)) start,
      refl,
      ap (λ (p : String). some ((row_or_fresh none (Dict.get db.stream_seq p)).seq + 1)) (sym e),
      refl,
    )
