-- ===== src/Stream/Sequencer.antt =====
-- finiexragengine/core/outcome/stream_sequencer.py: the counter row of each stream, with the
-- defaults of migrations/009_stream_seq.sql. A statement of SQL is a function on the table; that a
-- transaction is atomic, and that its row lock orders the transactions of one stream, is
-- PostgreSQL's documented behaviour. The clock's readings are arguments.
pub mod Clamp
pub mod Rewind
use finiex_ragengine.Prelude.{
  ℕ, ◌+◌, ◌-◌, String, Bool, true, false, not, ◌&&◌, ◌||◌, Option, none, some, List, [], ◌∷◌, max,
  ltb, if◌then◌else◌, str_eq, is_some,
}
use finiex_ragengine.Prelude.Dict
use finiex_ragengine.Prelude.Dict.{Dict}
use finiex_ragengine.Stream.Types.{
  StreamStamp, EpochBump, BumpReason, counter_behind_journal, cluster_changed,
}

-- One row of `stream_seq`.
pub record SeqRow : Type 0 where
  pub seq : ℕ
  pub epoch : ℕ
  pub last_available_msc : Option ℕ
  pub available_msc_resyncs : ℕ
  pub available_msc_max_correction_ms : ℕ
  pub cluster_id : Option String

abbrev pub fresh_row : Option String → SeqRow
fresh_row cluster_id = record {
  seq = 0;
  epoch = 1;
  last_available_msc = none;
  available_msc_resyncs = 0;
  available_msc_max_correction_ms = 0;
  cluster_id = cluster_id;
}

-- INSERT … ON CONFLICT (pipeline_id) DO NOTHING, then the row of the stream
unfoldable pub row_or_fresh : Option String → Option SeqRow → SeqRow
row_or_fresh cluster_id none = fresh_row cluster_id
row_or_fresh cluster_id (some row) = row

-- last_available_msc IS NOT NULL AND now < last_available_msc
abbrev pub steps_back : ℕ → Option ℕ → Bool
steps_back now none = false
steps_back now (some last) = ltb now last

-- last_available_msc - now, in the branch where the clock stepped back
abbrev pub correction : ℕ → Option ℕ → ℕ
correction now none = 0
correction now (some last) = if ltb now last then last - now else 0

-- GREATEST(now, COALESCE(last_available_msc, now))
abbrev pub clamp : ℕ → Option ℕ → ℕ
clamp now none = max now now
clamp now (some last) = max now last

-- The UPDATE of `mint`: every expression reads the row as it was.
unfoldable pub advance_row : ℕ → SeqRow → SeqRow
advance_row now row = record row {
  seq = row.seq + 1;
  available_msc_resyncs =
      row.available_msc_resyncs + (if steps_back now row.last_available_msc then 1 else 0);
  available_msc_max_correction_ms =
      max row.available_msc_max_correction_ms (correction now row.last_available_msc);
  last_available_msc = some (clamp now row.last_available_msc);
}

-- RETURNING …
unfoldable pub stamp_of : ℕ → SeqRow → StreamStamp
stamp_of now row = record {
  seq = row.seq + 1;
  epoch = row.epoch;
  available_msc = clamp now row.last_available_msc;
  resyncs = row.available_msc_resyncs + (if steps_back now row.last_available_msc then 1 else 0);
  max_correction_ms =
      max row.available_msc_max_correction_ms (correction now row.last_available_msc);
}

unfoldable pub mint : Dict SeqRow → String → ℕ → Dict SeqRow × StreamStamp
unfolding row_or_fresh advance_row stamp_of
mint table pipeline_id now_msc =
    let row = row_or_fresh none (Dict.get table pipeline_id) in
    (Dict.put table pipeline_id (advance_row now_msc row), stamp_of now_msc row)

-- cluster_id is not None and stored_cluster is not None and cluster_id != stored_cluster
unfoldable pub changed : Option String → Option String → Bool
changed none stored = false
changed (some c) none = false
changed (some c) (some stored) = not (str_eq c stored)

-- The branch with no bump: a first fingerprint is recorded.
unfoldable pub note_cluster : Option String → SeqRow → SeqRow
note_cluster cluster_id row =
    if is_some cluster_id && not (is_some row.cluster_id)
    then record row { cluster_id = cluster_id }
    else row

-- `_reconcile_one` on the stream's row: `journal_seq` and `journal_epoch` are what `_journal_head`
-- returned and `now_s` is the wall clock in seconds.
unfoldable pub reconcile_row :
    String → Option String → ℕ → ℕ → ℕ → SeqRow → SeqRow × Option EpochBump
unfolding changed note_cluster
reconcile_row pipeline_id cluster_id journal_seq journal_epoch now_s row =
    let counter_behind = ltb row.seq journal_seq in
    let new_epoch = max (max (row.epoch + 1) (journal_epoch + 1)) now_s in
    let new_seq = max row.seq journal_seq in
    if not counter_behind && not (changed cluster_id row.cluster_id)
    then (note_cluster cluster_id row, none)
    else (
      record row {
        seq = new_seq;
        epoch = new_epoch;
        cluster_id = cluster_id;
        last_available_msc = none;
      },
      some (record {
        pipeline_id = pipeline_id;
        previous_epoch = row.epoch;
        new_epoch = new_epoch;
        reason = if counter_behind then counter_behind_journal else cluster_changed;
        previous_seq = row.seq;
        new_seq = new_seq;
        cluster_id = cluster_id;
      }),
    )

-- `_reconcile_one` on the table.
unfoldable pub reconcile_one :
    Dict SeqRow → String → Option String → ℕ × ℕ → ℕ → Dict SeqRow × Option EpochBump
unfolding row_or_fresh reconcile_row
reconcile_one table pipeline_id cluster_id journal now_s =
    let row = row_or_fresh cluster_id (Dict.get table pipeline_id) in
    let (row', bump) = reconcile_row pipeline_id cluster_id journal.0 journal.1 now_s row in
    (Dict.put table pipeline_id row', bump)

abbrev pub cons_some {ℓ} : {A : Type ℓ} → Option A → List A → List A
cons_some none l = l
cons_some (some a) l = a ∷ l

-- The loop of `reconcile`. Each `_journal_head` reads the same journal, `head_of`, since the loop
-- writes to the counters only; `clock` gives the reading that each bump would take.
unfoldable pub reconcile :
    (String → ℕ × ℕ)
    → (String → ℕ)
    → Option String
    → Dict SeqRow
    → List String
    → Dict SeqRow × List EpochBump
unfolding reconcile_one
reconcile head_of clock cluster_id table [] = (table, [])
reconcile head_of clock cluster_id table (pid ∷ pids) =
    let (table', bump) = reconcile_one table pid cluster_id (head_of pid) (clock pid) in
    let (table'', bumps) = reconcile head_of clock cluster_id table' pids in
    (table'', cons_some bump bumps)
