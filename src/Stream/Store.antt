-- ===== src/Stream/Store.antt =====
-- finiexragengine/core/outcome/outcome_store.py and episode_registry.py: the journal of envelopes.
-- The database is a record of its tables; `outcomes` is in the order of its `id`. A statement of SQL
-- is a function on the tables. The database's failures are an argument: the step of `save` that
-- raises first, if any. A transaction that fails leaves the tables as they were (PostgreSQL);
-- a commit that the server performed and whose answer was lost is not modelled.
pub mod Gapless
pub mod Reads
pub mod Window
pub mod Rejournal
pub mod Registry
use finiex_ragengine.Prelude.{
  ℕ, ◌+◌, String, Bool, true, false, not, ◌&&◌, Option, none, some, List, [], ◌∷◌, ◌++◌, map, max,
  leb, ltb, if◌then◌else◌, str_eq, take, keep_if, is_some,
}
use finiex_ragengine.Prelude.Dict
use finiex_ragengine.Prelude.Dict.{Dict}
use finiex_ragengine.Prelude.Int.{ℤ}
use finiex_ragengine.Outcome.{AnalysisEnvelope, EpisodeUpsert}
use finiex_ragengine.Breaking.EpisodeRule.{or_else}
use finiex_ragengine.Stream.Types.{StreamStamp, StreamHead}
use finiex_ragengine.Stream.Sequencer.{SeqRow, mint}

-- One row of `outcomes`. The envelope column is the served JSON, which the envelope stands for.
pub record OutcomeRow : Type 0 where
  pub pipeline_id : String
  pub ts : ℕ
  pub status : String
  pub envelope : AnalysisEnvelope
  pub raw_output : Option String

-- One row of `breaking_episodes`, by `episode_id`.
pub record EpisodeRow : Type 0 where
  pub opened_by : EpisodeUpsert
  pub last_seen_at : ℕ
  pub n_passes : ℕ

pub record Db : Type 0 where
  pub stream_seq : Dict SeqRow
  pub outcomes : List OutcomeRow
  pub breaking_episodes : Dict EpisodeRow
  pub notified : List String

abbrev pub empty_db : Db
empty_db = record { stream_seq = []; outcomes = []; breaking_episodes = []; notified = [] }

-- INSERT … ON CONFLICT (episode_id) DO UPDATE SET last_seen_at = GREATEST(…), n_passes = … + CASE
unfoldable pub merge_episode : EpisodeUpsert → Option EpisodeRow → EpisodeRow
merge_episode row none = record { opened_by = row; last_seen_at = row.last_seen_at; n_passes = 1 }
merge_episode row (some old) = record old {
  last_seen_at = max row.last_seen_at old.last_seen_at;
  n_passes = old.n_passes + (if ltb old.last_seen_at row.last_seen_at then 1 else 0);
}

-- `EpisodeRegistry.upsert`
unfoldable pub upsert : Dict EpisodeRow → EpisodeUpsert → Dict EpisodeRow
unfolding merge_episode
upsert table row = Dict.put table row.episode_id (merge_episode row (Dict.get table row.episode_id))

unfoldable pub upsert_all : Dict EpisodeRow → List EpisodeUpsert → Dict EpisodeRow
upsert_all table [] = table
upsert_all table (row ∷ rows) = upsert_all (upsert table row) rows

-- The steps of `save` at which the database may fail.
pub data SaveStep : Type 0 where
  connecting minting inserting recording notifying committing : SaveStep

-- `minting` and what stands before it raise before the envelope is stamped.
abbrev pub before_stamp : SaveStep → Bool
before_stamp connecting = true
before_stamp minting = true
before_stamp _ = false

unfoldable pub stamp_envelope : AnalysisEnvelope → StreamStamp → AnalysisEnvelope
stamp_envelope envelope stamp = record envelope {
  seq = some stamp.seq;
  stream_epoch = some stamp.epoch;
  available_msc = some stamp.available_msc;
  available_msc_resyncs = some stamp.resyncs;
  available_msc_max_correction_ms = some stamp.max_correction_ms;
}

-- The tables as the transaction would commit them, and the envelope as it is stored.
unfoldable pub transaction :
    Db → AnalysisEnvelope → Option String → List EpisodeUpsert → ℕ → Db × AnalysisEnvelope
unfolding stamp_envelope
transaction db envelope raw_output episodes now_msc =
    let (table, stamp) = mint db.stream_seq envelope.pipeline_id now_msc in
    let stamped = stamp_envelope envelope stamp in
    (
      record {
        stream_seq = table;
        outcomes =
            db.outcomes
            ++ record {
              pipeline_id = envelope.pipeline_id;
              ts = envelope.timestamp;
              status = envelope.status;
              envelope = stamped;
              raw_output = raw_output;
            }
              ∷ [];
        breaking_episodes = upsert_all db.breaking_episodes episodes;
        notified = db.notified ++ envelope.pipeline_id ∷ [];
      },
      stamped,
    )

-- What a call of `save` leaves: the tables, the envelope that the caller holds, and whether it
-- raised `VectorStoreError`.
pub record Saved : Type 0 where
  pub db : Db
  pub envelope : AnalysisEnvelope
  pub raised : Bool

unfoldable pub outcome_of_save :
    Db → AnalysisEnvelope → Db × AnalysisEnvelope → Option SaveStep → Saved
outcome_of_save db envelope (db', stamped) none = record {
  db = db';
  envelope = stamped;
  raised = false;
}
outcome_of_save db envelope (db', stamped) (some step) = record {
  db = db;
  envelope = if before_stamp step then envelope else stamped;
  raised = true;
}

-- `identity` is what `instance_identity` returns, read once and cached.
unfoldable pub save :
    Db
    → Option String
    → AnalysisEnvelope
    → Option String
    → List EpisodeUpsert
    → ℕ
    → Option SaveStep
    → Saved
unfolding transaction outcome_of_save
save db identity envelope raw_output episodes now_msc fault =
    let owned = record envelope { instance_id = or_else identity "" } in
    outcome_of_save db owned (transaction db owned raw_output episodes now_msc) fault

-- `stream_head`
unfoldable pub head_of_row : Option SeqRow → StreamHead
head_of_row none = record { seq = 0; epoch = 0; available_msc = none }
head_of_row (some row) = record {
  seq = row.seq;
  epoch = row.epoch;
  available_msc = row.last_available_msc;
}

unfoldable pub stream_head : Db → String → StreamHead
unfolding head_of_row
stream_head db pipeline_id = head_of_row (Dict.get db.stream_seq pipeline_id)

-- The envelopes of one stream that carry a `seq`, in the order of their `id`, each with it.
abbrev pub with_seq :
    AnalysisEnvelope → Option ℕ → List (ℕ × AnalysisEnvelope) → List (ℕ × AnalysisEnvelope)
with_seq e none l = l
with_seq e (some n) l = (n, e) ∷ l

unfoldable pub sequenced : String → List OutcomeRow → List (ℕ × AnalysisEnvelope)
sequenced pipeline_id [] = []
sequenced pipeline_id (row ∷ rows) =
    let rest = sequenced pipeline_id rows in
    if str_eq row.pipeline_id pipeline_id then with_seq row.envelope row.envelope.seq rest else rest

-- ORDER BY seq ASC: insertion into a list in order
unfoldable pub insert_by_seq :
    ℕ × AnalysisEnvelope → List (ℕ × AnalysisEnvelope) → List (ℕ × AnalysisEnvelope)
insert_by_seq x [] = x ∷ []
insert_by_seq x (y ∷ ys) = if leb x.0 y.0 then x ∷ y ∷ ys else y ∷ insert_by_seq x ys

unfoldable pub sort_by_seq : List (ℕ × AnalysisEnvelope) → List (ℕ × AnalysisEnvelope)
sort_by_seq [] = []
sort_by_seq (x ∷ xs) = insert_by_seq x (sort_by_seq xs)

-- WHERE pipeline_id = … AND seq > after_seq ORDER BY seq ASC LIMIT …
unfoldable pub envelopes_by_seq : Db → String → ℕ → ℕ → List (ℕ × AnalysisEnvelope)
envelopes_by_seq db pipeline_id after_seq limit =
    take limit (sort_by_seq (keep_if (λ x. ltb after_seq x.0) (sequenced pipeline_id db.outcomes)))

-- min(…) over an aggregate's rows; NULL over none
abbrev pub least : ℕ → Option ℕ → Option ℕ
least n none = some n
least n (some m) = some (if leb n m then n else m)

abbrev pub least_seq : Option ℕ → Option ℕ → Option ℕ
least_seq none rest = rest
least_seq (some n) rest = least n rest

-- `oldest_seq_since`
unfoldable pub oldest_seq : String → ℕ → List OutcomeRow → Option ℕ
oldest_seq pipeline_id cutoff [] = none
oldest_seq pipeline_id cutoff (row ∷ rows) =
    let rest = oldest_seq pipeline_id cutoff rows in
    if str_eq row.pipeline_id pipeline_id && leb cutoff row.ts
    then least_seq row.envelope.seq rest
    else rest

unfoldable pub oldest_seq_since : Db → String → ℕ → Option ℕ
unfolding oldest_seq
oldest_seq_since db pipeline_id cutoff = oldest_seq pipeline_id cutoff db.outcomes

-- `_journal_head` of stream_sequencer.py: coalesce(max(seq), 0), coalesce(max(stream_epoch), 0)
abbrev at_least : Option ℕ → ℕ → ℕ
at_least none m = m
at_least (some n) m = max n m

unfoldable pub journal_head : String → List OutcomeRow → ℕ × ℕ
journal_head pipeline_id [] = (0, 0)
journal_head pipeline_id (row ∷ rows) =
    let rest = journal_head pipeline_id rows in
    if str_eq row.pipeline_id pipeline_id
    then (at_least row.envelope.seq rest.0, at_least row.envelope.stream_epoch rest.1)
    else rest
