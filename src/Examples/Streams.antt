-- ===== src/Examples/Streams.antt =====
-- The counter, the journal and the replay on one small stream.
use finiex_ragengine.Prelude.{
  All, ◌<◌, ◌++◌, ℕ, ◌+◌, ◌-◌, ◌≤◌, String, ◌≡◌, refl, true, false, Option, none, some, List, [],
  ◌∷◌, arith, map, max, ltb, if◌then◌else◌, length,
}
use finiex_ragengine.Prelude.Dict
use finiex_ragengine.Prelude.Dict.{Dict}
use finiex_ragengine.Examples.{row_for, envelope_at, upsert_at}
use finiex_ragengine.Stream.Types.{replay_truncated}
use finiex_ragengine.Stream.Sequencer.{SeqRow, mint, row_or_fresh, reconcile_one}
use finiex_ragengine.Stream.Sequencer.Clamp.{mint_all, peaks, dips, count_from, mint_all-peaks}
use finiex_ragengine.Stream.Sequencer.Rewind.{Issued}
use finiex_ragengine.Stream.Store.{
  Db, empty_db, save, SaveStep, committing, stream_head, journal_head, sequenced, oldest_seq_since,
}
use finiex_ragengine.Stream.Store.Gapless.{
  IsGapless, SaveCall, call_all, call_all-IsGapless, empty-IsGapless,
}
use finiex_ragengine.Stream.Store.Reads.{numbers, segment}
use finiex_ragengine.Stream.Store.Rejournal.{reconciled, reconciled-IsGapless, reconciled-Issued}
use finiex_ragengine.Stream.Store.Registry.{journal_row, save_number_reused}
use finiex_ragengine.Stream.Replay.{StreamReplay, window_floor, floor_of, is_stale_epoch, plan}
use finiex_ragengine.Stream.Replay.Cursor.{plan_since_exact}

abbrev save_at : String → ℕ → Option SaveStep → SaveCall
save_at pid ts fault = record {
  identity = some "host-1";
  envelope = envelope_at pid ts (row_for "EURUSD" true 90 ∷ []);
  raw_output = none;
  episodes = upsert_at "fx:USD:1" ts ∷ [];
  now_msc = ts;
  fault = fault;
}

-- Three saves of `fx` are kept, one of them after a save that fails, and one of `btc`.
abbrev calls : List SaveCall
calls =
    save_at "fx" 100 none
    ∷ save_at "btc" 150 none
    ∷ save_at "fx" 200 (some committing)
    ∷ save_at "fx" 190 none
    ∷ save_at "fx" 300 none
    ∷ []

abbrev pub db : Db
db = call_all empty_db calls

call_all-IsGapless_example : IsGapless (call_all empty_db calls) "fx"
call_all-IsGapless_example = call_all-IsGapless empty_db calls "fx" (empty-IsGapless "fx")

pub db-IsGapless : IsGapless db "fx"
db-IsGapless = call_all-IsGapless empty_db calls "fx" (empty-IsGapless "fx")

pub db_head : (stream_head db "fx").seq ≡ 3
unfolding stream_head save call_all mint Dict.get Dict.put
db_head = refl

mint_all-peaks_example :
    (map (λ s. s.seq) (mint_all [] "fx" (5 ∷ 3 ∷ 9 ∷ [])) ≡ count_from 1 (5 ∷ 3 ∷ 9 ∷ []))
    × (map (λ s. s.available_msc) (mint_all [] "fx" (5 ∷ 3 ∷ 9 ∷ [])) ≡ peaks 0 (5 ∷ 3 ∷ 9 ∷ []))
    × (map (λ s. s.resyncs) (mint_all [] "fx" (5 ∷ 3 ∷ 9 ∷ [])) ≡ dips 0 0 (5 ∷ 3 ∷ 9 ∷ []))
mint_all-peaks_example = mint_all-peaks [] "fx" (5 ∷ 3 ∷ 9 ∷ []) (unfold Dict.get in refl)

-- The counter stands at 4 and the journal at 7: the counter was restored from an old backup.
abbrev restored : Dict SeqRow
restored =
    (
      "fx",
      record {
        seq = 4;
        epoch = 2;
        last_available_msc = some 500;
        available_msc_resyncs = 0;
        available_msc_max_correction_ms = 0;
        cluster_id = some "a";
      },
    )
    ∷ []

reconciled-Issued_example :
    let behind = record db { stream_seq = restored } in
    let journal = journal_head "fx" db.outcomes in
    let (table', bump) = reconcile_one restored "fx" (some "b") journal 1000 in
    let stamp = (mint table' "fx" 600).1 in
    Issued (row_or_fresh (some "b") (Dict.get restored "fx")) journal 1000 bump stamp
    × All (λ x. x.0 < stamp.seq) (sequenced "fx" behind.outcomes)
reconciled-Issued_example =
    reconciled-Issued (record db { stream_seq = restored }) "fx" (some "b") 1000 600

oldest_since : oldest_seq_since db "fx" 190 ≡ some 2
unfolding oldest_seq_since save call_all mint Dict.get Dict.put
oldest_since = refl

save_number_reused_example :
    let failed = save db none (envelope_at "fx" 400 []) none [] 400 (some committing) in
    let next = save failed.db none (envelope_at "fx" 410 []) none [] 410 none in
    (failed.raised ≡ true)
    × (failed.envelope.seq ≡ some ((stream_head db "fx").seq + 1))
    × (failed.db ≡ db)
    × (next.envelope.seq ≡ failed.envelope.seq)
    × (next.db.outcomes
        ≡ db.outcomes ++ journal_row (envelope_at "fx" 410 []) next.envelope none ∷ [])
save_number_reused_example =
    save_number_reused db (envelope_at "fx" 400 []) (envelope_at "fx" 410 []) none none none none []
      [] 400 410 committing refl refl

abbrev pub cfg : StreamReplay
cfg = record { window_hours = 24; max_frames = 2 }

pub not_stale : is_stale_epoch (stream_head db "fx") (some 1) ≡ false
unfolding is_stale_epoch stream_head save call_all mint Dict.get Dict.put
not_stale = refl

plan_since_exact_example :
    let head = stream_head db "fx" in
    let floor = floor_of cfg head (window_floor db cfg 500 "fx") in
    let start = max (0 + 1) floor in
    let p = plan db cfg 500 "fx" none (some 0) (some 1) none in
    (numbers p.envelopes ≡ segment start (head.seq + 1 - start))
    × (p.control ≡ (if ltb (0 + 1) floor then some (replay_truncated 0 floor 24) else none))
    × (p.emit_live ≡ true)
    × (length p.envelopes ≤ 2)
plan_since_exact_example =
    plan_since_exact db cfg 500 "fx" none 0 (some 1) db-IsGapless not_stale (omega arith)

-- A boot of the same stream on another cluster.
reconciled-IsGapless_example :
    ((stream_head (reconciled db "fx" (some "b") 1000) "fx").seq ≡ (stream_head db "fx").seq)
    × IsGapless (reconciled db "fx" (some "b") 1000) "fx"
reconciled-IsGapless_example = reconciled-IsGapless db "fx" (some "b") 1000 db-IsGapless
