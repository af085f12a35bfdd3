-- ===== src/Stream/Sequencer/Rewind.antt =====
-- The boot-time reconciliation of stream_sequencer.py, and the stamps that follow it.
use text.Mathlib.TextPositions.{eq_refl}
use finiex_ragengine.Prelude.{
  ℕ, ◌+◌, ◌≤◌, ◌<◌, String, ◌≡◌, refl, false, ◌||◌, Option, none, some, arith, ltb, is_some, eq_iff,
  Option-cases, inl, inr,
}
use finiex_ragengine.Prelude.Dict
use finiex_ragengine.Prelude.Dict.{Dict, get-put}
use finiex_ragengine.Stream.Types.{StreamStamp, EpochBump}
use finiex_ragengine.Stream.Sequencer.{
  SeqRow, row_or_fresh, stamp_of, mint, changed, note_cluster, reconcile_row, reconcile_one,
}

-- A bump happens exactly when the counter lies behind the journal or a known fingerprint changed.
bump_exact :
    (pid : String) (c : Option String) (jseq jepoch now_s : ℕ) (row : SeqRow)
    → is_some (reconcile_row pid c jseq jepoch now_s row).1
      ≡ (ltb row.seq jseq || changed c row.cluster_id)
unfolding reconcile_row
bump_exact pid c jseq jepoch now_s row = ground arith

-- What a bump issues: an epoch above the stored one and the journal's, a position at or above both.
bump_values :
    (pid : String) (c : Option String) (jseq jepoch now_s : ℕ) (row : SeqRow) (b : EpochBump)
    → (reconcile_row pid c jseq jepoch now_s row).1 ≡ some b
    → let row' = (reconcile_row pid c jseq jepoch now_s row).0 in
      (row.epoch < row'.epoch)
      × (jepoch < row'.epoch)
      × (now_s ≤ row'.epoch)
      × (jseq ≤ row'.seq)
      × (row.seq ≤ row'.seq)
      × (b.new_epoch ≡ row'.epoch)
      × (b.new_seq ≡ row'.seq)
unfolding reconcile_row note_cluster
bump_values pid c jseq jepoch now_s row b e = ground arith

no_bump_values :
    (pid : String) (c : Option String) (jseq jepoch now_s : ℕ) (row : SeqRow)
    → (reconcile_row pid c jseq jepoch now_s row).1 ≡ none
    → let row' = (reconcile_row pid c jseq jepoch now_s row).0 in
      (row'.epoch ≡ row.epoch) × (row'.seq ≡ row.seq) × (jseq ≤ row.seq)
unfolding reconcile_row note_cluster
no_bump_values pid c jseq jepoch now_s row e = ground arith

changed_self : (c : Option String) → changed c c ≡ false
unfolding changed
changed_self none = refl
changed_self (some c) = ground (arith, eq_iff c c)

cluster_settled :
    (pid : String) (c : Option String) (jseq jepoch now_s : ℕ) (row : SeqRow)
    → changed c (reconcile_row pid c jseq jepoch now_s row).0.cluster_id ≡ false
unfolding reconcile_row note_cluster changed
cluster_settled pid none jseq jepoch now_s row = refl
cluster_settled pid (some c) jseq jepoch now_s row = elim (Option-cases row.cluster_id) [
  | inl e ↦ ground (arith, eq_iff c c)
  | inr w ↦ ground (arith, w.1, eq_iff c c, eq_iff c w.0)
]

seq_settled :
    (pid : String) (c : Option String) (jseq jepoch now_s : ℕ) (row : SeqRow)
    → ltb (reconcile_row pid c jseq jepoch now_s row).0.seq jseq ≡ false
unfolding reconcile_row note_cluster
seq_settled pid c jseq jepoch now_s row = ground arith

settled :
    (pid : String) (c : Option String) (jseq jepoch now_s later : ℕ) (row : SeqRow)
    → is_some
        (reconcile_row pid c jseq jepoch later (reconcile_row pid c jseq jepoch now_s row).0).1
      ≡ false
settled pid c jseq jepoch now_s later row =
    let row' = (reconcile_row pid c jseq jepoch now_s row).0 in
    cc (
      bump_exact pid c jseq jepoch later row',
      cluster_settled pid c jseq jepoch now_s row,
      seq_settled pid c jseq jepoch now_s row,
    )

abbrev row_of : Dict SeqRow → String → Option String → SeqRow
row_of table pid c = row_or_fresh c (Dict.get table pid)

none_of : {A : Type 0} (o : Option A) → is_some o ≡ false → o ≡ none
none_of none e = refl
none_of (some a) e = cc

-- Reconciling is settled by one pass: with the same evidence, a second one bumps nothing, whatever
-- the clock then reads.
pub reconcile_one_settles :
    (table : Dict SeqRow) (pid : String) (c : Option String) (journal : ℕ × ℕ) (now_s later : ℕ)
    → (reconcile_one (reconcile_one table pid c journal now_s).0 pid c journal later).1 ≡ none
unfolding reconcile_one row_or_fresh
reconcile_one_settles table pid c journal now_s later =
    rw (get-put, eq_refl)
      (none_of _ (settled pid c journal.0 journal.1 now_s later (row_of table pid c)))

-- What a reconciliation finds, and what the stream's next mint then issues.
abbrev pub Issued : SeqRow → ℕ × ℕ → ℕ → Option EpochBump → StreamStamp → Type 0
Issued row journal now_s none stamp =
    (journal.0 < stamp.seq) × (stamp.seq ≡ row.seq + 1) × (stamp.epoch ≡ row.epoch)
Issued row journal now_s (some b) stamp =
    (journal.0 < stamp.seq)
    × (row.seq < stamp.seq)
    × (row.epoch < stamp.epoch)
    × (journal.1 < stamp.epoch)
    × (now_s ≤ stamp.epoch)
    × (stamp.epoch ≡ b.new_epoch)
    × (stamp.seq ≡ b.new_seq + 1)

reconcile_row-Issued :
    (pid : String) (c : Option String) (journal : ℕ × ℕ) (now_s now : ℕ) (row : SeqRow)
    (bump : Option EpochBump)
    → (reconcile_row pid c journal.0 journal.1 now_s row).1 ≡ bump
    → Issued row journal now_s bump
        (stamp_of now (reconcile_row pid c journal.0 journal.1 now_s row).0)
unfolding stamp_of
reconcile_row-Issued pid c journal now_s now row none e =
    omega (arith, no_bump_values pid c journal.0 journal.1 now_s row e)
reconcile_row-Issued pid c journal now_s now row (some b) e =
    omega (arith, bump_values pid c journal.0 journal.1 now_s row b e)

-- After a reconciliation against any head of a journal the stream's next position lies above it.
-- Without a bump it carries on from the counter in the same epoch; with one, its epoch is above the
-- stored one and the head's, and at or above the wall clock's second.
pub reconcile_one-Issued :
    (table : Dict SeqRow) (pid : String) (c : Option String) (journal : ℕ × ℕ) (now_s now : ℕ)
    → let (table', bump) = reconcile_one table pid c journal now_s in
      Issued (row_or_fresh c (Dict.get table pid)) journal now_s bump (mint table' pid now).1
unfolding reconcile_one mint row_or_fresh
reconcile_one-Issued table pid c journal now_s now =
    rw (get-put, eq_refl) (reconcile_row-Issued pid c journal now_s now (row_of table pid c) _ refl)

-- The epoch is bumped exactly when the counter lies behind the journal, or when the cluster's
-- fingerprint is known both now and then and differs: an unreadable or unrecorded fingerprint is
-- no evidence, and a stream seen for the first time is bumped only if its journal has rows.
reconcile_one_exact :
    (table : Dict SeqRow) (pid : String) (c : Option String) (journal : ℕ × ℕ) (now_s : ℕ)
    → is_some (reconcile_one table pid c journal now_s).1 ≡ (
        ltb (row_or_fresh c (Dict.get table pid)).seq journal.0
        || changed c (row_or_fresh c (Dict.get table pid)).cluster_id)
unfolding reconcile_one
reconcile_one_exact table pid c journal now_s =
    bump_exact pid c journal.0 journal.1 now_s (row_of table pid c)
