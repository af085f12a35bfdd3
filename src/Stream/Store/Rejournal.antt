-- ===== src/Stream/Store/Rejournal.antt =====
-- A boot's reconciliation against the stream's own journal (stream_sequencer.py).
use text.Mathlib.TextPositions.{eq_refl}
use finiex_ragengine.Prelude.{
  ℕ, zero, suc, String, ◌≡◌, refl, ◌∙◌, sym, ap, Option, none, some, List, [], ◌∷◌, ◌++◌, map, max,
  arith, if_true, str_eq, All, All-imp, ◌≤◌, ◌<◌, Bool-cases, inl, inr,
}
use finiex_ragengine.Prelude.Dict
use finiex_ragengine.Prelude.Dict.{get-put}
use finiex_ragengine.Outcome.{AnalysisEnvelope}
use finiex_ragengine.Stream.Sequencer.{
  SeqRow, row_or_fresh, note_cluster, reconcile_row, reconcile_one, mint,
}
use finiex_ragengine.Stream.Types.{StreamStamp, EpochBump}
use finiex_ragengine.Stream.Sequencer.Rewind.{Issued, reconcile_one-Issued}
use finiex_ragengine.Stream.Store.{
  Db, OutcomeRow, at_least, journal_head, with_seq, sequenced, head_of_row, stream_head,
}
use finiex_ragengine.Stream.Store.Gapless.{IsGapless, positions, one_to}

top_of : List ℕ → ℕ
top_of [] = 0
top_of (x ∷ l) = max x (top_of l)

top_of-with_seq :
    (e : AnalysisEnvelope) (o : Option ℕ) (l : List (ℕ × AnalysisEnvelope))
    → top_of (map (λ x. x.0) (with_seq e o l)) ≡ at_least o (top_of (map (λ x. x.0) l))
unfolding top_of
top_of-with_seq e none l = refl
top_of-with_seq e (some n) l = refl

journal_head-top_of :
    (pid : String) (rows : List OutcomeRow)
    → (journal_head pid rows).0 ≡ top_of (map (λ x. x.0) (sequenced pid rows))
unfolding journal_head sequenced top_of
journal_head-top_of pid [] = refl
journal_head-top_of pid (row ∷ rows) = elim (Bool-cases (str_eq row.pipeline_id pid)) [
  | inl h ↦ rw h (
      ap (at_least row.envelope.seq) (journal_head-top_of pid rows)
      ∙ sym (top_of-with_seq row.envelope row.envelope.seq (sequenced pid rows)))
  | inr h ↦ rw h (journal_head-top_of pid rows)
]

top_of-append : (l : List ℕ) (x : ℕ) → top_of (l ++ x ∷ []) ≡ max (top_of l) x
unfolding top_of
top_of-append [] x = omega arith
top_of-append (y ∷ l) x = omega (arith, top_of-append l x)

top_of-one_to : (n : ℕ) → top_of (one_to n) ≡ n
unfolding one_to top_of
top_of-one_to zero = refl
top_of-one_to (suc n) = top_of-append (one_to n) (suc n) ∙ omega (arith, top_of-one_to n)

row_seq : (c : Option String) (o : Option SeqRow) → (row_or_fresh c o).seq ≡ (head_of_row o).seq
unfolding row_or_fresh head_of_row
row_seq c none = refl
row_seq c (some row) = refl

reconcile_row-seq :
    (pid : String) (c : Option String) (jseq jepoch now_s : ℕ) (row : SeqRow)
    → jseq ≡ row.seq
    → (reconcile_row pid c jseq jepoch now_s row).0.seq ≡ row.seq
unfolding reconcile_row note_cluster
reconcile_row-seq pid c jseq jepoch now_s row h = ground arith

abbrev pub reconciled : Db → String → Option String → ℕ → Db
reconciled db pid c now_s = record db {
  stream_seq = (reconcile_one db.stream_seq pid c (journal_head pid db.outcomes) now_s).0;
}

-- Where a stream's journal has no gap up to its counter, a boot's reconciliation of that stream
-- against its own journal leaves the counter where it is, whether or not it bumps the epoch, so
-- the journal still has no gap up to the counter.
pub reconciled-IsGapless :
    (db : Db) (pid : String) (c : Option String) (now_s : ℕ)
    → IsGapless db pid
    → ((stream_head (reconciled db pid c now_s) pid).seq ≡ (stream_head db pid).seq)
      × IsGapless (reconciled db pid c now_s) pid
unfolding stream_head positions reconcile_one head_of_row
reconciled-IsGapless db pid c now_s g =
    let row = row_or_fresh c (Dict.get db.stream_seq pid) in
    let journal = journal_head pid db.outcomes in
    let own = row_seq c (Dict.get db.stream_seq pid) in
    let top : journal.0 ≡ (head_of_row (Dict.get db.stream_seq pid)).seq =
      journal_head-top_of pid db.outcomes ∙ ap top_of g ∙ top_of-one_to _ in
    let kept = reconcile_row-seq pid c journal.0 journal.1 now_s row (top ∙ sym own) ∙ own in
    let row' = (reconcile_row pid c journal.0 journal.1 now_s row).0 in
    let found = get-put db.stream_seq pid pid row' ∙ if_true (str_eq pid pid) _ _ (eq_refl pid) in
    let same = ap (λ o. (head_of_row o).seq) found ∙ kept in (same, g ∙ ap one_to (sym same))

top_of-All : (l : List (ℕ × AnalysisEnvelope)) → All (λ x. x.0 ≤ top_of (map (λ x. x.0) l)) l
unfolding top_of
top_of-All [] = tt
top_of-All (x ∷ l) = (
  omega arith,
  All-imp _ _ l
      (λ (y : ℕ × AnalysisEnvelope) (h : y.0 ≤ top_of (map (λ x. x.0) l)). omega (arith, h))
      (top_of-All l),
)

Issued-above :
    (row : SeqRow) (journal : ℕ × ℕ) (now_s : ℕ) (bump : Option EpochBump) (stamp : StreamStamp)
    → Issued row journal now_s bump stamp
    → journal.0 < stamp.seq
Issued-above row journal now_s none stamp h = h.0
Issued-above row journal now_s (some b) stamp h = h.0

-- After a boot's reconciliation with the stream's own journal, the next position lies above every
-- position that the journal holds for the stream. Without a bump it carries on from the counter in the
-- same epoch; with one, its epoch is above the counter's and above the greatest in the journal, and at
-- or above the wall clock's second.
pub reconciled-Issued :
    (db : Db) (pid : String) (c : Option String) (now_s now : ℕ)
    → let journal = journal_head pid db.outcomes in
      let (table', bump) = reconcile_one db.stream_seq pid c journal now_s in
      let stamp = (mint table' pid now).1 in
      Issued (row_or_fresh c (Dict.get db.stream_seq pid)) journal now_s bump stamp
      × All (λ x. x.0 < stamp.seq) (sequenced pid db.outcomes)
reconciled-Issued db pid c now_s now =
    let journal = journal_head pid db.outcomes in
    let (table', bump) = reconcile_one db.stream_seq pid c journal now_s in
    let stamp = (mint table' pid now).1 in
    let row = row_or_fresh c (Dict.get db.stream_seq pid) in
    let issued = reconcile_one-Issued db.stream_seq pid c journal now_s now in
    let above = Issued-above row journal now_s bump stamp issued in
    let seqs = sequenced pid db.outcomes in
    let head = journal_head-top_of pid db.outcomes in
    (
      issued,
      All-imp _ _ seqs
          (λ (x : ℕ × AnalysisEnvelope) (h : x.0 ≤ top_of (map (λ x. x.0) seqs)).
            omega (arith, h, head, above))
          (top_of-All seqs),
    )
