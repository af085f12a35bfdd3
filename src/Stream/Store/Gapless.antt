-- ===== src/Stream/Store/Gapless.antt =====
-- The numbers of the envelopes that outcome_store.py stores for one stream.
use finiex_ragengine.Prelude.{
  ℕ, zero, suc, ◌+◌, String, ◌≡◌, refl, Option, none, some, List, [], ◌∷◌, ◌++◌, map, if◌then◌else◌,
  str_eq, eq_iff, Bool-cases, Option-cases, inl, inr,
}
use native.Mathlib.Numerals.{add-one}
use mathlib.Core.List.{map-append, append-nil}
use finiex_ragengine.Prelude.Dict
use finiex_ragengine.Prelude.Dict.{get-put}
use finiex_ragengine.Outcome.{AnalysisEnvelope, EpisodeUpsert}
use finiex_ragengine.Stream.Sequencer.{SeqRow, mint, row_or_fresh}
use finiex_ragengine.Stream.Store.{
  OutcomeRow, with_seq, head_of_row, Db, empty_db, SaveStep, save, stream_head, sequenced,
}

-- 1, 2, …, n
unfoldable pub one_to : ℕ → List ℕ
one_to zero = []
one_to (suc n) = one_to n ++ suc n ∷ []

-- The positions of one stream's stored envelopes, in the order in which they were stored.
unfoldable pub positions : Db → String → List ℕ
positions db pid = map (λ x. x.0) (sequenced pid db.outcomes)

-- The stored envelopes of the stream are numbered 1, 2, … up to its head, each once, in order.
abbrev pub IsGapless : Db → String → Type 0
IsGapless db pid = positions db pid ≡ one_to (stream_head db pid).seq

-- One call of `save` by some pass, with the failure that the database answers, if any.
pub record SaveCall : Type 0 where
  pub identity : Option String
  pub envelope : AnalysisEnvelope
  pub raw_output : Option String
  pub episodes : List EpisodeUpsert
  pub now_msc : ℕ
  pub fault : Option SaveStep

abbrev pub call : Db → SaveCall → Db
call db c = (save db c.identity c.envelope c.raw_output c.episodes c.now_msc c.fault).db

unfoldable pub call_all : Db → List SaveCall → Db
call_all db [] = db
call_all db (c ∷ cs) = call_all (call db c) cs

with_seq-append :
    (e : AnalysisEnvelope) (o : Option ℕ) (xs ys : List (ℕ × AnalysisEnvelope))
    → with_seq e o (xs ++ ys) ≡ with_seq e o xs ++ ys
with_seq-append e none xs ys = refl
with_seq-append e (some n) xs ys = refl

pub sequenced-append :
    (pid : String) (xs ys : List OutcomeRow)
    → sequenced pid (xs ++ ys) ≡ sequenced pid xs ++ sequenced pid ys
unfolding sequenced
sequenced-append pid [] ys = refl
sequenced-append pid (x ∷ xs) ys = elim (Bool-cases (str_eq x.pipeline_id pid)) [
  | inl e ↦
      rw (e, sequenced-append pid xs ys)
        (with_seq-append x.envelope x.envelope.seq (sequenced pid xs) (sequenced pid ys))
  | inr e ↦ rw e (sequenced-append pid xs ys)
]

-- A stream with no counter row is at position 0, which is where its fresh row starts.
pub head_seq : (o : Option SeqRow) → (row_or_fresh none o).seq ≡ (head_of_row o).seq
unfolding row_or_fresh head_of_row
head_seq none = refl
head_seq (some row) = refl

-- What a committed save does to the positions of any stream, and to its head.
pub save-positions :
    (db : Db) (c : SaveCall) (pid : String)
    → c.fault ≡ none
    → let n = (stream_head db c.envelope.pipeline_id).seq + 1 in
      (positions (call db c) pid ≡ (
        if str_eq c.envelope.pipeline_id pid then positions db pid ++ n ∷ [] else positions db pid))
      × ((stream_head (call db c) pid).seq
          ≡ (if str_eq c.envelope.pipeline_id pid then n else (stream_head db pid).seq))
unfolding save stream_head positions mint sequenced
save-positions db c pid e =
    let start = head_seq (Dict.get db.stream_seq c.envelope.pipeline_id) in
    rw (e, sequenced-append, map-append, get-put)
      (elim (Bool-cases (str_eq c.envelope.pipeline_id pid)) [
        | inl own ↦ rw own (rw start refl, rw start refl)
        | inr other ↦ rw other (append-nil _, refl)
      ])

-- A save that fails, at whatever step, gives its number back: the tables are what they were.
save-failed : (db : Db) (c : SaveCall) (step : SaveStep) → c.fault ≡ some step → call db c ≡ db
unfolding save
save-failed db c step e = rw e refl

call-IsGapless :
    (db : Db) (c : SaveCall) (pid : String) → IsGapless db pid → IsGapless (call db c) pid
unfolding one_to
call-IsGapless db c pid g = elim (Option-cases c.fault) [
  | inr w ↦ rw (save-failed db c w.0 w.1) g
  | inl e ↦
      let (stored, head) = save-positions db c pid e in
      elim (Bool-cases (str_eq c.envelope.pipeline_id pid)) [
        | inr other ↦ rw (stored, head, other) g
        | inl own ↦
            let same = (eq_iff c.envelope.pipeline_id pid).0 own in
            rw (stored, head, own, same, add-one, g) refl
      ]
]

-- Whatever passes save in whatever order, to one stream or to several, and whichever of the saves
-- fail and at whichever step: in every stream the stored envelopes stay numbered 1, 2, … up to the
-- stream's head, each once and in the order in which they were stored.
pub call_all-IsGapless :
    (db : Db) (cs : List SaveCall) (pid : String)
    → IsGapless db pid
    → IsGapless (call_all db cs) pid
unfolding call_all
call_all-IsGapless db [] pid g = g
call_all-IsGapless db (c ∷ cs) pid g =
    call_all-IsGapless (call db c) cs pid (call-IsGapless db c pid g)

pub empty-IsGapless : (pid : String) → IsGapless empty_db pid
unfolding positions sequenced stream_head one_to Dict.get
empty-IsGapless pid = refl
