-- ===== src/Stream/Store/Window.antt =====
-- The stream's reads of outcome_store.py as windows on one list.
use finiex_ragengine.Prelude.{
  ℕ, zero, suc, ◌+◌, ◌-◌, ◌≤◌, String, ◌≡◌, refl, ◌∙◌, sym, ap, Option, none, some, List, [], ◌∷◌,
  ◌++◌, arith, ltb, length, take, keep_if, Bool-cases, inl, inr, All, str_eq, min,
}
use finiex_ragengine.Outcome.{AnalysisEnvelope}
use finiex_ragengine.Stream.Store.{
  Db, OutcomeRow, sequenced, with_seq, envelopes_by_seq, stream_head,
}
use finiex_ragengine.Stream.Store.Gapless.{IsGapless, positions}
use finiex_ragengine.Stream.Store.Reads.{
  numbers, segment, one_to-segment, sorted_already, cons-segment, kept_numbers, length-numbers,
  length-segment,
}

abbrev pub drop {ℓ} : {A : Type ℓ} → ℕ → List A → List A
drop zero l = l
drop (suc n) [] = []
drop (suc n) (x ∷ l) = drop n l

module _ {ℓ} {A : Type ℓ} where
  drop-nil : (n : ℕ) → ◌≡◌ {A = List A} (drop n []) []
  drop-nil zero = refl
  drop-nil (suc n) = refl

  pub drop-drop : (a b : ℕ) (l : List A) → drop a (drop b l) ≡ drop (b + a) l
  drop-drop a zero l = ap (λ n. drop n l) (omega arith)
  drop-drop a (suc b) [] = drop-nil a ∙ sym (drop-nil (suc b + a))
  drop-drop a (suc b) (x ∷ l) =
      let up : suc (b + a) ≡ suc b + a = omega arith in
      drop-drop a b l ∙ ap (λ n. drop n (x ∷ l)) up

  pub take-drop : (n : ℕ) (l : List A) → take n l ++ drop n l ≡ l
  take-drop zero l = refl
  take-drop (suc n) [] = refl
  take-drop (suc n) (x ∷ l) = ap (λ r. x ∷ r) (take-drop n l)

  pub length-take : (n : ℕ) (l : List A) → length (take n l) ≡ min n (length l)
  length-take zero l = omega arith
  length-take (suc n) [] = omega arith
  length-take (suc n) (x ∷ l) = omega (arith, length-take n l)

  pub take_all : (n : ℕ) (l : List A) → length l ≤ n → take n l ≡ l
  take_all zero [] h = refl
  take_all zero (x ∷ l) h = absurd (omega arith)
  take_all (suc n) [] h = refl
  take_all (suc n) (x ∷ l) h = ap (λ r. x ∷ r) (take_all n l (omega arith))

  pub length-drop : (n : ℕ) (l : List A) → length (drop n l) ≡ length l - n
  length-drop zero l = omega arith
  length-drop (suc n) [] = omega arith
  length-drop (suc n) (x ∷ l) = omega (arith, length-drop n l)

-- the stored envelopes of one stream, each with its position
abbrev pub stored : Db → String → List (ℕ × AnalysisEnvelope)
stored db pid = sequenced pid db.outcomes

keep_if-drop :
    (after a k : ℕ) (l : List (ℕ × AnalysisEnvelope))
    → numbers l ≡ segment a k
    → keep_if (λ x. ltb after x.0) l ≡ drop (after + 1 - a) l
unfolding keep_if segment
keep_if-drop after a k [] e = sym (drop-nil (after + 1 - a))
keep_if-drop after a zero (x ∷ l) e = cc
keep_if-drop after a (suc k) (x ∷ l) e =
    let (own, rest) = cons-segment x l a k e in
    let later = keep_if-drop after (a + 1) k l rest in
    elim (Bool-cases (ltb after x.0)) [
      | inl h ↦
          let now : after + 1 - a ≡ 0 = ground arith in
          let next : after + 1 - (a + 1) ≡ 0 = ground arith in
          rw (h, now) (ap (λ r. x ∷ r) (rw next at later))
      | inr h ↦
          let now : after + 1 - a ≡ suc (after + 1 - (a + 1)) = ground arith in rw (h, now) later
    ]

-- In a journal without a gap, a read after a position is a window on what is stored.
pub envelopes_by_seq-window :
    (db : Db) (pid : String) (after limit : ℕ)
    → IsGapless db pid
    → envelopes_by_seq db pid after limit ≡ take limit (drop after (stored db pid))
unfolding envelopes_by_seq positions
envelopes_by_seq-window db pid after limit g =
    let head = (stream_head db pid).seq in
    let all : numbers (stored db pid) ≡ segment 1 head = g ∙ one_to-segment head in
    let kept = keep_if-drop after 1 head (stored db pid) all in
    let from : after + 1 - 1 ≡ after = omega arith in
    ap (take limit)
      (sorted_already _ (after + 1) (head - after) (kept_numbers db pid after g) ∙ rw from at kept)

pub length-stored :
    (db : Db) (pid : String) → IsGapless db pid → length (stored db pid) ≡ (stream_head db pid).seq
unfolding positions
length-stored db pid g =
    sym (length-numbers (stored db pid))
    ∙ ap length (g ∙ one_to-segment (stream_head db pid).seq)
    ∙ length-segment 1 (stream_head db pid).seq

-- each stored envelope stands with its own number
abbrev pub Numbered : ℕ × AnalysisEnvelope → Type 0
Numbered x = x.1.seq ≡ some x.0

with_seq-Numbered :
    (e : AnalysisEnvelope) (o : Option ℕ) (l : List (ℕ × AnalysisEnvelope))
    → e.seq ≡ o
    → All Numbered l
    → All Numbered (with_seq e o l)
with_seq-Numbered e none l h a = a
with_seq-Numbered e (some n) l h a = (h, a)

sequenced-Numbered : (pid : String) (rows : List OutcomeRow) → All Numbered (sequenced pid rows)
unfolding sequenced
sequenced-Numbered pid [] = tt
sequenced-Numbered pid (row ∷ rows) = elim (Bool-cases (str_eq row.pipeline_id pid)) [
  | inl h ↦ rw h (
      with_seq-Numbered row.envelope row.envelope.seq (sequenced pid rows) refl
        (sequenced-Numbered pid rows))
  | inr h ↦ rw h (sequenced-Numbered pid rows)
]

All-drop : {A : Type 0} (P : A → Type 0) (n : ℕ) (l : List A) → All P l → All P (drop n l)
All-drop P zero l a = a
All-drop P (suc n) [] a = a
All-drop P (suc n) (x ∷ l) a = All-drop P n l a.1

All-take : {A : Type 0} (P : A → Type 0) (n : ℕ) (l : List A) → All P l → All P (take n l)
All-take P zero l a = tt
All-take P (suc n) [] a = a
All-take P (suc n) (x ∷ l) a = (a.0, All-take P n l a.1)

pub window-Numbered :
    (db : Db) (pid : String) (after limit : ℕ)
    → All Numbered (take limit (drop after (stored db pid)))
window-Numbered db pid after limit =
    All-take Numbered limit _ (All-drop Numbered after _ (sequenced-Numbered pid db.outcomes))

-- what is stored after a position
pub numbers-after :
    (db : Db) (pid : String) (after : ℕ)
    → IsGapless db pid
    → numbers (drop after (stored db pid)) ≡ segment (after + 1) ((stream_head db pid).seq - after)
unfolding positions
numbers-after db pid after g =
    let head = (stream_head db pid).seq in
    let all : numbers (stored db pid) ≡ segment 1 head = g ∙ one_to-segment head in
    let kept = keep_if-drop after 1 head (stored db pid) all in
    let from : after + 1 - 1 ≡ after = omega arith in
    ap numbers (sym (rw from at kept)) ∙ kept_numbers db pid after g
