-- ===== src/Stream/Store/Reads.antt =====
-- The stream's reads of outcome_store.py from a journal without a gap.
use finiex_ragengine.Prelude.{
  ℕ, zero, suc, ◌+◌, ◌-◌, ◌≤◌, String, ◌≡◌, refl, ◌∙◌, sym, ap, Option, none, some, List, [],
  length, ◌∷◌, ◌++◌, map, max, min, arith, str_eq, Bool-cases, inl, inr, ltb, leb, ltb→lt,
  not_ltb→le, le→leb, take, keep_if, All,
}
use mathlib.Core.Path.{subst}
use mathlib.Core.Option.{some-injective}
use finiex_ragengine.Outcome.{AnalysisEnvelope}
use finiex_ragengine.Stream.Store.{
  Db, OutcomeRow, stream_head, sequenced, oldest_seq, oldest_seq_since, with_seq, least, least_seq,
  insert_by_seq, sort_by_seq, envelopes_by_seq,
}
use finiex_ragengine.Stream.Store.Gapless.{one_to, positions, IsGapless}

-- k positions from a on
unfoldable pub segment : ℕ → ℕ → List ℕ
segment a zero = []
segment a (suc k) = a ∷ segment (a + 1) k

pub segment-snoc : (a k : ℕ) → segment a (suc k) ≡ segment a k ++ (a + k) ∷ []
unfolding segment
segment-snoc a zero = ap (λ (x : ℕ). x ∷ []) (omega arith)
segment-snoc a (suc k) =
    ap (λ l. a ∷ l)
      (segment-snoc (a + 1) k ∙ ap (λ (x : ℕ). segment (a + 1) k ++ x ∷ []) (omega arith))

pub one_to-segment : (n : ℕ) → one_to n ≡ segment 1 n
unfolding one_to segment
one_to-segment zero = refl
one_to-segment (suc n) =
    rw (one_to-segment n)
      (ap (λ (x : ℕ). segment 1 n ++ x ∷ []) (omega arith) ∙ sym (segment-snoc 1 n))

keep_if-segment :
    (after a k : ℕ)
    → keep_if (ltb after) (segment a k) ≡ segment (max a (after + 1)) (a + k - max a (after + 1))
unfolding keep_if segment
keep_if-segment after a zero =
    let e : 0 ≡ a + 0 - max a (after + 1) = omega arith in ap (segment (max a (after + 1))) e
keep_if-segment after a (suc k) =
    let ih = keep_if-segment after (a + 1) k in
    elim (Bool-cases (ltb after a)) [
      | inl e ↦
          let lt = ltb→lt after a e in
          let top : max a (after + 1) ≡ a = omega arith in
          let top' : max (a + 1) (after + 1) ≡ a + 1 = omega arith in
          let left : a + suc k - a ≡ suc k = omega arith in
          let left' : a + 1 + k - (a + 1) ≡ k = omega arith in
          rw (e, top, left) (ap (λ l. a ∷ l) (rw (top', left') at ih))
      | inr e ↦
          let le = not_ltb→le after a e in
          let top : max a (after + 1) ≡ max (a + 1) (after + 1) = omega arith in
          let left : a + suc k - max (a + 1) (after + 1) ≡ a + 1 + k - max (a + 1) (after + 1) =
            omega arith in
          rw (e, top, left) ih
    ]

take-segment : (n a k : ℕ) → take n (segment a k) ≡ segment a (min n k)
unfolding segment
take-segment zero a k = let e : 0 ≡ min 0 k = omega arith in ap (segment a) e
take-segment (suc n) a zero = let e : 0 ≡ min (suc n) 0 = omega arith in ap (segment a) e
take-segment (suc n) a (suc k) =
    let e : min (suc n) (suc k) ≡ suc (min n k) = omega arith in
    rw e (ap (λ l. a ∷ l) (take-segment n (a + 1) k))

abbrev pub numbers : List (ℕ × AnalysisEnvelope) → List ℕ
numbers l = map (λ x. x.0) l

numbers-keep_if :
    (after : ℕ) (l : List (ℕ × AnalysisEnvelope))
    → numbers (keep_if (λ x. ltb after x.0) l) ≡ keep_if (ltb after) (numbers l)
unfolding keep_if
numbers-keep_if after [] = refl
numbers-keep_if after (x ∷ l) = ground (arith, numbers-keep_if after l)

numbers-take : (n : ℕ) (l : List (ℕ × AnalysisEnvelope)) → numbers (take n l) ≡ take n (numbers l)
numbers-take zero l = refl
numbers-take (suc n) [] = refl
numbers-take (suc n) (x ∷ l) = ap (λ r. x.0 ∷ r) (numbers-take n l)

insert_least :
    (x y : ℕ × AnalysisEnvelope) (l : List (ℕ × AnalysisEnvelope))
    → x.0 ≤ y.0
    → insert_by_seq x (y ∷ l) ≡ x ∷ y ∷ l
unfolding insert_by_seq
insert_least x y l h = rw (le→leb x.0 y.0 h) refl

-- The head and the tail of a list that is a segment.
pub cons-segment :
    (x : ℕ × AnalysisEnvelope) (l : List (ℕ × AnalysisEnvelope)) (a k : ℕ)
    → numbers (x ∷ l) ≡ segment a (suc k)
    → (x.0 ≡ a) × (numbers l ≡ segment (a + 1) k)
unfolding segment
cons-segment x l a k e = (cc, cc)

-- a list that is in order already is left as it is
pub sorted_already :
    (l : List (ℕ × AnalysisEnvelope)) (a k : ℕ) → numbers l ≡ segment a k → sort_by_seq l ≡ l
unfolding sort_by_seq segment insert_by_seq
sorted_already [] a k e = refl
sorted_already (x ∷ l) a zero e = cc
sorted_already (x ∷ []) a (suc k) e = refl
sorted_already (x ∷ y ∷ l) a (suc zero) e = cc
sorted_already (x ∷ y ∷ l) a (suc (suc k)) e =
    let outer = cons-segment x (y ∷ l) a (suc k) e in
    let inner = cons-segment y l (a + 1) k outer.1 in
    rw (sorted_already (y ∷ l) (a + 1) (suc k) outer.1) (insert_least x y l (omega arith))

pub length-numbers : (l : List (ℕ × AnalysisEnvelope)) → length (numbers l) ≡ length l
length-numbers [] = refl
length-numbers (x ∷ l) = ap suc (length-numbers l)

pub length-segment : (a k : ℕ) → length (segment a k) ≡ k
unfolding segment
length-segment a zero = refl
length-segment a (suc k) = ap suc (length-segment (a + 1) k)

pub kept_numbers :
    (db : Db) (pid : String) (after : ℕ)
    → IsGapless db pid
    → numbers (keep_if (λ x. ltb after x.0) (sequenced pid db.outcomes))
      ≡ segment (after + 1) ((stream_head db pid).seq - after)
unfolding positions
kept_numbers db pid after g =
    let head = (stream_head db pid).seq in
    let top : max 1 (after + 1) ≡ after + 1 = omega arith in
    let left : 1 + head - (after + 1) ≡ head - after = omega arith in
    rw (numbers-keep_if after (sequenced pid db.outcomes), g, one_to-segment head)
      (rw (top, left) at (keep_if-segment after 1 head))

-- In a journal without a gap, the read after position `after` returns the stream's envelopes from
-- `after + 1` on, in order and none left out, up to the head or to the limit, whichever is first.
pub envelopes_by_seq-segment :
    (db : Db) (pid : String) (after limit : ℕ)
    → IsGapless db pid
    → numbers (envelopes_by_seq db pid after limit)
      ≡ segment (after + 1) (min limit ((stream_head db pid).seq - after))
unfolding envelopes_by_seq positions
envelopes_by_seq-segment db pid after limit g =
    let left = (stream_head db pid).seq - after in
    let kept = kept_numbers db pid after g in
    rw (sorted_already _ (after + 1) left kept, numbers-take, kept)
      (take-segment limit (after + 1) left)

All-segment :
    (lo hi a k : ℕ) → lo ≤ a → a + k ≤ hi + 1 → All (λ n. (lo ≤ n) × (n ≤ hi)) (segment a k)
unfolding segment
All-segment lo hi a zero h i = tt
All-segment lo hi a (suc k) h i =
    ((h, omega arith), All-segment lo hi (a + 1) k (omega arith) (omega arith))

with_seq-All :
    (P : ℕ → Type 0) (e : AnalysisEnvelope) (o : Option ℕ) (l : List (ℕ × AnalysisEnvelope))
    → All P (numbers (with_seq e o l))
    → All P (numbers l) × ((m : ℕ) → o ≡ some m → P m)
with_seq-All P e none l h = (h, λ m q. absurd (cc))
with_seq-All P e (some n) l h = (h.1, λ m q. subst P (some-injective _ _ q) h.0)

least-choice :
    (P : ℕ → Type 0) (a n : ℕ) (rest : Option ℕ)
    → P a
    → ((m : ℕ) → rest ≡ some m → P m)
    → least a rest ≡ some n
    → P n
least-choice P a n none h i e = subst P (some-injective _ _ e) h
least-choice P a n (some m) h i e = elim (Bool-cases (leb a m)) [
  | inl le ↦ subst P (some-injective _ _ (rw le at e)) h
  | inr gt ↦ subst P (some-injective _ _ (rw gt at e)) (i m refl)
]

least_seq-choice :
    (P : ℕ → Type 0) (n : ℕ) (o rest : Option ℕ)
    → ((m : ℕ) → o ≡ some m → P m)
    → ((m : ℕ) → rest ≡ some m → P m)
    → least_seq o rest ≡ some n
    → P n
least_seq-choice P n none rest h i e = i n e
least_seq-choice P n (some a) rest h i e = least-choice P a n rest (h a refl) i e

-- the least of a stream's numbers since an instant is one of its numbers
oldest_seq-All :
    (P : ℕ → Type 0) (pid : String) (cutoff : ℕ) (rows : List OutcomeRow)
    → All P (numbers (sequenced pid rows))
    → (n : ℕ) → oldest_seq pid cutoff rows ≡ some n
    → P n
unfolding sequenced oldest_seq
oldest_seq-All P pid cutoff [] all n e = absurd (cc)
oldest_seq-All P pid cutoff (row ∷ rows) all n e = elim (Bool-cases (str_eq row.pipeline_id pid)) [
  | inr other ↦ oldest_seq-All P pid cutoff rows (rw other at all) n (rw other at e)
  | inl own ↦
      let (later, here) =
        with_seq-All P row.envelope row.envelope.seq (sequenced pid rows) (rw own at all) in
      let ih = oldest_seq-All P pid cutoff rows later in
      elim (Bool-cases (leb cutoff row.ts)) [
        | inr old ↦ ih n (rw (own, old) at e)
        | inl recent ↦
            least_seq-choice P n row.envelope.seq (oldest_seq pid cutoff rows) here ih
              (rw (own, recent) at e)
      ]
]

-- In a journal without a gap, the oldest position inside a window is one of 1, …, head.
pub oldest_seq_since_bounds :
    (db : Db) (pid : String) (cutoff n : ℕ)
    → IsGapless db pid
    → oldest_seq_since db pid cutoff ≡ some n
    → (1 ≤ n) × (n ≤ (stream_head db pid).seq)
unfolding oldest_seq_since positions
oldest_seq_since_bounds db pid cutoff n g e =
    let head = (stream_head db pid).seq in
    let all : All (λ n. (1 ≤ n) × (n ≤ head)) (numbers (sequenced pid db.outcomes)) =
      rw (g, one_to-segment head) (All-segment 1 head 1 head (omega arith) (omega arith)) in
    oldest_seq-All (λ n. (1 ≤ n) × (n ≤ head)) pid cutoff db.outcomes all n e
