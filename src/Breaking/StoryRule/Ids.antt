-- ===== src/Breaking/StoryRule/Ids.antt =====
-- The last loop of `assign_stories` in finiexragengine/core/pipeline/breaking_story_rule.py: the ids
-- that it gives the clusters.
use finiex_ragengine.Prelude.{
  ℕ, zero, suc, ◌+◌, ◌≤◌, ◌≡◌, refl, sym, ap, ◌∙◌, none, some, List, [], ◌∷◌, max, length,
  get_elem?, each_cons, Option-cases, inl, inr, ◌↔◌, arith,
}
use finiex_ragengine.Breaking.StoryRule.{seen_id, next_id, number}
use finiex_ragengine.Breaking.StoryRule.Roots.{IsForest, find-cls, some-injective}

-- The ids of the labels from `index` on.
pub ids_of : (ℕ → ℕ) → ℕ → ℕ → List (ℕ × ℕ) → List ℕ
unfolding seen_id
ids_of cls zero index seen = []
ids_of cls (suc n) index seen =
    let (noted, id) = next_id seen (cls index) (seen_id seen (cls index)) in
    id ∷ ids_of cls n (suc index) noted

pub number-ids_of :
    (size n index : ℕ) (parent : List ℕ) (cls : ℕ → ℕ) (seen : List (ℕ × ℕ))
    → n + index ≤ size
    → IsForest size parent cls
    → number size n index parent seen ≡ some (ids_of cls n index seen)
unfolding number ids_of
number-ids_of size zero index parent cls seen h f = refl
number-ids_of size (suc n) index parent cls seen h f =
    let (p, found, g) = find-cls size size index parent cls (omega arith) (omega arith) f in
    let noted = (next_id seen (cls index) (seen_id seen (cls index))).0 in
    rw found (rw (number-ids_of size n (suc index) p cls noted (omega arith) g) refl)

pub length-ids_of :
    (cls : ℕ → ℕ) (n index : ℕ) (seen : List (ℕ × ℕ)) → length (ids_of cls n index seen) ≡ n
unfolding ids_of
length-ids_of cls zero index seen = refl
length-ids_of cls (suc n) index seen =
    ap suc (length-ids_of cls n (suc index) (next_id seen (cls index) (seen_id seen (cls index))).0)

-- Each id is one that occurred before or the next one: `m` is the greatest before.
unfoldable pub InFirstSeenOrder : ℕ → List ℕ → Type 0
InFirstSeenOrder m [] = Unit
InFirstSeenOrder m (x ∷ xs) = (1 ≤ x) × (x ≤ suc m) × InFirstSeenOrder (max m x) xs

-- The roots that are seen have ids of their own, from 1 to their number.
record IsNumbered (seen : List (ℕ × ℕ)) : Type 0 where
  bounded : (r v : ℕ) → seen_id seen r ≡ some v → (1 ≤ v) × (v ≤ length seen)
  alone : (r s v : ℕ) → seen_id seen r ≡ some v → seen_id seen s ≡ some v → r ≡ s

empty-IsNumbered : IsNumbered []
unfolding seen_id
empty-IsNumbered = record { bounded = λ r v e. cc; alone = λ r s v e d. cc }

new-IsNumbered :
    (seen : List (ℕ × ℕ)) (root : ℕ)
    → seen_id seen root ≡ none
    → IsNumbered seen
    → IsNumbered ((root, suc (length seen)) ∷ seen)
unfolding seen_id
new-IsNumbered seen root new h = record {
  bounded = λ r v e. ground (arith, h.bounded r v);
  alone = λ r s v e d. ground (arith, h.bounded r v, h.bounded s v, h.alone r s v);
}

-- `next_id` keeps the numbering and every id in it, and returns the id that the root now has.
record Notes (seen : List (ℕ × ℕ)) (root : ℕ) (noted : List (ℕ × ℕ)) (id : ℕ) : Type 0 where
  numbered : IsNumbered noted
  kept : (r v : ℕ) → seen_id seen r ≡ some v → seen_id noted r ≡ some v
  given : seen_id noted root ≡ some id
  counted : length noted ≡ max (length seen) id
  fresh : id ≤ suc (length seen)

next_id-Notes :
    (seen : List (ℕ × ℕ)) (root : ℕ)
    → IsNumbered seen
    → let (noted, id) = next_id seen root (seen_id seen root) in Notes seen root noted id
unfolding seen_id
next_id-Notes seen root h = elim (Option-cases (seen_id seen root)) [
  | inl e ↦ rw e (record {
    numbered = new-IsNumbered seen root e h;
    kept = λ r v d. ground (arith, e, d);
    given = ground arith;
    counted = omega arith;
    fresh = omega arith;
  })
  | inr (id, e) ↦
      let bound = h.bounded root id e in
      rw e (record {
        numbered = h;
        kept = λ r v d. d;
        given = e;
        counted = omega arith;
        fresh = omega arith;
      })
]

-- The ids of a run are those that the roots have at its end.
record Ends (cls : ℕ → ℕ) (index : ℕ) (seen : List (ℕ × ℕ)) (ids : List ℕ) : Type 0 where
  last : List (ℕ × ℕ)
  numbered : IsNumbered last
  kept : (r v : ℕ) → seen_id seen r ≡ some v → seen_id last r ≡ some v
  given : (k v : ℕ) → get_elem? ids k ≡ some v → seen_id last (cls (k + index)) ≡ some v
  ordered : InFirstSeenOrder (length seen) ids

ids_of-Ends :
    (cls : ℕ → ℕ) (n index : ℕ) (seen : List (ℕ × ℕ))
    → IsNumbered seen
    → Ends cls index seen (ids_of cls n index seen)
unfolding ids_of InFirstSeenOrder
ids_of-Ends cls zero index seen h = record {
  last = seen;
  numbered = h;
  kept = λ r v e. e;
  given = λ k v e. cc;
  ordered = tt;
}
ids_of-Ends cls (suc n) index seen h =
    let root = cls index in
    let step = next_id seen root (seen_id seen root) in
    let noted = next_id-Notes seen root h in
    let rest = ids_of-Ends cls n (suc index) step.0 noted.numbered in
    let here = rest.kept root step.1 noted.given in
    let at_index : 0 + index ≡ index = omega arith in
    let next : (m : ℕ) → suc m + index ≡ m + suc index = λ m. omega arith in
    let bound = noted.numbered.bounded root step.1 noted.given in
    record {
      last = rest.last;
      numbered = rest.numbered;
      kept = λ r v e. rest.kept r v (noted.kept r v e);
      given =
          each_cons (λ m v. seen_id rest.last (cls (m + index)) ≡ some v) step.1
            (ids_of cls n (suc index) step.0) (rw at_index here)
            (λ m v g. rw (next m) (rest.given m v g));
      ordered = (bound.0, noted.fresh, rw noted.counted at rest.ordered);
    }

-- Two ids of a run are equal exactly where the labels are, and the ids come in first-seen order.
pub ids_of-eq :
    (cls : ℕ → ℕ) (n i j a b : ℕ)
    → get_elem? (ids_of cls n 0 []) i ≡ some a
    → get_elem? (ids_of cls n 0 []) j ≡ some b
    → (a ≡ b) ↔ (cls i ≡ cls j)
ids_of-eq cls n i j a b g h =
    let run = ids_of-Ends cls n 0 [] empty-IsNumbered in
    let at_i : i + 0 ≡ i = omega arith in
    let at_j : j + 0 ≡ j = omega arith in
    let p : seen_id run.last (cls i) ≡ some a = rw at_i at (run.given i a g) in
    let q : seen_id run.last (cls j) ≡ some b = rw at_j at (run.given j b h) in
    (
      λ e. run.numbered.alone (cls i) (cls j) b (p ∙ ap some e) q,
      λ e. some-injective (sym p ∙ ap (seen_id run.last) e ∙ q),
    )

pub ids_of-InFirstSeenOrder : (cls : ℕ → ℕ) (n : ℕ) → InFirstSeenOrder 0 (ids_of cls n 0 [])
ids_of-InFirstSeenOrder cls n = (ids_of-Ends cls n 0 [] empty-IsNumbered).ordered
