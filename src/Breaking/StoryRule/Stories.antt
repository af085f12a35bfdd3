-- ===== src/Breaking/StoryRule/Stories.antt =====
-- `assign_stories` of finiexragengine/core/pipeline/breaking_story_rule.py as a whole.
use finiex_ragengine.Prelude.{
  ℕ, zero, suc, ◌+◌, ◌<◌, ◌≡◌, refl, sym, ap, ◌∙◌, Bool, true, Option, none, some, List, [], ◌∷◌,
  map, length, length-map, get_elem?, get_elem?-lt, each_cons, ◌↔◌, arith, String, eq_iff,
}
use finiex_ragengine.Prelude.Dict.{Dict}
use finiex_ragengine.Breaking.StoryRule.{
  StoryCandidate, TextModel, StoryGrouping, vectors, is_same_news, range, zip, link_all, number,
  group_ids, assign_stories,
}
use finiex_ragengine.Breaking.StoryRule.Roots.{IsForest}
use finiex_ragengine.Breaking.StoryRule.Chains.{Chain, here, Chain_label, IsChained, equal_labels}
use finiex_ragengine.Breaking.StoryRule.Linked.{EachPair, link_all-Extends}
use finiex_ragengine.Breaking.StoryRule.Ids.{
  ids_of, number-ids_of, length-ids_of, InFirstSeenOrder, ids_of-eq, ids_of-InFirstSeenOrder,
}

-- Two items that the double loop compares and finds to be the same.
pub record AreLinked {T : Type 0} (same : T → T → Bool) (items : List T) (i j : ℕ) : Type 0 where
  pub first : T
  pub second : T
  pub at_i : get_elem? items i ≡ some first
  pub at_j : get_elem? items j ≡ some second
  pub before : i < j
  pub alike : same first second ≡ true

length-range : (start n : ℕ) → length (range start n) ≡ n
unfolding range
length-range start zero = refl
length-range start (suc n) = ap suc (length-range (suc start) n)

get_elem?-range : (n start k q : ℕ) → get_elem? (range start n) k ≡ some q → q ≡ k + start
unfolding range
get_elem?-range zero start k q e = cc
get_elem?-range (suc n) start k q e =
    each_cons (λ m v. v ≡ m + start) start (range (suc start) n) (omega arith)
      (λ m v g. omega (arith, get_elem?-range n (suc start) m v g)) k q e

range-IsForest : (n : ℕ) → IsForest n (range 0 n) (λ k. k)
range-IsForest n = record {
  size = length-range 0 n;
  falls = λ k q e. omega (arith, get_elem?-range n 0 k q e);
  agrees = λ k q e. omega (arith, get_elem?-range n 0 k q e);
  roots = λ k e. refl;
  settled = λ k. refl;
  below = λ k. omega arith;
}

-- A list of ids for the items: one for each, in first-seen order from 1, and equal exactly for items
-- that a chain of links joins.
pub record IsPartition {T : Type 0} (same : T → T → Bool) (items : List T) (ids : List ℕ)
    : Type 0 where
  pub total : length ids ≡ length items
  pub ordered : InFirstSeenOrder 0 ids
  pub grouped :
      (i j a b : ℕ)
      → get_elem? ids i ≡ some a
      → get_elem? ids j ≡ some b
      → (a ≡ b) ↔ Chain (AreLinked same items) i j

pub group_ids-IsPartition :
    {T : Type 0} (same : T → T → Bool) (items : List T)
    → (ids : List ℕ) × (group_ids same items ≡ some ids) × IsPartition same items ids
unfolding group_ids EachPair IsChained
group_ids-IsPartition same items =
    let n = length items in
    let drop : (a : ℕ) → a + 0 ≡ a = λ a. omega arith in
    let (cls, r, pairs) =
      link_all-Extends (AreLinked same items) same n items 0 (range 0 n) (λ k. k) (omega arith)
        (λ a b x y g h l s.
          rw (drop a, drop b)
            (record { first = x; second = y; at_i = g; at_j = h; before = l; alike = s }))
        (range-IsForest n) (λ k. here) in
    let keep : (a b : ℕ) → AreLinked same items a b → cls a ≡ cls b =
      λ a b e. rw (drop a, drop b) at (pairs a b e.first e.second e.at_i e.at_j e.before e.alike) in
    (
      ids_of cls n 0 [],
      rw r.returned (number-ids_of n n 0 r.parent cls [] (omega arith) r.forest),
      record {
        total = length-ids_of cls n 0 [];
        ordered = ids_of-InFirstSeenOrder cls n;
        grouped = λ i j a b g h.
            let eq = ids_of-eq cls n i j a b g h in
            ((λ e. equal_labels cls i j r.chained (eq.0 e)), λ c. eq.1 (Chain_label cls keep c));
      },
    )

-- The candidates of a pass, each with its vector.
pub items_of : {F : Type 0} → TextModel F → List StoryCandidate → List (StoryCandidate × Dict F)
items_of tm cs = zip cs (vectors tm (map (λ x. x.reason) cs))

length-zip :
    {A B : Type 0} (xs : List A) (ys : List B)
    → length xs ≡ length ys
    → length (zip xs ys) ≡ length xs
unfolding zip
length-zip [] ys h = refl
length-zip (x ∷ xs) [] h = absurd (omega (arith, h))
length-zip (x ∷ xs) (y ∷ ys) h = ap suc (length-zip xs ys (omega (arith, h)))

length-items_of :
    {F : Type 0} (tm : TextModel F) (cs : List StoryCandidate) → length (items_of tm cs) ≡ length cs
unfolding items_of vectors
length-items_of tm cs = length-zip cs (vectors tm (map (λ x. x.reason) cs)) (
    sym (
      length-map _ (map (TextModel.tokens tm) (map (λ x. x.reason) cs))
      ∙ length-map (TextModel.tokens tm) (map (λ x. x.reason) cs)
      ∙ length-map (λ x. x.reason) cs))

stories-group_ids :
    {F : Type 0} (tm : TextModel F) (cs : List StoryCandidate) (grouping : StoryGrouping F)
    → assign_stories tm cs grouping ≡ group_ids (is_same_news tm grouping) (items_of tm cs)
unfolding assign_stories items_of group_ids zip vectors link_all number range
stories-group_ids tm [] grouping = refl
stories-group_ids tm (c ∷ cs) grouping = refl

abbrev pub key_of : {B : Type 0} → Option (StoryCandidate × B) → Option String
key_of none = none
key_of (some (c, _)) = some c.key

unfoldable pub key_at : {B : Type 0} → List (StoryCandidate × B) → ℕ → Option String
key_at items k = key_of (get_elem? items k)

linked-key_at :
    {F : Type 0} (tm : TextModel F) (grouping : StoryGrouping F)
    (items : List (StoryCandidate × Dict F)) (a b : ℕ)
    → AreLinked (is_same_news tm grouping) items a b
    → key_at items a ≡ key_at items b
unfolding key_at is_same_news
linked-key_at tm grouping items a b l =
    let e : l.first.0.key ≡ l.second.0.key =
      ground (arith, eq_iff l.first.0.key l.second.0.key, l.alike) in
    rw (l.at_i, l.at_j) (ap some e)

-- The search for a root always ends and no list is read out of range: every list of candidates gets
-- its ids, one for each, in first-seen order from 1. Of two candidates in range the ids are equal
-- exactly where a chain of candidates leads from one to the other, each alike to the next in unit,
-- time and vector, and then both are of one analysis unit.
pub assign_stories_partition :
    {F : Type 0} (tm : TextModel F) (cs : List StoryCandidate) (grouping : StoryGrouping F)
    (i j : ℕ)
    → i < length cs
    → j < length cs
    → let items = items_of tm cs in
      (ids : List ℕ) × (assign_stories tm cs grouping ≡ some ids)
      × (length ids ≡ length cs)
      × InFirstSeenOrder 0 ids
      × (a : ℕ) × (b : ℕ) × (get_elem? ids i ≡ some a)
      × (get_elem? ids j ≡ some b)
      × ((a ≡ b) ↔ (
          Chain (AreLinked (is_same_news tm grouping) items) i j
          × (key_at items i ≡ key_at items j)))
assign_stories_partition tm cs grouping i j hi hj =
    let items = items_of tm cs in
    let (ids, returned, p) = group_ids-IsPartition (is_same_news tm grouping) items in
    let n = p.total ∙ length-items_of tm cs in
    let (a, g) = get_elem?-lt ids i (omega (arith, n)) in
    let (b, h) = get_elem?-lt ids j (omega (arith, n)) in
    let eq = p.grouped i j a b g h in
    let key = Chain_label (key_at items) (linked-key_at tm grouping items) in
    (
      ids,
      stories-group_ids tm cs grouping ∙ returned,
      n,
      p.ordered,
      a,
      b,
      g,
      h,
      ((λ e. (eq.0 e, key (eq.0 e))), λ c. eq.1 c.0),
    )
