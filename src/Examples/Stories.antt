-- ===== src/Examples/Stories.antt =====
-- Three episodes grouped into stories, over natural numbers in place of floats.
use finiex_ragengine.Prelude.{
  ℕ, ◌+◌, ◌*◌, ◌/◌, ◌≡◌, refl, some, List, [], ◌∷◌, length, leb, ◌==◌, get_elem?, ◌↔◌, arith,
}
use finiex_ragengine.Prelude.Dict
use finiex_ragengine.Breaking.StoryRule.{
  StoryCandidate, TextModel, StoryGrouping, is_same_news, assign_stories, group_ids,
}
use finiex_ragengine.Breaking.StoryRule.Chains.{Chain}
use finiex_ragengine.Breaking.StoryRule.Ids.{InFirstSeenOrder}
use finiex_ragengine.Breaking.StoryRule.Stories.{
  AreLinked, items_of, key_at, assign_stories_partition,
}

-- A text is one token, and two texts have cosine 1 if they are equal, else 0.
abbrev whole : TextModel ℕ
whole = record {
  tokens = λ s. s ∷ [];
  of_nat = λ n. n;
  add = λ a b. a + b;
  mul = λ a b. a * b;
  div = λ a b. a / b;
  log = λ a. 0;
  sqrt = λ a. a;
  is_zero = λ a. a == 0;
  at_least = λ a b. leb b a;
}

abbrev episodes : List StoryCandidate
episodes =
    record { key = "USD"; started = 0; reason = "fed" }
    ∷ record { key = "USD"; started = 10; reason = "ecb" }
    ∷ record { key = "USD"; started = 20; reason = "fed" }
    ∷ record { key = "EUR"; started = 20; reason = "fed" }
    ∷ []

abbrev grouping : StoryGrouping ℕ
grouping = record { similarity = 1; window = 50 }

three_stories : assign_stories whole episodes grouping ≡ some (1 ∷ 2 ∷ 1 ∷ 3 ∷ [])
unfolding assign_stories group_ids Dict.get Dict.put
three_stories = refl

assign_stories_partition_example :
    let items = items_of whole episodes in
    (ids : List ℕ) × (assign_stories whole episodes grouping ≡ some ids)
    × (length ids ≡ 4)
    × InFirstSeenOrder 0 ids
    × (a : ℕ) × (b : ℕ) × (get_elem? ids 0 ≡ some a)
    × (get_elem? ids 2 ≡ some b)
    × ((a ≡ b) ↔ (
        Chain (AreLinked (is_same_news whole grouping) items) 0 2
        × (key_at items 0 ≡ key_at items 2)))
assign_stories_partition_example =
    assign_stories_partition whole episodes grouping 0 2 (omega arith) (omega arith)
