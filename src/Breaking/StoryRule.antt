-- ===== src/Breaking/StoryRule.antt =====
-- finiexragengine/core/pipeline/breaking_story_rule.py: which episodes are one story. The tokens of a
-- text and the arithmetic of floats are arguments. `none` is a list read out of range, or a search
-- for a root that did not end within its fuel.
pub mod Chains
pub mod Roots
pub mod Linked
pub mod Ids
pub mod Stories
use finiex_ragengine.Prelude.{
  ℕ, zero, suc, ◌+◌, ◌-◌, ◌≤◌, String, Bool, true, false, ◌&&◌, Option, none, some, List, [], ◌∷◌,
  map, max, min, length, leb, ltb, ◌==◌, if◌then◌else◌, str_eq, get_elem?, set,
}
use finiex_ragengine.Prelude.Dict
use finiex_ragengine.Prelude.Dict.{Dict}

pub record StoryCandidate : Type 0 where
  pub key : String
  pub started : ℕ
  pub reason : String

-- Python's floats, and `_TOKEN.findall` on a text in lower case
pub record TextModel (F : Type 0) : Type 0 where
  pub tokens : String → List String
  pub of_nat : ℕ → F
  pub add : F → F → F
  pub mul : F → F → F
  pub div : F → F → F
  pub log : F → F
  pub sqrt : F → F
  pub is_zero : F → Bool
  pub at_least : F → F → Bool

pub record StoryGrouping (F : Type 0) : Type 0 where
  pub similarity : F
  pub window : ℕ

infixl 5 ◌>>=◌
abbrev pub ◌>>=◌ : {A B : Type 0} → Option A → (A → Option B) → Option B
none >>= f = none
some a >>= f = f a

-- Counter: one more of a key
abbrev pub or_none : Option ℕ → ℕ
or_none none = 0
or_none (some n) = n

unfoldable pub count_all : Dict ℕ → List String → Dict ℕ
count_all d [] = d
count_all d (t ∷ ts) = count_all (Dict.put d t (suc (or_none (Dict.get d t)))) ts

-- set(tokens)
abbrev pub keys : Dict ℕ → List String
keys [] = []
keys ((k, _) ∷ d) = k ∷ keys d

unfoldable pub document_frequency : Dict ℕ → List (List String) → Dict ℕ
unfolding count_all
document_frequency d [] = d
document_frequency d (tokens ∷ rest) =
    document_frequency (count_all d (keys (count_all [] tokens))) rest

module _ {F : Type 0} (tm : TextModel F) where
  -- (1.0 + log(count)) * (log((1.0 + total) / (1.0 + document_frequency[term])) + 1.0)
  unfoldable pub weigh : Dict ℕ → ℕ → Dict ℕ → Dict F
  weigh df total [] = []
  weigh df total ((term, count) ∷ counts) =
      let one = TextModel.of_nat tm 1 in
      let tf = TextModel.add tm one (TextModel.log tm (TextModel.of_nat tm count)) in
      let ratio =
        TextModel.div tm (TextModel.of_nat tm (1 + total))
          (TextModel.of_nat tm (1 + or_none (Dict.get df term))) in
      (term, TextModel.mul tm tf (TextModel.add tm (TextModel.log tm ratio) one))
      ∷ weigh df total counts

  unfoldable pub square_sum : F → Dict F → F
  square_sum s [] = s
  square_sum s ((_, w) ∷ ws) = square_sum (TextModel.add tm s (TextModel.mul tm w w)) ws

  abbrev pub or_one : F → F
  or_one n = if TextModel.is_zero tm n then TextModel.of_nat tm 1 else n

  unfoldable pub scale : F → Dict F → Dict F
  scale norm [] = []
  scale norm ((term, w) ∷ ws) = (term, TextModel.div tm w norm) ∷ scale norm ws

  unfoldable pub vector_of : Dict ℕ → ℕ → List String → Dict F
  unfolding count_all weigh square_sum scale
  vector_of df total tokens =
      let weights = weigh df total (count_all [] tokens) in
      scale (or_one (TextModel.sqrt tm (square_sum (TextModel.of_nat tm 0) weights))) weights

  -- `_vectors`
  unfoldable pub vectors : List String → List (Dict F)
  unfolding document_frequency vector_of
  vectors reasons =
      let tokenised = map (TextModel.tokens tm) reasons in
      map (vector_of (document_frequency [] tokenised) (length tokenised)) tokenised

  abbrev pub or_nought : Option F → F
  or_nought none = TextModel.of_nat tm 0
  or_nought (some w) = w

  unfoldable pub dot : F → Dict F → Dict F → F
  dot s [] right = s
  dot s ((term, w) ∷ left) right =
      dot (TextModel.add tm s (TextModel.mul tm w (or_nought (Dict.get right term)))) left right

  -- `_cosine`
  unfoldable pub cosine_of : Dict F → Dict F → F
  unfolding dot
  cosine_of left right =
      if ltb (length right) (length left)
      then dot (TextModel.of_nat tm 0) right left
      else dot (TextModel.of_nat tm 0) left right

  -- The three gates in the inner loop of `assign_stories`.
  unfoldable pub is_same_news :
      StoryGrouping F → StoryCandidate × Dict F → StoryCandidate × Dict F → Bool
  unfolding cosine_of
  is_same_news grouping (a, u) (b, v) =
      str_eq a.key b.key
      && leb ((b.started - a.started) + (a.started - b.started)) grouping.window
      && TextModel.at_least tm (cosine_of u v) grouping.similarity

-- `find`, with path halving
unfoldable pub find : ℕ → List ℕ → ℕ → Option (List ℕ × ℕ)
find zero parent index = none
find (suc fuel) parent index = get_elem? parent index >>= λ up.
    let further = get_elem? parent up >>= λ r. find fuel (set parent index r) r in
    if up == index then some (parent, index) else further

-- `union`
unfoldable pub union : ℕ → List ℕ → ℕ → ℕ → Option (List ℕ)
unfolding find
union fuel parent first second = find fuel parent first >>= λ (p, root_first).
    find fuel p second >>= λ (q, root_second). some (
      if root_first == root_second
      then q
      else set q (max root_first root_second) (min root_first root_second))

module _ {T : Type 0} (same : T → T → Bool) where
  -- The inner loop: candidate `i` against the later ones, the first of which is `j`.
  unfoldable pub link_later : ℕ → T → ℕ → List T → ℕ → List ℕ → Option (List ℕ)
  unfolding union
  link_later fuel x i [] j parent = some parent
  link_later fuel x i (y ∷ ys) j parent =
      (if same x y then union fuel parent i j else some parent) >>= λ p.
      link_later fuel x i ys (suc j) p

  unfoldable pub link_all : ℕ → List T → ℕ → List ℕ → Option (List ℕ)
  unfolding link_later
  link_all fuel [] i parent = some parent
  link_all fuel (x ∷ xs) i parent =
      link_later fuel x i xs (suc i) parent >>= λ p. link_all fuel xs (suc i) p

-- `seen`: each root with its story's id
unfoldable pub seen_id : List (ℕ × ℕ) → ℕ → Option ℕ
seen_id [] root = none
seen_id ((r, id) ∷ seen) root = if r == root then some id else seen_id seen root

abbrev pub next_id : List (ℕ × ℕ) → ℕ → Option ℕ → List (ℕ × ℕ) × ℕ
next_id seen root none = ((root, suc (length seen)) ∷ seen, suc (length seen))
next_id seen root (some id) = (seen, id)

-- The last loop, over the range of `n` indices from `index` on.
unfoldable pub number : ℕ → ℕ → ℕ → List ℕ → List (ℕ × ℕ) → Option (List ℕ)
unfolding find seen_id
number fuel zero index parent seen = some []
number fuel (suc n) index parent seen = find fuel parent index >>= λ (p, root).
    let (noted, id) = next_id seen root (seen_id seen root) in
    number fuel n (suc index) p noted >>= λ ids. some (id ∷ ids)

-- range(start, start + n)
unfoldable pub range : ℕ → ℕ → List ℕ
range start zero = []
range start (suc n) = start ∷ range (suc start) n

unfoldable pub zip {ℓ κ} : {A : Type ℓ} {B : Type κ} → List A → List B → List (A × B)
zip [] ys = []
zip (x ∷ xs) [] = []
zip (x ∷ xs) (y ∷ ys) = (x, y) ∷ zip xs ys

-- The partition and the numbering of any items under any test.
unfoldable pub group_ids : {T : Type 0} → (T → T → Bool) → List T → Option (List ℕ)
unfolding link_all number range
group_ids same items =
    let n = length items in link_all same n items 0 (range 0 n) >>= λ parent. number n n 0 parent []

unfoldable pub assign_stories :
    {F : Type 0} → TextModel F → List StoryCandidate → StoryGrouping F → Option (List ℕ)
unfolding vectors is_same_news group_ids zip
assign_stories tm [] grouping = some []
assign_stories tm (c ∷ cs) grouping =
    let candidates = c ∷ cs in
    group_ids (is_same_news tm grouping)
      (zip candidates (vectors tm (map (λ x. x.reason) candidates)))
