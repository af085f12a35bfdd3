-- ===== src/Breaking/StoryRule/Linked.antt =====
-- The double loop of `assign_stories` in finiexragengine/core/pipeline/breaking_story_rule.py: which
-- indices it brings under one label.
use finiex_ragengine.Prelude.{
  ℕ, zero, suc, ◌+◌, ◌≤◌, ◌<◌, ◌≡◌, refl, Bool, true, Option, some, List, [], ◌∷◌, max, min, length,
  leb, ◌==◌, ==_iff, get_elem?, each_cons, Bool-cases, inl, inr, arith,
}
use finiex_ragengine.Breaking.StoryRule.{link_later, link_all}
use finiex_ragengine.Breaking.StoryRule.Chains.{Chain, along, Chain_trans, Chain_sym, IsChained}
use finiex_ragengine.Breaking.StoryRule.Roots.{IsForest, join_labels, united, union-cls}

united-merges : (cls : ℕ → ℕ) (i j a b : ℕ) → cls a ≡ cls b → united cls i j a ≡ united cls i j b
unfolding united join_labels
united-merges cls i j a b e = elim (Bool-cases (cls i == cls j)) [
  | inl t ↦ rw t e
  | inr t ↦ rw (t, e) refl
]

united_ends : (cls : ℕ → ℕ) (i j : ℕ) → united cls i j i ≡ united cls i j j
unfolding united join_labels
united_ends cls i j = elim (Bool-cases (cls i == cls j)) [
  | inl t ↦ rw t ((==_iff (cls i) (cls j)).0 t)
  | inr t ↦ rw t (ground (arith, t))
]

module _ (R : ℕ → ℕ → Type 0) where
  -- A chain that ends at the greater label goes on to the lesser.
  Chain-min : {k : ℕ} (a b : ℕ) → Chain R a b → Chain R k (max a b) → Chain R k (min a b)
  Chain-min {k} a b c d = elim (Bool-cases (leb a b)) [
    | inl t ↦
        let hi : max a b ≡ b = ground (arith, t) in
        let lo : min a b ≡ a = ground (arith, t) in rw lo (Chain_trans (rw hi at d) (Chain_sym c))
    | inr t ↦
        let hi : max a b ≡ a = ground (arith, t) in
        let lo : min a b ≡ b = ground (arith, t) in rw lo (Chain_trans (rw hi at d) c)
  ]

  united-IsChained :
      (cls : ℕ → ℕ) (i j : ℕ) → R i j → IsChained R cls → IsChained R (united cls i j)
  unfolding IsChained united join_labels
  united-IsChained cls i j r c k =
      let a = cls i in
      let b = cls j in
      elim (Bool-cases (a == b)) [
        | inl t ↦ rw t (c k)
        | inr t ↦ elim (Bool-cases (cls k == max a b)) [
          | inl u ↦
              let at_top = (==_iff (cls k) (max a b)).0 u in
              rw (t, u)
                (Chain-min a b (Chain_trans (Chain_sym (c i)) (along r (c j))) (rw at_top at (c k)))
          | inr u ↦ rw (t, u) (c k)
        ]
      ]

  -- What a run of the loop returns: a forest under labels that are chained and that split none of the
  -- clusters of `cls`.
  pub record Extends (n : ℕ) (cls : ℕ → ℕ) (result : Option (List ℕ)) (cls' : ℕ → ℕ) : Type 0 where
    pub parent : List ℕ
    pub returned : result ≡ some parent
    pub forest : IsForest n parent cls'
    pub chained : IsChained R cls'
    pub merges : (a b : ℕ) → cls a ≡ cls b → cls' a ≡ cls' b

  module _ {T : Type 0} (same : T → T → Bool) (fuel n : ℕ) (enough : n ≤ fuel) where
    link_later-Extends :
        (x : T) (i : ℕ) (ys : List T) (j : ℕ) (parent : List ℕ) (cls : ℕ → ℕ)
        → i < n
        → length ys + j ≡ n
        → ((m : ℕ) (y : T) → get_elem? ys m ≡ some y → same x y ≡ true → R i (m + j))
        → IsForest n parent cls
        → IsChained R cls
        → (cls' : ℕ → ℕ) × Extends n cls (link_later same fuel x i ys j parent) cls'
          × ((m : ℕ) (y : T) → get_elem? ys m ≡ some y → same x y ≡ true → cls' i ≡ cls' (m + j))
    unfolding link_later
    link_later-Extends x i [] j parent cls hi len edges f c = (
      cls,
      record { parent = parent; returned = refl; forest = f; chained = c; merges = λ a b e. e },
      λ m y g s. cc,
    )
    link_later-Extends x i (y ∷ ys) j parent cls hi len edges f c =
        let next : (m : ℕ) → suc m + j ≡ m + suc j = λ m. omega arith in
        let edges' = λ (m : ℕ) (z : T) (g : get_elem? ys m ≡ some z) (s : same x z ≡ true).
          let r = edges (suc m) z g s in rw (next m) at r in
        elim (Bool-cases (same x y)) [
          | inl t ↦
              let first = edges 0 y refl t in
              let at_j : 0 + j ≡ j = omega arith in
              let (p, found, g) =
                union-cls fuel n i j parent cls enough hi (omega (arith, len)) f in
              let (cls', r, ends) =
                link_later-Extends x i ys (suc j) p (united cls i j) hi (omega (arith, len)) edges'
                  g (united-IsChained cls i j (rw at_j at first) c) in
              (
                cls',
                record {
                  parent = r.parent;
                  returned = rw (t, found) r.returned;
                  forest = r.forest;
                  chained = r.chained;
                  merges = λ a b e. r.merges a b (united-merges cls i j a b e);
                },
                each_cons (λ m z. same x z ≡ true → cls' i ≡ cls' (m + j)) y ys
                    (λ s. rw at_j (r.merges i j (united_ends cls i j)))
                    (λ m z g s. rw (next m) (ends m z g s)),
              )
          | inr t ↦
              let (cls', r, ends) =
                link_later-Extends x i ys (suc j) parent cls hi (omega (arith, len)) edges' f c in
              (
                cls',
                record {
                  parent = r.parent;
                  returned = rw t r.returned;
                  forest = r.forest;
                  chained = r.chained;
                  merges = r.merges;
                },
                each_cons (λ m z. same x z ≡ true → cls' i ≡ cls' (m + j)) y ys (λ s. cc)
                    (λ m z g s. rw (next m) (ends m z g s)),
              )
        ]

-- A statement about every two items of a list, the first before the second.
unfoldable pub EachPair : {T : Type 0} → (T → T → Bool) → List T → (ℕ → ℕ → Type 0) → Type 0
EachPair {T} same xs Q =
    (a b : ℕ) (x y : T)
    → get_elem? xs a ≡ some x
    → get_elem? xs b ≡ some y
    → a < b
    → same x y ≡ true
    → Q a b

module _ {T : Type 0} (same : T → T → Bool) (Q : ℕ → ℕ → Type 0) where
  pair_cons :
      (x : T) (xs : List T)
      → ((m : ℕ) (y : T) → get_elem? xs m ≡ some y → same x y ≡ true → Q 0 (suc m))
      → EachPair same xs (λ a b. Q (suc a) (suc b))
      → EachPair same (x ∷ xs) Q
  unfolding EachPair
  pair_cons x xs first later zero zero u v g h l s = absurd (omega (arith, l))
  pair_cons x xs first later zero (suc b) u v g h l s = let e : x ≡ u = cc in first b v h (rw e s)
  pair_cons x xs first later (suc a) zero u v g h l s = absurd (omega (arith, l))
  pair_cons x xs first later (suc a) (suc b) u v g h l s = later a b u v g h (omega (arith, l)) s

module _ (R : ℕ → ℕ → Type 0) {T : Type 0} (same : T → T → Bool) (n : ℕ) where
  pub link_all-Extends :
      (xs : List T) (i : ℕ) (parent : List ℕ) (cls : ℕ → ℕ)
      → length xs + i ≡ n
      → EachPair same xs (λ a b. R (a + i) (b + i))
      → IsForest n parent cls
      → IsChained R cls
      → (cls' : ℕ → ℕ) × Extends R n cls (link_all same n xs i parent) cls'
        × EachPair same xs (λ a b. cls' (a + i) ≡ cls' (b + i))
  unfolding link_all EachPair
  link_all-Extends [] i parent cls len edges f c = (
    cls,
    record { parent = parent; returned = refl; forest = f; chained = c; merges = λ a b e. e },
    λ a b x y g h l s. cc,
  )
  link_all-Extends (x ∷ xs) i parent cls len edges f c =
      let next : (m : ℕ) → suc m + i ≡ m + suc i = λ m. omega arith in
      let at_i : 0 + i ≡ i = omega arith in
      let first = λ (m : ℕ) (y : T) (g : get_elem? xs m ≡ some y) (s : same x y ≡ true).
        let r = edges 0 (suc m) x y refl g (omega arith) s in rw (at_i, next m) at r in
      let (mid, r, ends) =
        link_later-Extends R same n n (omega arith) x i xs (suc i) parent cls (omega (arith, len))
          (omega (arith, len)) first f c in
      let later =
        λ (a b : ℕ) (u v : T) (g : get_elem? xs a ≡ some u) (h : get_elem? xs b ≡ some v)
            (l : a < b) (s : same u v ≡ true).
          let e = edges (suc a) (suc b) u v g h (omega (arith, l)) s in rw (next a, next b) at e in
      let (cls', q, pairs) =
        link_all-Extends xs (suc i) r.parent mid (omega (arith, len)) later r.forest r.chained in
      (
        cls',
        record {
          parent = q.parent;
          returned = rw r.returned q.returned;
          forest = q.forest;
          chained = q.chained;
          merges = λ a b e. q.merges a b (r.merges a b e);
        },
        pair_cons same (λ a b. cls' (a + i) ≡ cls' (b + i)) x xs
            (λ m y g s. rw (at_i, next m) (q.merges i (m + suc i) (ends m y g s)))
            (λ a b u v g h l s. rw (next a, next b) (pairs a b u v g h l s)),
      )
