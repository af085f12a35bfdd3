-- ===== src/Breaking/StoryRule/Chains.antt =====
-- Chains of links between the episodes of core/pipeline/breaking_story_rule.py, and the labels of
-- clusters.
use finiex_ragengine.Prelude.{ℕ, ◌≡◌, refl, sym, ◌∙◌}

-- A chain of links, each followed in either direction.
pub data Chain (R : ℕ → ℕ → Type 0) : ℕ → ℕ → Type 0 where
  here : {i : ℕ} → Chain R i i
  along : {i j k : ℕ} → R i j → Chain R j k → Chain R i k
  against : {i j k : ℕ} → R j i → Chain R j k → Chain R i k

module _ {R : ℕ → ℕ → Type 0} where
  pub Chain_trans : {i j k : ℕ} → Chain R i j → Chain R j k → Chain R i k
  Chain_trans here d = d
  Chain_trans (along r c) d = along r (Chain_trans c d)
  Chain_trans (against r c) d = against r (Chain_trans c d)

  pub Chain_sym : {i j : ℕ} → Chain R i j → Chain R j i
  Chain_sym here = here
  Chain_sym (along r c) = Chain_trans (Chain_sym c) (against r here)
  Chain_sym (against r c) = Chain_trans (Chain_sym c) (along r here)

  -- Labels that every link keeps are equal along a chain.
  pub Chain_label :
      {C : Type 0} {i j : ℕ} (cls : ℕ → C)
      → ((a b : ℕ) → R a b → cls a ≡ cls b)
      → Chain R i j
      → cls i ≡ cls j
  Chain_label cls keep here = refl
  Chain_label cls keep (along {i} {j} r c) = keep i j r ∙ Chain_label cls keep c
  Chain_label cls keep (against {i} {j} r c) = sym (keep j i r) ∙ Chain_label cls keep c

-- Each index is chained to its label.
unfoldable pub IsChained : (ℕ → ℕ → Type 0) → (ℕ → ℕ) → Type 0
IsChained R cls = (k : ℕ) → Chain R k (cls k)

pub equal_labels :
    {R : ℕ → ℕ → Type 0} (cls : ℕ → ℕ) (i j : ℕ) → IsChained R cls → cls i ≡ cls j → Chain R i j
unfolding IsChained
equal_labels cls i j c e = Chain_trans (c i) (Chain_sym (rw e (c j)))
