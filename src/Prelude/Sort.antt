-- ===== src/Prelude/Sort.antt =====
-- Python's `sort`, which is stable: insertion sort by a Boolean order.
use Prim.Native.Nat.{suc}
use mathlib.Core.Path.{◌≡◌, refl, ap, ◌∙◌}
use mathlib.Core.Logic.{inl, inr}
use mathlib.Core.Bool.{Bool, true, false}
use mathlib.Core.List.{List, [], ◌∷◌}
use finiex_ragengine.Prelude.Tests.{if◌then◌else◌, Bool-cases}
use finiex_ragengine.Prelude.Lists.{length, All, All-imp, Pairwise}

module _ {ℓ} {A : Type ℓ} (le : A → A → Bool) where
  -- Before the first element that is not smaller.
  unfoldable pub insert_by : A → List A → List A
  insert_by x [] = x ∷ []
  insert_by x (y ∷ ys) = let rest = insert_by x ys in if le x y then x ∷ y ∷ ys else y ∷ rest

  unfoldable pub sort_by : List A → List A
  sort_by [] = []
  sort_by (x ∷ xs) = insert_by x (sort_by xs)

  insert_by-All {κ} :
      (P : A → Type κ) (x : A) (ys : List A) → P x → All P ys → All P (insert_by x ys)
  unfolding insert_by
  insert_by-All P x [] p a = (p, tt)
  insert_by-All P x (y ∷ ys) p a = elim (Bool-cases (le x y)) [
    | inl e ↦ rw e (p, a)
    | inr e ↦ rw e (a.0, insert_by-All P x ys p a.1)
  ]

  pub sort_by-All {κ} : (P : A → Type κ) (xs : List A) → All P xs → All P (sort_by xs)
  unfolding sort_by
  sort_by-All P [] a = tt
  sort_by-All P (x ∷ xs) a = insert_by-All P x (sort_by xs) a.0 (sort_by-All P xs a.1)

  of_insert_by {κ} :
      (P : A → Type κ) (x : A) (ys : List A) → All P (insert_by x ys) → P x × All P ys
  unfolding insert_by
  of_insert_by P x [] = λ a. a
  of_insert_by P x (y ∷ ys) = elim (Bool-cases (le x y)) [
    | inl e ↦ rw e λ a. a
    | inr e ↦ rw e λ a. ((of_insert_by P x ys a.1).0, (a.0, (of_insert_by P x ys a.1).1))
  ]

  -- What holds of the sorted list holds of the list.
  pub of_sort_by {κ} : (P : A → Type κ) (xs : List A) → All P (sort_by xs) → All P xs
  unfolding sort_by
  of_sort_by P [] a = tt
  of_sort_by P (x ∷ xs) a = let h = of_insert_by P x (sort_by xs) a in (h.0, of_sort_by P xs h.1)

  length-insert_by : (x : A) (ys : List A) → length (insert_by x ys) ≡ suc (length ys)
  unfolding insert_by
  length-insert_by x [] = refl
  length-insert_by x (y ∷ ys) = elim (Bool-cases (le x y)) [
    | inl e ↦ rw e refl
    | inr e ↦ rw e (ap suc (length-insert_by x ys))
  ]

  pub length-sort_by : (xs : List A) → length (sort_by xs) ≡ length xs
  unfolding sort_by
  length-sort_by [] = refl
  length-sort_by (x ∷ xs) = length-insert_by x (sort_by xs) ∙ ap suc (length-sort_by xs)

  module _ (total : (x y : A) → le x y ≡ false → le y x ≡ true)
      (trans : (x y z : A) → le x y ≡ true → le y z ≡ true → le x z ≡ true) where
    insert_by-Sorted :
        (x : A) (ys : List A)
        → Pairwise (λ a b. le a b ≡ true) ys
        → Pairwise (λ a b. le a b ≡ true) (insert_by x ys)
    unfolding insert_by
    insert_by-Sorted x [] s = (tt, tt)
    insert_by-Sorted x (y ∷ ys) s = elim (Bool-cases (le x y)) [
      | inl e ↦ rw e ((e, All-imp _ _ ys (λ z h. trans x y z e h) s.0), s)
      | inr e ↦
          rw e
            (insert_by-All (λ b. le y b ≡ true) x ys (total x y e) s.0, insert_by-Sorted x ys s.1)
    ]

    pub sort_by-Sorted : (xs : List A) → Pairwise (λ a b. le a b ≡ true) (sort_by xs)
    unfolding sort_by
    sort_by-Sorted [] = tt
    sort_by-Sorted (x ∷ xs) = insert_by-Sorted x (sort_by xs) (sort_by-Sorted xs)
