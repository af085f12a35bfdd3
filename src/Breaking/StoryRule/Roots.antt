-- ===== src/Breaking/StoryRule/Roots.antt =====
-- The union-find of finiexragengine/core/pipeline/breaking_story_rule.py against a labelling: `cls`
-- gives each index the oldest member of its cluster.
use finiex_ragengine.Prelude.{
  ℕ, zero, suc, ◌≤◌, ◌<◌, ◌≡◌, ◌≢◌, refl, sym, ap, ◌∙◌, some, List, max, min, length, ◌==◌, ==_iff,
  if◌then◌else◌, get_elem?, set, length-set, get_elem?-set, get_elem?-lt, Bool-cases, inl, inr, ◌⊎◌,
  arith,
}
use finiex_ragengine.Breaking.StoryRule.{find, union}

-- Every parent lies below its child or is it, and has its label; a root labels itself.
pub record IsForest (n : ℕ) (parent : List ℕ) (cls : ℕ → ℕ) : Type 0 where
  pub size : length parent ≡ n
  pub falls : (k q : ℕ) → get_elem? parent k ≡ some q → q ≤ k
  pub agrees : (k q : ℕ) → get_elem? parent k ≡ some q → cls q ≡ cls k
  pub roots : (k : ℕ) → get_elem? parent k ≡ some k → cls k ≡ k
  pub settled : (k : ℕ) → cls (cls k) ≡ cls k
  pub below : (k : ℕ) → cls k ≤ k

pub some-injective : {A : Type 0} {a b : A} → some a ≡ some b → a ≡ b
some-injective e = cc

-- What a list holds after a write.
set-cases :
    (parent : List ℕ) (i k v q : ℕ)
    → i < length parent
    → get_elem? (set parent i v) k ≡ some q
    → ((i ≡ k) × (v ≡ q)) ⊎ ((i ≢ k) × (get_elem? parent k ≡ some q))
set-cases parent i k v q h e =
    let w = sym (get_elem?-set parent i k v h) ∙ e in
    elim (Bool-cases (i == k)) [
      | inl t ↦ inl ((==_iff i k).0 t, some-injective (rw t at w))
      | inr f ↦ inr ((λ s. ground (arith, s)), rw f at w)
    ]

module _ {n : ℕ} {parent : List ℕ} {cls : ℕ → ℕ} (f : IsForest n parent cls) where
  -- `parent[index] = parent[parent[index]]`
  halve-IsForest :
      (i q r : ℕ)
      → i < n
      → get_elem? parent i ≡ some q
      → get_elem? parent q ≡ some r
      → q ≢ i
      → IsForest n (set parent i r) cls
  halve-IsForest i q r h e d ne =
      let h' : i < length parent = omega (arith, f.size) in
      let q_below : q < i = ground (arith, f.falls i q e, ne) in
      let r_below = f.falls q r d in
      let r_label : cls r ≡ cls i = f.agrees q r d ∙ f.agrees i q e in
      record {
        size = length-set parent i r ∙ f.size;
        falls = λ k s g. elim (set-cases parent i k r s h' g) [
          | inl (a, b) ↦ omega (arith, a, b, q_below, r_below)
          | inr (a, b) ↦ f.falls k s b
        ];
        agrees = λ k s g. elim (set-cases parent i k r s h' g) [
          | inl (a, b) ↦ sym (ap cls b) ∙ r_label ∙ ap cls a
          | inr (a, b) ↦ f.agrees k s b
        ];
        roots = λ k g. elim (set-cases parent i k r k h' g) [
          | inl (a, b) ↦ absurd (omega (arith, a, b, q_below, r_below))
          | inr (a, b) ↦ f.roots k b
        ];
        settled = f.settled;
        below = f.below;
      }

-- The search ends within as much fuel as there are indices, finds the label, and keeps the labels.
pub find-cls :
    (fuel n i : ℕ) (parent : List ℕ) (cls : ℕ → ℕ)
    → i < fuel
    → i < n
    → IsForest n parent cls
    → (p : List ℕ) × (find fuel parent i ≡ some (p, cls i)) × IsForest n p cls
unfolding find
find-cls zero n i parent cls hf h f = elim hf [ ]
find-cls (suc fuel) n i parent cls hf h f =
    let (q, e) = get_elem?-lt parent i (omega (arith, f.size)) in
    let q_le = f.falls i q e in
    elim (Bool-cases (q == i)) [
      | inl t ↦
          let same = (==_iff q i).0 t in
          let root : get_elem? parent i ≡ some i = e ∙ ap some same in
          (parent, rw (e, t, f.roots i root) refl, f)
      | inr t ↦
          let (r, d) = get_elem?-lt parent q (omega (arith, f.size)) in
          let ne : q ≢ i = λ s. ground (arith, s) in
          let r_le = f.falls q r d in
          let q_lt : q < i = ground (arith, ne) in
          let label : cls r ≡ cls i = f.agrees q r d ∙ f.agrees i q e in
          let (p, found, g) =
            find-cls fuel n r (set parent i r) cls (omega arith) (omega arith)
              (halve-IsForest f i q r h e d ne) in
          (p, rw (e, t, d, found, label) refl, g)
    ]

-- The labels after the cluster of `hi` was put under `lo`.
unfoldable pub join_labels : (ℕ → ℕ) → ℕ → ℕ → ℕ → ℕ
join_labels cls hi lo k = if cls k == hi then lo else cls k

join_labels-IsForest :
    {n : ℕ} {parent : List ℕ} {cls : ℕ → ℕ} (hi lo : ℕ)
    → IsForest n parent cls
    → hi < n
    → lo < hi
    → cls hi ≡ hi
    → cls lo ≡ lo
    → IsForest n (set parent hi lo) (join_labels cls hi lo)
unfolding join_labels
join_labels-IsForest {n} {parent} {cls} hi lo f h l top low =
    let h' : hi < length parent = omega (arith, f.size) in
    record {
      size = length-set parent hi lo ∙ f.size;
      falls = λ k s g. elim (set-cases parent hi k lo s h' g) [
        | inl (a, b) ↦ omega (arith, a, b)
        | inr (a, b) ↦ f.falls k s b
      ];
      agrees = λ k s g. elim (set-cases parent hi k lo s h' g) [
        | inl (a, b) ↦ ground (arith, ap cls a, ap cls b)
        | inr (a, b) ↦ rw (f.agrees k s b) refl
      ];
      roots = λ k g. elim (set-cases parent hi k lo k h' g) [
        | inl (a, b) ↦ absurd (omega (arith, a, b))
        | inr (a, b) ↦ let e = f.roots k b in ground (arith, a)
      ];
      settled = λ k. elim (Bool-cases (cls k == hi)) [
        | inl t ↦ rw t (ground arith)
        | inr t ↦ let e = f.settled k in ground arith
      ];
      below = λ k. let e = f.below k in ground arith;
    }

-- The labels after a union.
unfoldable pub united : (ℕ → ℕ) → ℕ → ℕ → ℕ → ℕ
unfolding join_labels
united cls i j =
    if cls i == cls j then cls else join_labels cls (max (cls i) (cls j)) (min (cls i) (cls j))

pub union-cls :
    (fuel n i j : ℕ) (parent : List ℕ) (cls : ℕ → ℕ)
    → n ≤ fuel
    → i < n
    → j < n
    → IsForest n parent cls
    → (p : List ℕ) × (union fuel parent i j ≡ some p) × IsForest n p (united cls i j)
unfolding union united
union-cls fuel n i j parent cls hf hi hj f =
    let (p, found_i, g) = find-cls fuel n i parent cls (omega arith) hi f in
    let (q, found_j, h) = find-cls fuel n j p cls (omega arith) hj g in
    let a = cls i in
    let b = cls j in
    let a_le = f.below i in
    let b_le = f.below j in
    let a_top = f.settled i in
    let b_top = f.settled j in
    elim (Bool-cases (a == b)) [
      | inl t ↦ (q, rw (found_i, found_j, t) refl, rw t h)
      | inr t ↦
          let top : cls (max a b) ≡ max a b = ground (arith, t) in
          let low : cls (min a b) ≡ min a b = ground (arith, t) in
          (
            set q (max a b) (min a b),
            rw (found_i, found_j, t) refl,
            rw t (
                join_labels-IsForest (max a b) (min a b) h (omega arith) (ground (arith, t)) top
                  low),
          )
    ]
