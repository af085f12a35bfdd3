-- ===== src/Pipeline/Runner/Groups.antt =====
-- The grouping of `_group_by_query` in finiexragengine/core/pipeline/pipeline_runner.py.
use finiex_ragengine.Prelude.{
  ℕ, suc, ◌+◌, ◌++◌, String, ◌≡◌, refl, sym, ap, ◌∙◌, Bool, Option, none, some, List, [], ◌∷◌, map,
  keep_if, if◌then◌else◌, str_eq, eq_iff, arith, Bool-cases, inl, inr,
}
use mathlib.Core.List.{append-nil, append_assoc}
use finiex_ragengine.Prelude.Dict
use finiex_ragengine.Prelude.Dict.{Dict, get-put}
use finiex_ragengine.Pipeline.Runner.{
  SymbolSpec, retrieval_query, Group, members, join, group_from, group_by_query,
}

-- The symbols of the group of a query, none where there is no group.
abbrev pub members? : Option Group → List SymbolSpec
members? none = []
members? (some g) = members g

members?-join :
    (spec : SymbolSpec) (o : Option Group) → members? (some (join spec o)) ≡ members? o ++ spec ∷ []
members?-join spec none = refl
members?-join spec (some g) = refl

abbrev asks : String → SymbolSpec → Bool
asks q spec = str_eq (retrieval_query spec) q

get-join :
    (spec : SymbolSpec) (d : Dict Group) (p q : String)
    → members? (Dict.get (Dict.put d p (join spec (Dict.get d p))) q)
      ≡ (if str_eq p q then members? (Dict.get d q) ++ spec ∷ [] else members? (Dict.get d q))
get-join spec d p q = elim (Bool-cases (str_eq p q)) [
  | inl e ↦
      let same : p ≡ q = (eq_iff p q).0 e in
      rw (get-put d p q (join spec (Dict.get d p)), e)
        (members?-join spec (Dict.get d p) ∙ ap (λ k. members? (Dict.get d k) ++ spec ∷ []) same)
  | inr e ↦ rw (get-put d p q (join spec (Dict.get d p)), e) refl
]

group_from-members :
    (specs : List SymbolSpec) (d : Dict Group) (q : String)
    → members? (Dict.get (group_from d specs) q) ≡ members? (Dict.get d q) ++ keep_if (asks q) specs
unfolding group_from keep_if
group_from-members [] d q = sym (append-nil (members? (Dict.get d q)))
group_from-members (spec ∷ specs) d q =
    let p = retrieval_query spec in
    let g = join spec (Dict.get d p) in
    let rest = group_from-members specs (Dict.put d p g) q in
    rest
    ∙ rw (get-join spec d p q) (elim (Bool-cases (str_eq p q)) [
      | inl e ↦ rw e (append_assoc (members? (Dict.get d q)) (spec ∷ []) (keep_if (asks q) specs))
      | inr e ↦ rw e refl
    ])

-- The group of a query holds exactly the symbols that ask it, in their order.
pub group_by_query-members :
    (specs : List SymbolSpec) (q : String)
    → members? (Dict.get (group_by_query specs) q)
      ≡ keep_if (λ spec. str_eq (retrieval_query spec) q) specs
unfolding group_by_query keep_if Dict.get
group_by_query-members specs q = group_from-members specs [] q

-- How often a text occurs.
unfoldable pub count : String → List String → ℕ
count k [] = 0
count k (x ∷ xs) = let n = count k xs in if str_eq x k then suc n else n

pub count-append : (k : String) (xs ys : List String) → count k (xs ++ ys) ≡ count k xs + count k ys
unfolding count
count-append k [] ys = omega arith
count-append k (x ∷ xs) ys = ground (arith, count-append k xs ys)

abbrev pub keys_of : List SymbolSpec → List String
keys_of specs = map (λ (spec : SymbolSpec). spec.key) specs

-- The symbols of all groups.
abbrev pub grouped : Dict Group → List String
grouped [] = []
grouped ((_, g) ∷ d) = keys_of (members g) ++ grouped d

count-insert :
    (k : String) (spec : SymbolSpec) (specs : List SymbolSpec) (xs : List String)
    → count k (keys_of (specs ++ spec ∷ []) ++ xs)
      ≡ count k (keys_of specs ++ xs) + count k (spec.key ∷ [])
unfolding count
count-insert k spec [] xs = ground arith
count-insert k spec (s ∷ specs) xs = ground (arith, count-insert k spec specs xs)

count-put :
    (k q : String) (spec : SymbolSpec) (d : Dict Group)
    → count k (grouped (Dict.put d q (join spec (Dict.get d q))))
      ≡ count k (grouped d) + count k (spec.key ∷ [])
unfolding Dict.put Dict.get count
count-put k q spec [] = omega arith
count-put k q spec ((j, g) ∷ d) = elim (Bool-cases (str_eq j q)) [
  | inl e ↦ rw e (ground (arith, count-insert k spec g.others (grouped d)))
  | inr e ↦
      let d' = Dict.put d q (join spec (Dict.get d q)) in
      rw e (
        ground (
          arith,
          count-put k q spec d,
          count-append k (keys_of g.others) (grouped d'),
          count-append k (keys_of g.others) (grouped d),
        ))
]

count-group_from :
    (k : String) (specs : List SymbolSpec) (d : Dict Group)
    → count k (grouped (group_from d specs)) ≡ count k (grouped d) + count k (keys_of specs)
unfolding group_from count
count-group_from k [] d = omega arith
count-group_from k (spec ∷ specs) d =
    let q = retrieval_query spec in
    let d' = Dict.put d q (join spec (Dict.get d q)) in
    ground (arith, count-group_from k specs d', count-put k q spec d)

-- Grouping loses no symbol and repeats none.
pub count-group_by_query :
    (k : String) (specs : List SymbolSpec)
    → count k (grouped (group_by_query specs)) ≡ count k (keys_of specs)
unfolding group_by_query count
count-group_by_query k specs = omega (arith, count-group_from k specs [])
