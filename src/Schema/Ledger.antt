-- ===== src/Schema/Ledger.antt =====
-- The versions that finiexragengine/core/schema/migration_runner.py finds on disk, and those of its
-- ledger.
use finiex_ragengine.Prelude.{
  String, ◌≡◌, refl, Bool, false, List, [], ◌∷◌, ltb, keep_if, keep_if-All, All, All-imp, Pairwise,
  str_eq, eq_iff, Bool-cases, inl, inr, arith,
}
use finiex_ragengine.Prelude.Dict
use finiex_ragengine.Prelude.Dict.{Dict, get-put}
use finiex_ragengine.Schema.{
  Migration, AppliedMigration, Result, raises, gives, ◌>>=◌, Env, Directory, versions, count_of,
  duplicates, unless_duplicate, discover,
}

-- No version is claimed twice.
unfoldable pub Distinct : List Migration → Type 0
Distinct ms = Pairwise (λ a b. str_eq a.version b.version ≡ false) ms

pub keep_if-none :
    {A : Type 0} (p : A → Bool) (xs : List A) → keep_if p xs ≡ [] → All (λ x. p x ≡ false) xs
unfolding keep_if
keep_if-none p [] e = tt
keep_if-none p (x ∷ xs) e = elim (Bool-cases (p x)) [
  | inl t ↦ absurd (ground (arith, e, t))
  | inr f ↦ (f, keep_if-none p xs (rw f at e))
]

pub Pairwise-keep_if :
    {A : Type 0} (R : A → A → Type 0) (p : A → Bool) (xs : List A)
    → Pairwise R xs
    → Pairwise R (keep_if p xs)
unfolding keep_if
Pairwise-keep_if R p [] h = tt
Pairwise-keep_if R p (x ∷ xs) h = elim (Bool-cases (p x)) [
  | inl t ↦ rw t (keep_if-All (R x) p xs h.0, Pairwise-keep_if R p xs h.1)
  | inr f ↦ rw f (Pairwise-keep_if R p xs h.1)
]

absent :
    (v : String) (ms : List Migration)
    → count_of (versions ms) v ≡ 0
    → All (λ m. str_eq v m.version ≡ false) ms
unfolding count_of
absent v [] e = tt
absent v (m ∷ ms) e =
    (ground (arith, eq_iff v m.version, eq_iff m.version v), absent v ms (ground (arith, e)))

once-Distinct :
    (ms : List Migration)
    → All (λ v. ltb 1 (count_of (versions ms) v) ≡ false) (versions ms)
    → Distinct ms
unfolding count_of Distinct
once-Distinct [] a = tt
once-Distinct (m ∷ ms) a =
    let same = (eq_iff m.version m.version).1 refl in
    (
      absent m.version ms (ground (arith, a, same)),
      once-Distinct ms (
          All-imp _ _ (versions ms)
            (λ v (h : ltb 1 (count_of (versions (m ∷ ms)) v) ≡ false). ground (arith, h)) a.1),
    )

unless_duplicate-gives :
    (found : List Migration) (vs : List String) (ms : List Migration)
    → unless_duplicate found vs ≡ gives ms
    → (vs ≡ []) × (found ≡ ms)
unless_duplicate-gives found [] ms h = (refl, cc)
unless_duplicate-gives found (v ∷ vs) ms h = cc

checked-Distinct :
    (r : Result (List Migration)) (ms : List Migration)
    → (r >>= λ found. unless_duplicate found (duplicates (versions found))) ≡ gives ms
    → Distinct ms
unfolding duplicates
checked-Distinct (raises e) ms h = cc
checked-Distinct (gives found) ms h =
    let (none_twice, same) = unless_duplicate-gives found (duplicates (versions found)) ms h in
    rw (← same) (
      once-Distinct found
        (keep_if-none (λ v. ltb 1 (count_of (versions found) v)) (versions found) none_twice))

pub discover-Distinct :
    {S : Type 0} (env : Env S) (dir : Directory) (ms : List Migration)
    → discover env dir ≡ gives ms
    → Distinct ms
unfolding discover
discover-Distinct env dir ms h = elim (Bool-cases dir.exists) [
  | inl t ↦ checked-Distinct _ ms (rw t at h)
  | inr f ↦ absurd (ground (arith, h, f))
]

-- A row for one version leaves the other versions pending.
pub pending_put :
    (ledger : Dict AppliedMigration) (m : Migration) (row : AppliedMigration) (ms : List Migration)
    → All (λ w. str_eq m.version w.version ≡ false) ms
    → All (λ w. Dict.has ledger w.version ≡ false) ms
    → All (λ w. Dict.has (Dict.put ledger m.version row) w.version ≡ false) ms
pending_put ledger m row [] a b = tt
pending_put ledger m row (w ∷ ms) a b =
    (rw (get-put ledger m.version w.version row, a.0) b.0, pending_put ledger m row ms a.1 b.1)
