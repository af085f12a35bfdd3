-- ===== src/Breaking/Bus.antt =====
-- finiexragengine/core/pipeline/breaking_bus.py: the ingest side nudges the evaluating workers. The
-- asyncio event of a subscription is its latch.
use finiex_ragengine.Prelude.{
  ℕ, suc, ◌+◌, String, ◌≡◌, refl, Bool, true, false, not, ◌&&◌, ◌||◌, Option, none, some, List, [],
  ◌∷◌, ◌++◌, map, leb, arith, if◌then◌else◌, eq_iff, str_eq, Bool-cases, inl, inr, ap, ◌∙◌,
}
use finiex_ragengine.Prelude.Dict
use finiex_ragengine.Prelude.Dict.{Dict, get-put}

pub record BreakingSubscription : Type 0 where
  pub min_importance : ℕ
  pub latched : Bool

-- `notify`, with whether it newly latched
unfoldable pub notify : BreakingSubscription → ℕ → BreakingSubscription × Bool
notify s tier =
    if leb s.min_importance tier && not s.latched
    then (record s { latched = true }, true)
    else (s, false)

-- `wait` returns once the latch is set, and re-arms it.
unfoldable pub wait : BreakingSubscription → Option BreakingSubscription
wait s = if s.latched then some (record s { latched = false }) else none

abbrev pub BreakingBus : Type 0
BreakingBus = Dict (List BreakingSubscription)

abbrev pub subscribers : Option (List BreakingSubscription) → List BreakingSubscription
subscribers none = []
subscribers (some l) = l

unfoldable pub subscribe_bus : BreakingBus → String → ℕ → BreakingBus
subscribe_bus bus source_set_id min_importance = Dict.put bus source_set_id (
    subscribers (Dict.get bus source_set_id)
    ++ record { min_importance = min_importance; latched = false } ∷ [])

unfoldable pub notify_all : List BreakingSubscription → ℕ → List BreakingSubscription × ℕ
notify_all [] tier = ([], 0)
notify_all (s ∷ l) tier =
    let (s', woke) = notify s tier in
    let (l', n) = notify_all l tier in (s' ∷ l', (if woke then suc n else n))

abbrev pub publish_to :
    BreakingBus → String → ℕ → Option (List BreakingSubscription) → BreakingBus × ℕ
publish_to bus source_set_id tier none = (bus, 0)
publish_to bus source_set_id tier (some l) =
    (Dict.put bus source_set_id (notify_all l tier).0, (notify_all l tier).1)

-- `publish`: the subscriptions after it, and how many workers were newly woken
unfoldable pub publish : BreakingBus → String → ℕ → BreakingBus × ℕ
publish bus source_set_id max_tier =
    if leb max_tier 0
    then (bus, 0)
    else publish_to bus source_set_id max_tier (Dict.get bus source_set_id)

-- The independent description of a nudge: who is latched after it, and how many were not before.
abbrev pub nudged : ℕ → BreakingSubscription → BreakingSubscription
nudged tier s = record s { latched = s.latched || (not (leb tier 0) && leb s.min_importance tier) }

abbrev pub unlatched : List BreakingSubscription → ℕ
unlatched [] = 0
unlatched (s ∷ l) = if s.latched then unlatched l else suc (unlatched l)

notify_all-nudged :
    (l : List BreakingSubscription) (tier : ℕ)
    → leb tier 0 ≡ false
    → ((notify_all l tier).0 ≡ map (nudged tier) l)
      × ((notify_all l tier).1 + unlatched (notify_all l tier).0 ≡ unlatched l)
unfolding notify_all notify
notify_all-nudged [] tier h = (refl, omega arith)
notify_all-nudged (s ∷ l) tier h = ground (arith, notify_all-nudged l tier h)

unmoved : (s : BreakingSubscription) (tier : ℕ) → leb tier 0 ≡ true → nudged tier s ≡ s
unmoved s tier h =
    let kept : (s.latched || (not (leb tier 0) && leb s.min_importance tier)) ≡ s.latched =
      ground arith in
    ap (λ b. record s { latched = b }) kept

same_if : {A : Type 0} (b : Bool) (x : A) → x ≡ (if b then x else x)
same_if true x = refl
same_if false x = refl

nudged_nothing :
    (l : List BreakingSubscription) (tier : ℕ) → leb tier 0 ≡ true → map (nudged tier) l ≡ l
nudged_nothing [] tier h = refl
nudged_nothing (s ∷ l) tier h =
    ap (λ x. x ∷ map (nudged tier) l) (unmoved s tier h) ∙ ap (λ r. s ∷ r) (nudged_nothing l tier h)

publish_to-nudged :
    (bus : BreakingBus) (id j : String) (tier : ℕ) (o : Option (List BreakingSubscription))
    → leb tier 0 ≡ false
    → Dict.get bus id ≡ o
    → let (bus', n) = publish_to bus id tier o in
      (subscribers (Dict.get bus' j) ≡ (
        if str_eq id j
        then map (nudged tier) (subscribers (Dict.get bus j))
        else subscribers (Dict.get bus j)))
      × (n + unlatched (subscribers (Dict.get bus' id)) ≡ unlatched (subscribers (Dict.get bus id)))
publish_to-nudged bus id j tier none h e = ground (arith, eq_iff id j)
publish_to-nudged bus id j tier (some l) h e = ground (
  arith,
  eq_iff id j,
  eq_iff id id,
  get-put bus id j (notify_all l tier).0,
  get-put bus id id (notify_all l tier).0,
  notify_all-nudged l tier h,
)

-- A published tier latches exactly the subscriptions of its own source set whose threshold it
-- reaches, none at tier 0, and unlatches nobody; the number that it returns is how many were not
-- latched before and are now.
publish-nudged :
    (bus : BreakingBus) (id j : String) (tier : ℕ)
    → let (bus', n) = publish bus id tier in
      (subscribers (Dict.get bus' j) ≡ (
        if str_eq id j
        then map (nudged tier) (subscribers (Dict.get bus j))
        else subscribers (Dict.get bus j)))
      × (n + unlatched (subscribers (Dict.get bus' id)) ≡ unlatched (subscribers (Dict.get bus id)))
unfolding publish
publish-nudged bus id j tier = elim (Bool-cases (leb tier 0)) [
  | inl e ↦
      rw (e, nudged_nothing (subscribers (Dict.get bus j)) tier e)
        (same_if (str_eq id j) _, omega arith)
  | inr e ↦ rw e (publish_to-nudged bus id j tier (Dict.get bus id) e refl)
]
