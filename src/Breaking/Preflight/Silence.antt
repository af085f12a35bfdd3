-- ===== src/Breaking/Preflight/Silence.antt =====
-- What the preflight's verdict of finiexragengine/core/pipeline/detection_preflight.py says of a
-- detection pass.
use finiex_ragengine.Prelude.{
  ℕ, ◌≤◌, ◌<◌, String, ◌≡◌, refl, ◌∙◌, Bool, true, false, ◌&&◌, ◌||◌, Option, none, some, List, [],
  ◌∷◌, leb, ◌==◌, if◌then◌else◌, str_eq, All, arith, Bool-cases, inl, inr,
}
use finiex_ragengine.Retrieval.Corpus.{Article}
use finiex_ragengine.Breaking.Detector.{
  unit_feeds, DetectionConfig, NeighbourCount, cluster, TierVerdict, DetectorEnv, DetectionResult,
  no_flags, tier_of, apply_verdict, size_by, detect_one, detect_from, detect, is_nonempty,
  matched_keywords,
}
use finiex_ragengine.Breaking.Preflight.{
  SourceConfig, SourceSetConfig, active_sources, count_at_gate, check_detection_reachability,
  effective, keyword_path_dead, cluster_needs_self_duplication, mid_needs_self_duplication,
}

-- Whether an article carries the id and the weight of one of the sources.
unfoldable pub is_delivered : List SourceConfig → Article → Bool
is_delivered [] a = false
is_delivered (s ∷ ss) a =
    (str_eq s.source_id a.source_id && s.weight == a.source_weight) || is_delivered ss a

below_gate :
    (gate : ℕ) (ss : List SourceConfig) (a : Article)
    → count_at_gate gate ss ≡ 0
    → is_delivered ss a ≡ true
    → leb gate a.source_weight ≡ false
unfolding count_at_gate is_delivered
below_gate gate [] a n d = cc
below_gate gate (s ∷ ss) a n d = ground (arith, n, d, below_gate gate ss a)

abbrev OnCluster : Option TierVerdict → Type 0
OnCluster none = Unit
OnCluster (some v) = v.trigger ≡ cluster

tier_of-OnCluster :
    (cfg : DetectionConfig) (size weight : ℕ) (hit : Bool)
    → leb cfg.keyword_source_weight weight ≡ false
    → OnCluster (tier_of cfg size weight hit)
unfolding tier_of
tier_of-OnCluster cfg size weight hit g = elim (Bool-cases (leb cfg.high_cluster_size size)) [
  | inl a ↦ rw a refl
  | inr a ↦ elim (Bool-cases hit) [
    | inl b ↦ elim (Bool-cases (leb cfg.mid_cluster_size size)) [
      | inl c ↦ rw (a, b, g, c) refl
      | inr c ↦ rw (a, b, g, c) tt
    ]
    | inr b ↦ elim (Bool-cases (leb cfg.mid_cluster_size size)) [
      | inl c ↦ rw (a, b, c) refl
      | inr c ↦ rw (a, b, c) tt
    ]
  ]
]

apply_verdict-by_keyword :
    (a : Article) (n : NeighbourCount) (size : ℕ) (terms : List String) (v : Option TierVerdict)
    (r : DetectionResult)
    → OnCluster v
    → (apply_verdict a n size terms v r).by_keyword ≡ r.by_keyword
unfolding apply_verdict
apply_verdict-by_keyword a n size terms none r h = refl
apply_verdict-by_keyword a n size terms (some v) r h = rw h refl

detect_one-by_keyword :
    (env : DetectorEnv) (cfg : DetectionConfig) (a : Article) (r : DetectionResult)
    → leb cfg.keyword_source_weight a.source_weight ≡ false
    → (detect_one env cfg a r).by_keyword ≡ r.by_keyword
unfolding detect_one
detect_one-by_keyword env cfg a r g =
    apply_verdict-by_keyword a _ _ _ _ r
      (tier_of-OnCluster cfg _ a.source_weight (is_nonempty (matched_keywords env cfg a)) g)

detect_from-by_keyword :
    (env : DetectorEnv) (cfg : DetectionConfig) (ss : List SourceConfig) (fresh : List Article)
    (r : DetectionResult)
    → count_at_gate cfg.keyword_source_weight ss ≡ 0
    → All (λ a. is_delivered ss a ≡ true) fresh
    → (detect_from env cfg fresh r).by_keyword ≡ r.by_keyword
unfolding detect_from
detect_from-by_keyword env cfg ss [] r n d = refl
detect_from-by_keyword env cfg ss (a ∷ fresh) r n d =
    detect_from-by_keyword env cfg ss fresh (detect_one env cfg a r) n d.1
    ∙ detect_one-by_keyword env cfg a r (below_gate cfg.keyword_source_weight ss a n d.0)

-- A source set whose keyword path the preflight calls dead, and fresh articles that its active
-- sources delivered: no flag of the pass comes from a keyword, whatever the corpus counts and
-- whatever the keywords match.
pub detect-by_keyword :
    (env : DetectorEnv) (set : SourceSetConfig) (fresh : List Article)
    → keyword_path_dead (check_detection_reachability set) ≡ true
    → All (λ a. is_delivered (active_sources set) a ≡ true) fresh
    → (detect env set.detection fresh).by_keyword ≡ 0
unfolding detect keyword_path_dead check_detection_reachability
detect-by_keyword env set fresh k d =
    detect_from-by_keyword env set.detection (active_sources set) fresh no_flags (ground (arith, k))
      d

-- The thresholds of a pass that no article reaches.
record Unreached (cfg : DetectionConfig) (feeds : ℕ) : Type 0 where
  counts_feeds : cfg.cluster_unit ≡ unit_feeds
  high : feeds < cfg.high_cluster_size
  mid : feeds < cfg.mid_cluster_size

tier_of-none :
    (cfg : DetectionConfig) (size weight : ℕ) (hit : Bool)
    → leb cfg.keyword_source_weight weight ≡ false
    → size < cfg.high_cluster_size
    → size < cfg.mid_cluster_size
    → tier_of cfg size weight hit ≡ none
unfolding tier_of
tier_of-none cfg size weight hit g h m =
    let a : leb cfg.high_cluster_size size ≡ false = ground (arith, h) in
    let c : leb cfg.mid_cluster_size size ≡ false = ground (arith, m) in
    elim (Bool-cases hit) [ inl b ↦ rw (a, b, g, c) refl | inr b ↦ rw (a, b, c) refl ]

-- The size that the loop body compares.
size_bound :
    (cfg : DetectionConfig) (n : NeighbourCount) (feeds : ℕ)
    → cfg.cluster_unit ≡ unit_feeds
    → n.feeds ≤ feeds
    → size_by cfg.cluster_unit
        (if cfg.cluster_enabled then n else record { articles = 0; feeds = 0 })
      ≤ feeds
size_bound cfg n feeds u h = elim (Bool-cases cfg.cluster_enabled) [
  | inl e ↦ rw (u, e) h
  | inr e ↦ rw (u, e) (omega arith)
]

detect_one-none :
    (env : DetectorEnv) (cfg : DetectionConfig) (feeds : ℕ) (a : Article) (r : DetectionResult)
    → Unreached cfg feeds
    → leb cfg.keyword_source_weight a.source_weight ≡ false
    → (env.count_neighbors a).feeds ≤ feeds
    → detect_one env cfg a r ≡ r
unfolding detect_one apply_verdict
detect_one-none env cfg feeds a r u g n =
    let neighbours =
      if cfg.cluster_enabled then env.count_neighbors a else record { articles = 0; feeds = 0 } in
    let size = size_by cfg.cluster_unit neighbours in
    let le = size_bound cfg (env.count_neighbors a) feeds u.counts_feeds n in
    rw
      (tier_of-none cfg size a.source_weight (is_nonempty (matched_keywords env cfg a)) g
        (omega (arith, le, u.high)) (omega (arith, le, u.mid)))
      refl

detect_from-none :
    (env : DetectorEnv) (cfg : DetectionConfig) (ss : List SourceConfig) (feeds : ℕ)
    (fresh : List Article) (r : DetectionResult)
    → Unreached cfg feeds
    → count_at_gate cfg.keyword_source_weight ss ≡ 0
    → All (λ a. is_delivered ss a ≡ true) fresh
    → All (λ a. (env.count_neighbors a).feeds ≤ feeds) fresh
    → detect_from env cfg fresh r ≡ r
unfolding detect_from
detect_from-none env cfg ss feeds [] r u k d n = refl
detect_from-none env cfg ss feeds (a ∷ fresh) r u k d n =
    detect_from-none env cfg ss feeds fresh (detect_one env cfg a r) u k d.1 n.1
    ∙ detect_one-none env cfg feeds a r u (below_gate cfg.keyword_source_weight ss a k d.0) n.0

-- A source set that counts feeds, for which the preflight at boot calls HIGH and MID out of reach and
-- the keyword path dead. Where the active sources delivered the fresh articles, and no article's
-- neighbours come from more feeds than the effective ones, the pass flags nothing and writes nothing.
pub detect-none :
    (env : DetectorEnv) (set : SourceSetConfig) (fresh : List Article)
    → let reach = check_detection_reachability set in
      set.detection.cluster_unit ≡ unit_feeds
      → keyword_path_dead reach ≡ true
      → cluster_needs_self_duplication reach ≡ true
      → mid_needs_self_duplication reach ≡ true
      → All (λ a. is_delivered (active_sources set) a ≡ true) fresh
      → All (λ a. (env.count_neighbors a).feeds ≤ effective reach) fresh
      → detect env set.detection fresh ≡ no_flags
unfolding detect keyword_path_dead cluster_needs_self_duplication mid_needs_self_duplication
    check_detection_reachability effective
detect-none env set fresh f k c m d n =
    let feeds = effective (check_detection_reachability set) in
    let unreached : Unreached set.detection feeds = record {
      counts_feeds = f;
      high = ground (arith, c);
      mid = ground (arith, m);
    } in
    detect_from-none env set.detection (active_sources set) feeds fresh no_flags unreached
      (ground (arith, k)) d n
