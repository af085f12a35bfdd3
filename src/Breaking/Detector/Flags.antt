-- ===== src/Breaking/Detector/Flags.antt =====
-- The flags that finiexragengine/core/pipeline/breaking_detector.py writes and counts.
use finiex_ragengine.Prelude.{
  ℕ, suc, ◌+◌, String, ◌++◌, ◌≤◌, ◌≡◌, refl, Bool, true, false, ◌&&◌, Option, none, some, List, [],
  ◌∷◌, max, length, length-append, leb, ◌==◌, All, All-append, is_some, arith, Bool-cases, inl, inr,
  if◌then◌else◌,
}
use finiex_ragengine.Breaking.Detector.{
  NeighbourCount, DetectionConfig, DetectionTrigger, cluster, keyword, TierVerdict, FlagWrite,
  FlaggedCandidate, terms_of, neighbourhood, DetectionResult, DetectorEnv, no_flags, mid_tier,
  high_tier, size_by, tier_of, is_nonempty, count_trigger, measured, fired, apply_verdict,
  detect_one, detect_from, detect, matched_keywords,
}
use finiex_ragengine.Retrieval.Corpus.{Article}

-- A written row: tier MID or HIGH, breaking exactly at HIGH, and the evidence of its own path only.
pub record IsAttributed (w : FlagWrite) : Type 0 where
  pub breaks : w.breaking ≡ (w.importance == high_tier)
  pub tiered : mid_tier ≤ w.importance
  pub topped : w.importance ≤ high_tier
  pub by_path :
      (w.trigger ≡ cluster → is_some w.neighbours ≡ true)
      × (w.trigger ≡ keyword → is_some w.neighbours ≡ false)
      × (w.trigger ≡ keyword → is_some w.keywords ≡ true)
      × (w.trigger ≡ cluster → is_some w.keywords ≡ false)

-- The highest importance of the rows.
unfoldable pub highest : List FlagWrite → ℕ
highest [] = 0
highest (w ∷ ws) = max w.importance (highest ws)

highest-append :
    (xs : List FlagWrite) (y : FlagWrite) → highest (xs ++ y ∷ []) ≡ max (highest xs) y.importance
unfolding highest
highest-append [] y = omega arith
highest-append (x ∷ xs) y = omega (arith, highest-append xs y)

unfoldable pub count_breaking : List FlagWrite → ℕ
count_breaking [] = 0
count_breaking (w ∷ ws) = let n = count_breaking ws in if w.breaking then suc n else n

count_breaking-append :
    (xs : List FlagWrite) (y : FlagWrite)
    → count_breaking (xs ++ y ∷ []) ≡ count_breaking xs + (if y.breaking then 1 else 0)
unfolding count_breaking
count_breaking-append [] y = ground arith
count_breaking-append (x ∷ xs) y = ground (arith, count_breaking-append xs y)

-- The totals of a pass are those of the rows that it wrote.
pub record IsTallied (r : DetectionResult) : Type 0 where
  pub total : r.candidates + r.mid ≡ length r.writes
  pub by_path : r.by_cluster + r.by_keyword ≡ length r.writes
  pub breaking : r.candidates ≡ count_breaking r.writes
  pub listed : r.candidates ≡ length r.flagged
  pub peak : r.max_tier ≡ highest r.writes
  pub attributed : All IsAttributed r.writes

abbrev InRange : Option TierVerdict → Type 0
InRange none = Unit
InRange (some v) = (mid_tier ≤ v.tier) × (v.tier ≤ high_tier)

tier_of-InRange :
    (cfg : DetectionConfig) (size weight : ℕ) (hit : Bool) → InRange (tier_of cfg size weight hit)
unfolding tier_of
tier_of-InRange cfg size weight hit = elim (Bool-cases (leb cfg.high_cluster_size size)) [
  | inl a ↦ rw a (omega arith, omega arith)
  | inr a ↦ elim (Bool-cases (hit && leb cfg.keyword_source_weight weight)) [
    | inl b ↦ rw (a, b) (omega arith, omega arith)
    | inr b ↦ elim (Bool-cases (leb cfg.mid_cluster_size size)) [
      | inl c ↦ rw (a, b, c) (omega arith, omega arith)
      | inr c ↦ rw (a, b, c) tt
    ]
  ]
]

measured_by :
    (t : DetectionTrigger) (n : NeighbourCount) (terms : List String)
    → (t ≡ cluster → is_some (measured t n) ≡ true)
      × (t ≡ keyword → is_some (measured t n) ≡ false)
      × (t ≡ keyword → is_some (fired t terms) ≡ true)
      × (t ≡ cluster → is_some (fired t terms) ≡ false)
measured_by cluster n terms = ((λ e. refl), (λ e. cc), (λ e. cc), λ e. refl)
measured_by keyword n terms = ((λ e. cc), (λ e. refl), (λ e. refl), λ e. cc)

count_trigger_sum :
    (t : DetectionTrigger) (r : DetectionResult)
    → (count_trigger t r).by_cluster + (count_trigger t r).by_keyword
      ≡ suc (r.by_cluster + r.by_keyword)
count_trigger_sum cluster r = omega arith
count_trigger_sum keyword r = omega arith

apply_verdict-IsTallied :
    (article : Article) (n : NeighbourCount) (size : ℕ) (matched : List String)
    (o : Option TierVerdict) (r : DetectionResult)
    → InRange o
    → IsTallied r
    → IsTallied (apply_verdict article n size matched o r)
unfolding apply_verdict
apply_verdict-IsTallied article n size matched none r h t = t
apply_verdict-IsTallied article n size matched (some v) r h t =
    let breaking = v.tier == high_tier in
    let w : FlagWrite = record {
      article_id = article.article_id;
      importance = v.tier;
      breaking = breaking;
      trigger = v.trigger;
      neighbours = measured v.trigger n;
      keywords = fired v.trigger matched;
    } in
    let one = length-append r.writes (w ∷ []) in
    let flag : FlaggedCandidate = record {
      source_id = article.source_id;
      title = article.title;
      trigger = v.trigger;
      terms = terms_of v.trigger matched;
      cluster_size = neighbourhood v.trigger size;
    } in
    record {
      total = ground (arith, one, t.total);
      by_path = omega (arith, one, count_trigger_sum v.trigger r, t.by_path);
      breaking = ground (arith, count_breaking-append r.writes w, t.breaking);
      listed = ground (arith, length-append r.flagged (flag ∷ []), t.listed);
      peak = omega (arith, highest-append r.writes w, t.peak);
      attributed = All-append IsAttributed r.writes (w ∷ []) t.attributed (
        record {
          breaks = refl;
          tiered = h.0;
          topped = h.1;
          by_path = measured_by v.trigger n matched;
        },
        tt,
      );
    }

detect_from-IsTallied :
    (env : DetectorEnv) (cfg : DetectionConfig) (fresh : List Article) (r : DetectionResult)
    → IsTallied r
    → IsTallied (detect_from env cfg fresh r)
unfolding detect_from detect_one
detect_from-IsTallied env cfg [] r t = t
detect_from-IsTallied env cfg (article ∷ fresh) r t =
    let n : NeighbourCount =
      if cfg.cluster_enabled
      then env.count_neighbors article
      else record { articles = 0; feeds = 0 } in
    let size = size_by cfg.cluster_unit n in
    let matched = matched_keywords env cfg article in
    let range = tier_of-InRange cfg size article.source_weight (is_nonempty matched) in
    detect_from-IsTallied env cfg fresh (detect_one env cfg article r)
      (apply_verdict-IsTallied article n size matched _ r range t)

-- One detection pass: the articles raised to HIGH and to MID are together the rows written, and so
-- are the counts of the two paths; the HIGH ones are the breaking rows and are listed; the highest
-- tier is that of the rows. Each row has tier MID or HIGH, is breaking exactly at HIGH, and carries
-- the neighbourhood only for the cluster path and the matched terms only for the keyword path.
pub detect-IsTallied :
    (env : DetectorEnv) (cfg : DetectionConfig) (fresh : List Article)
    → IsTallied (detect env cfg fresh)
unfolding detect count_breaking highest
detect-IsTallied env cfg fresh = detect_from-IsTallied env cfg fresh no_flags (record {
  total = refl;
  by_path = refl;
  breaking = refl;
  listed = refl;
  peak = refl;
  attributed = tt;
})
