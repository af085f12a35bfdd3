-- ===== src/Examples/Detections.antt =====
-- A bar close, and a detection pass, on concrete data.
use finiex_ragengine.Prelude.{
  ℕ, ◌-◌, ◌*◌, ◌≤◌, ◌<◌, ◌≡◌, refl, All, arith, keep_if, contains, true, false, some, List, [], ◌∷◌,
}
use finiex_ragengine.Prelude.Dict
use finiex_ragengine.Prelude.Sort.{sort_by, insert_by}
use finiex_ragengine.Timeframe.{
  Moment, timeframe_minutes, bar, next_boundary, micros_until_next_boundary,
}
use finiex_ragengine.Timeframe.Boundary.{IsNextClose, next_boundary-IsNextClose}
use finiex_ragengine.Breaking.Detector.{
  DetectionConfig, DetectorEnv, unit_feeds, detect, no_flags, tier_of, matched_keywords,
}
use finiex_ragengine.Breaking.Detector.Flags.{IsTallied, detect-IsTallied}
use finiex_ragengine.Breaking.Preflight.{
  SourceSetConfig, active_sources, count_at_gate, check_detection_reachability, effective,
  keyword_path_dead, cluster_needs_self_duplication, mid_needs_self_duplication, with_quarantine,
  satisfiable,
}
use finiex_ragengine.Breaking.Preflight.Silence.{is_delivered, detect-none}
use finiex_ragengine.Retrieval.Corpus.{Article}
use finiex_ragengine.Examples.Retrievals.{article_at}

m10 : timeframe_minutes "M10" ≡ some 10
unfolding timeframe_minutes Dict.get
m10 = refl

-- At 00:10 to the microsecond the next M10 close is 00:20.
closes : next_boundary (record { micros = 600_000_000; aware = true }) "M10" ≡ some 1_200_000_000
unfolding next_boundary Dict.get
closes = refl

next_boundary-IsNextClose_example :
    let m : Moment = record { micros = 600_000_000; aware = true } in
    (b : ℕ) × (next_boundary m "M10" ≡ some b)
    × IsNextClose 600_000_000 (bar 10) b
    × (micros_until_next_boundary m "M10" ≡ some (b - 600_000_000))
    × (0 < b - 600_000_000)
    × ((k : ℕ) × (k * 10 ≡ 1440))
next_boundary-IsNextClose_example = next_boundary-IsNextClose 600_000_000 10 "M10" m10

abbrev detection : DetectionConfig
detection = record {
  cluster_enabled = true;
  cluster_unit = unit_feeds;
  high_cluster_size = 5;
  mid_cluster_size = 3;
  keyword_source_weight = 1;
  keywords = "hack" ∷ [];
}

-- Three feeds carry every story, and each names the keyword.
abbrev detector : DetectorEnv
detector = record {
  count_neighbors = λ a. record { articles = 7; feeds = 3 };
  findall = λ a. "hack" ∷ "hack" ∷ [];
  lower = λ s. s;
  str_le = λ a b. true;
}

abbrev fresh : List Article
fresh = article_at "a" 1 ∷ article_at "b" 2 ∷ []

two_high : (detect detector detection fresh).candidates ≡ 2
unfolding detect tier_of matched_keywords sort_by insert_by Dict.get Dict.put
two_high = refl

detect-IsTallied_example : IsTallied (detect detector detection fresh)
detect-IsTallied_example = detect-IsTallied detector detection fresh

-- One feed of weight 0 is active; the gate stands at 1 and the clusters at 3 and 5 feeds.
abbrev narrow : SourceSetConfig
narrow = record {
  source_set_id = "fx";
  detection = detection;
  sources =
      record { source_id = "feed"; weight = 0; enabled = true }
      ∷ record { source_id = "off"; weight = 9; enabled = false }
      ∷ [];
}

abbrev light : List Article
light =
    record (article_at "a" 1) { source_weight = 0 }
    ∷ record (article_at "b" 2) { source_weight = 0 }
    ∷ []

-- The corpus finds seven articles around each, all of the one feed.
abbrev lonely : DetectorEnv
lonely = record detector { count_neighbors = λ a. record { articles = 7; feeds = 1 } }

one_effective : effective (check_detection_reachability narrow) ≡ 1
unfolding effective check_detection_reachability active_sources keep_if
one_effective = refl

dead : keyword_path_dead (check_detection_reachability narrow) ≡ true
unfolding keyword_path_dead check_detection_reachability active_sources count_at_gate keep_if
dead = refl

no_high : cluster_needs_self_duplication (check_detection_reachability narrow) ≡ true
unfolding cluster_needs_self_duplication check_detection_reachability effective active_sources
    keep_if
no_high = refl

no_mid : mid_needs_self_duplication (check_detection_reachability narrow) ≡ true
unfolding mid_needs_self_duplication check_detection_reachability effective active_sources keep_if
no_mid = refl

delivered : All (λ a. is_delivered (active_sources narrow) a ≡ true) light
unfolding is_delivered active_sources keep_if
delivered = (refl, (refl, tt))

few_feeds :
    All
      (λ a. (lonely.count_neighbors a).feeds ≤ effective (check_detection_reachability narrow))
      light
few_feeds = (omega (arith, one_effective), (omega (arith, one_effective), tt))

detect-none_example : detect lonely detection light ≡ no_flags
detect-none_example = detect-none lonely narrow light refl dead no_high no_mid delivered few_feeds

-- With its one feed in quarantine the set has no feed left to poll.
none_effective :
    effective (with_quarantine (check_detection_reachability narrow) ("feed" ∷ "other" ∷ [])) ≡ 0
unfolding effective with_quarantine check_detection_reachability active_sources keep_if contains
none_effective = refl

unsatisfiable : satisfiable (check_detection_reachability narrow) ≡ false
unfolding satisfiable check_detection_reachability active_sources count_at_gate keep_if effective
unsatisfiable = refl
