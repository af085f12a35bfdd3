-- ===== src/Breaking/Preflight.antt =====
-- finiexragengine/core/pipeline/detection_preflight.py, with `DetectionReachability` of
-- types/ingest_types.py and `SourceSetConfig` of types/config_types/source_set_types.py: can the
-- thresholds of a source set still fire? The wording of the report is left out.
pub mod Silence
use finiex_ragengine.Prelude.{
  ℕ, suc, ◌-◌, String, Bool, true, false, not, ◌&&◌, ◌||◌, List, [], ◌∷◌, map, max, length, leb,
  ltb, ◌==◌, if◌then◌else◌, contains, str_eq, keep_if,
}
use finiex_ragengine.Breaking.Detector.{ClusterUnit, unit_feeds, unit_articles, DetectionConfig}

pub record SourceConfig : Type 0 where
  pub source_id : String
  pub weight : ℕ
  pub enabled : Bool

pub record SourceSetConfig : Type 0 where
  pub source_set_id : String
  pub detection : DetectionConfig
  pub sources : List SourceConfig

unfoldable pub active_sources : SourceSetConfig → List SourceConfig
active_sources set = keep_if (λ s. s.enabled) set.sources

pub record DetectionReachability : Type 0 where
  pub source_set_id : String
  pub declared : ℕ
  pub active : ℕ
  pub disabled_ids : List String
  pub active_ids : List String
  pub mid_cluster_size : ℕ
  pub high_cluster_size : ℕ
  pub keyword_source_weight : ℕ
  pub max_active_weight : ℕ
  pub at_or_above_gate : ℕ
  pub quarantined_ids : List String
  pub quarantine_known : Bool
  pub cluster_unit : ClusterUnit
  pub cluster_enabled : Bool

-- max(weights) if weights else 0.0
unfoldable pub max_weight : List SourceConfig → ℕ
max_weight [] = 0
max_weight (s ∷ ss) = max s.weight (max_weight ss)

unfoldable pub count_at_gate : ℕ → List SourceConfig → ℕ
count_at_gate gate [] = 0
count_at_gate gate (s ∷ ss) =
    let n = count_at_gate gate ss in if leb gate s.weight then suc n else n

unfoldable pub check_detection_reachability : SourceSetConfig → DetectionReachability
unfolding active_sources max_weight count_at_gate
check_detection_reachability set =
    let active = active_sources set in
    record {
      source_set_id = set.source_set_id;
      declared = length set.sources;
      active = length active;
      disabled_ids = map (λ s. s.source_id) (keep_if (λ s. not s.enabled) set.sources);
      active_ids = map (λ s. s.source_id) active;
      mid_cluster_size = set.detection.mid_cluster_size;
      high_cluster_size = set.detection.high_cluster_size;
      keyword_source_weight = set.detection.keyword_source_weight;
      max_active_weight = max_weight active;
      at_or_above_gate = count_at_gate set.detection.keyword_source_weight active;
      quarantined_ids = [];
      quarantine_known = false;
      cluster_unit = set.detection.cluster_unit;
      cluster_enabled = set.detection.cluster_enabled;
    }

-- The quarantined ids are a set, here a list in sorted order without repetition.
unfoldable pub with_quarantine : DetectionReachability → List String → DetectionReachability
unfolding contains
with_quarantine reach quarantined = record reach {
  quarantined_ids = keep_if (contains reach.active_ids) quarantined;
  quarantine_known = true;
}

unfoldable pub effective : DetectionReachability → ℕ
effective reach = reach.active - length reach.quarantined_ids

unfoldable pub cluster_needs_self_duplication : DetectionReachability → Bool
unfolding effective
cluster_needs_self_duplication reach =
    reach.cluster_enabled && ltb (effective reach) reach.high_cluster_size

unfoldable pub mid_needs_self_duplication : DetectionReachability → Bool
unfolding effective
mid_needs_self_duplication reach =
    reach.cluster_enabled && ltb (effective reach) reach.mid_cluster_size

unfoldable pub keyword_path_dead : DetectionReachability → Bool
keyword_path_dead reach = reach.at_or_above_gate == 0

unfoldable pub satisfiable : DetectionReachability → Bool
unfolding cluster_needs_self_duplication mid_needs_self_duplication keyword_path_dead
satisfiable reach = not (
    cluster_needs_self_duplication reach
    || mid_needs_self_duplication reach
    || keyword_path_dead reach)
