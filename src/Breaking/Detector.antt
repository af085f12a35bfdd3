-- ===== src/Breaking/Detector.antt =====
-- finiexragengine/core/pipeline/breaking_detector.py, with `DetectionConfig` of
-- types/config_types/source_set_types.py and `DetectionResult` of types/ingest_types.py. The count
-- of neighbours in the corpus and the matches of the keyword pattern are arguments; the log lines
-- are left out. An error of the database, which ends the detection, is an argument of the caller
-- (Ingest), not of `detect`.
pub mod Flags
use finiex_ragengine.Prelude.{
  ℕ, suc, ◌+◌, ◌++◌, String, Bool, true, false, not, ◌&&◌, Option, none, some, List, [], ◌∷◌, map,
  max, length, leb, ◌==◌, if◌then◌else◌, str_eq,
}
use finiex_ragengine.Prelude.Sort.{sort_by}
use finiex_ragengine.Prelude.Dict
use finiex_ragengine.Prelude.Dict.{Dict}
use finiex_ragengine.Retrieval.Corpus.{Article}

pub record NeighbourCount : Type 0 where
  pub articles : ℕ
  pub feeds : ℕ

pub data ClusterUnit : Type 0 where
  unit_articles unit_feeds : ClusterUnit

pub data DetectionTrigger : Type 0 where
  cluster keyword : DetectionTrigger

pub record DetectionConfig : Type 0 where
  pub cluster_enabled : Bool
  pub cluster_unit : ClusterUnit
  pub high_cluster_size : ℕ
  pub mid_cluster_size : ℕ
  pub keyword_source_weight : ℕ
  pub keywords : List String

-- the tiers MID and HIGH
abbrev pub mid_tier : ℕ
mid_tier = 2

abbrev pub high_tier : ℕ
high_tier = 3

pub record TierVerdict : Type 0 where
  pub tier : ℕ
  pub trigger : DetectionTrigger

-- `_tier`
unfoldable pub tier_of : DetectionConfig → ℕ → ℕ → Bool → Option TierVerdict
tier_of cfg cluster_size source_weight keyword_hit =
    if leb cfg.high_cluster_size cluster_size
    then some (record { tier = high_tier; trigger = cluster })
    else if keyword_hit && leb cfg.keyword_source_weight source_weight
    then some (record { tier = high_tier; trigger = keyword })
    else if leb cfg.mid_cluster_size cluster_size
    then some (record { tier = mid_tier; trigger = cluster })
    else none

-- What `detect` reads: the corpus' count around an article, and Python's texts.
pub record DetectorEnv : Type 0 where
  pub count_neighbors : Article → NeighbourCount
  -- `findall` of the compiled pattern on title and summary
  pub findall : Article → List String
  pub lower : String → String
  pub str_le : String → String → Bool

unfoldable pub add_once : List String → String → List String
add_once [] k = k ∷ []
add_once (x ∷ xs) k = let rest = add_once xs k in if str_eq x k then x ∷ xs else x ∷ rest

unfoldable pub distinct : List String → List String
unfolding add_once
distinct [] = []
distinct (x ∷ xs) = add_once (distinct xs) x

-- {keyword.lower(): keyword for keyword in keywords}
unfoldable pub keyword_terms : (String → String) → Dict String → List String → Dict String
keyword_terms lower d [] = d
keyword_terms lower d (k ∷ ks) = keyword_terms lower (Dict.put d (lower k) k) ks

abbrev pub or_text : Option String → String → String
or_text none b = b
or_text (some a) b = a

unfoldable pub matched_keywords : DetectorEnv → DetectionConfig → Article → List String
unfolding distinct keyword_terms
matched_keywords env cfg article = elim cfg.keywords [
  | [] ↦ []
  | k ∷ ks ↦
      let terms = keyword_terms env.lower [] (k ∷ ks) in
      sort_by env.str_le
        (distinct (map (λ hit. or_text (Dict.get terms (env.lower hit)) hit) (env.findall article)))
]

-- One call of `flag_candidates`.
pub record FlagWrite : Type 0 where
  pub article_id : String
  pub importance : ℕ
  pub breaking : Bool
  pub trigger : DetectionTrigger
  pub neighbours : Option NeighbourCount
  pub keywords : Option (List String)

pub record FlaggedCandidate : Type 0 where
  pub source_id : String
  pub title : String
  pub trigger : DetectionTrigger
  pub terms : List String
  pub cluster_size : ℕ

-- `by_trigger` has a count for each of the two paths.
pub record DetectionResult : Type 0 where
  pub candidates : ℕ
  pub mid : ℕ
  pub max_tier : ℕ
  pub by_cluster : ℕ
  pub by_keyword : ℕ
  pub flagged : List FlaggedCandidate
  pub writes : List FlagWrite

abbrev pub no_flags : DetectionResult
no_flags = record {
  candidates = 0;
  mid = 0;
  max_tier = 0;
  by_cluster = 0;
  by_keyword = 0;
  flagged = [];
  writes = [];
}

abbrev pub size_by : ClusterUnit → NeighbourCount → ℕ
size_by unit_feeds n = n.feeds
size_by unit_articles n = n.articles

abbrev pub measured : DetectionTrigger → NeighbourCount → Option NeighbourCount
measured cluster n = some n
measured keyword n = none

abbrev pub fired : DetectionTrigger → List String → Option (List String)
fired cluster terms = none
fired keyword terms = some terms

abbrev pub terms_of : DetectionTrigger → List String → List String
terms_of cluster terms = []
terms_of keyword terms = terms

abbrev pub neighbourhood : DetectionTrigger → ℕ → ℕ
neighbourhood cluster size = size
neighbourhood keyword size = 0

abbrev pub count_trigger : DetectionTrigger → DetectionResult → DetectionResult
count_trigger cluster r = record r { by_cluster = suc r.by_cluster }
count_trigger keyword r = record r { by_keyword = suc r.by_keyword }

-- The rest of the loop body, on the verdict.
unfoldable pub apply_verdict :
    Article
    → NeighbourCount
    → ℕ
    → List String
    → Option TierVerdict
    → DetectionResult
    → DetectionResult
apply_verdict article neighbours size matched none r = r
apply_verdict article neighbours size matched (some v) r =
    let breaking = v.tier == high_tier in
    let write : FlagWrite = record {
      article_id = article.article_id;
      importance = v.tier;
      breaking = breaking;
      trigger = v.trigger;
      neighbours = measured v.trigger neighbours;
      keywords = fired v.trigger matched;
    } in
    let flag : FlaggedCandidate = record {
      source_id = article.source_id;
      title = article.title;
      trigger = v.trigger;
      terms = terms_of v.trigger matched;
      cluster_size = neighbourhood v.trigger size;
    } in
    let counted = count_trigger v.trigger r in
    record counted {
      writes = r.writes ++ write ∷ [];
      candidates = if breaking then suc r.candidates else r.candidates;
      flagged = if breaking then r.flagged ++ flag ∷ [] else r.flagged;
      mid = if breaking then r.mid else suc r.mid;
      max_tier = max r.max_tier v.tier;
    }

abbrev pub is_nonempty {ℓ} : {A : Type ℓ} → List A → Bool
is_nonempty [] = false
is_nonempty (_ ∷ _) = true

-- The loop body of `detect`.
unfoldable pub detect_one :
    DetectorEnv → DetectionConfig → Article → DetectionResult → DetectionResult
unfolding matched_keywords tier_of apply_verdict
detect_one env cfg article r =
    let neighbours =
      if cfg.cluster_enabled
      then env.count_neighbors article
      else record { articles = 0; feeds = 0 } in
    let size = size_by cfg.cluster_unit neighbours in
    let matched = matched_keywords env cfg article in
    apply_verdict article neighbours size matched
      (tier_of cfg size article.source_weight (is_nonempty matched)) r

unfoldable pub detect_from :
    DetectorEnv → DetectionConfig → List Article → DetectionResult → DetectionResult
unfolding detect_one
detect_from env cfg [] r = r
detect_from env cfg (article ∷ fresh) r = detect_from env cfg fresh (detect_one env cfg article r)

unfoldable pub detect : DetectorEnv → DetectionConfig → List Article → DetectionResult
unfolding detect_from
detect env cfg fresh = detect_from env cfg fresh no_flags
