-- ===== src/Pipeline/Messages.antt =====
-- The texts that finiexragengine/core/pipeline/pipeline_runner.py writes on errors and degraded rows.
use Prim.Native.String.{String, ◌++◌}
use finiex_ragengine.Prelude.{List, [], ◌∷◌, map}
use finiex_ragengine.Pipeline.OutputGuard.{GuardViolation, violation_text}

-- f'{subject}: {detail}'
unfoldable pub about : String → String → String
about subject detail = subject ++ ": " ++ detail

-- sep.join(parts)
unfoldable pub joined : String → List String → String
joined sep [] = ""
joined sep (x ∷ []) = x
joined sep (x ∷ y ∷ xs) = x ++ sep ++ joined sep (y ∷ xs)

unfoldable pub analysis_degraded : String → String
analysis_degraded error_type = "Analysis degraded to HOLD (" ++ error_type ++ ")"

unfoldable pub guard_detail : List GuardViolation → String
unfolding joined violation_text
guard_detail vs = "output guard: " ++ joined "; " (map violation_text vs)

unfoldable pub guard_degraded : List GuardViolation → String
unfolding joined
guard_degraded vs =
    "Output guard degraded to HOLD ("
    ++ joined ", " (map (λ (v : GuardViolation). v.rule) vs)
    ++ ")"

unfoldable pub not_persisted : String → String
not_persisted text = "outcome not persisted: " ++ text
