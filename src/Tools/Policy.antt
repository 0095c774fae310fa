-- ===== src/Tools/Policy.antt =====
-- internal/toolruntime/policy.go, Policy.Decide.
use open_im.Prelude.{String, Bool, ◌&&◌, ◌||◌, not, List, if◌then◌else◌, any, all, ◌==◌}
use open_im.Agent.Catalog.{Descriptor}

pub record Decision : Type 0 where
  pub outcome : String
  pub reason : String

-- `slices.Contains(grants, permission)`
abbrev pub is_granted : List String → String → Bool
is_granted grants permission = any (λ grant. grant == permission) grants

abbrev pub deny : String → Decision
deny reason = record { outcome = "deny"; reason = reason }

abbrev pub decide_risk : Descriptor → Decision
decide_risk d =
    if d.risk == "read"
    then record { outcome = "allow"; reason = "authorized_read" }
    else if d.risk == "write" || d.risk == "external_side_effect" || d.risk == "privileged"
    then if d.idempotency == "none" || d.idempotency == "unknown"
      then deny "side_effect_idempotency_unsupported"
      else record { outcome = "require_approval"; reason = "side_effect_requires_approval" }
    else deny "unsupported_risk"

-- Decide, for the execution plane of the Run.
unfoldable pub decide : String → Descriptor → List String → Decision
decide plane d grants =
    if not (d.audience == plane)
    then deny "execution_plane_mismatch"
    else if not (all (is_granted grants) d.permissions)
    then deny "permission_missing"
    else if plane == "proactive_source"
        && (not (d.risk == "read") || not (d.retry_semantics == "safe"))
    then deny "proactive_side_effect_forbidden"
    else decide_risk d
