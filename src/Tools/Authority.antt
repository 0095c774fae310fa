-- ===== src/Tools/Authority.antt =====
-- Whom Decide of internal/toolruntime/policy.go lets call a tool.
use open_im.Prelude.{
  String, Bool, ◌≡◌, refl, true, false, ◌&&◌, ◌||◌, not, List, all, if◌then◌else◌, ◌==◌, eq_iff,
}
use open_im.Agent.Catalog.{Descriptor}
use open_im.Tools.Policy.{Decision, deny, decide, is_granted}

-- The tool is meant for the plane, and the member has all its permissions.
abbrev pub is_permitted : String → Descriptor → List String → Bool
is_permitted plane d grants = d.audience == plane && all (is_granted grants) d.permissions

abbrev pub may_read : String → Descriptor → List String → Bool
may_read plane d grants =
    is_permitted plane d grants
    && d.risk == "read"
    && (not (plane == "proactive_source") || d.retry_semantics == "safe")

abbrev pub may_ask : String → Descriptor → List String → Bool
may_ask plane d grants =
    is_permitted plane d grants
    && not (plane == "proactive_source")
    && (d.risk == "write" || d.risk == "external_side_effect" || d.risk == "privileged")
    && not (d.idempotency == "none")
    && not (d.idempotency == "unknown")

-- A tool that reads has no side effect.
reads_only :
    (risk : String)
    → (risk == "read") ≡ true
    → (risk == "write" || risk == "external_side_effect" || risk == "privileged") ≡ false
reads_only risk h = let reads : risk ≡ "read" = (eq_iff risk "read").0 h in rw reads refl

-- Decide as a table over its tests.
abbrev table : Bool → Bool → Bool → Bool → Bool → Bool → Bool → Bool → Decision
table meant granted proactive reads safe effect none_known unknown =
    if not meant
    then deny "execution_plane_mismatch"
    else if not granted
    then deny "permission_missing"
    else if proactive && (not reads || not safe)
    then deny "proactive_side_effect_forbidden"
    else if reads
    then record { outcome = "allow"; reason = "authorized_read" }
    else if effect
    then if none_known || unknown
      then deny "side_effect_idempotency_unsupported"
      else record { outcome = "require_approval"; reason = "side_effect_requires_approval" }
    else deny "unsupported_risk"

abbrev reading : Bool → Bool → Bool → Bool → Bool → Bool
reading meant granted proactive reads safe = (meant && granted) && reads && (not proactive || safe)

abbrev asking : Bool → Bool → Bool → Bool → Bool → Bool → Bool
asking meant granted proactive effect none_known unknown =
    (meant && granted) && not proactive && effect && not none_known && not unknown

abbrev Outcomes : String → Bool → Bool → Type 0
Outcomes outcome allows asks =
    ((outcome == "allow") ≡ allows)
    × ((outcome == "require_approval") ≡ asks)
    × ((outcome == "deny") ≡ not (allows || asks))

table-outcome :
    (meant granted proactive reads safe effect none_known unknown : Bool)
    → (reads ≡ true → effect ≡ false)
    → Outcomes
        (table meant granted proactive reads safe effect none_known unknown).outcome
        (reading meant granted proactive reads safe)
        (asking meant granted proactive effect none_known unknown)
table-outcome false g p r s e n u h = (refl, refl, refl)
table-outcome true false p r s e n u h = (refl, refl, refl)
table-outcome true true true true true e n u h = (refl, refl, refl)
table-outcome true true true true false e n u h = (refl, refl, refl)
table-outcome true true true false s e n u h = (refl, refl, refl)
table-outcome true true false true s true n u h = absurd (cc (h refl))
table-outcome true true false true s false n u h = (refl, refl, refl)
table-outcome true true false false s false n u h = (refl, refl, refl)
table-outcome true true false false s true true u h = (refl, refl, refl)
table-outcome true true false false s true false true h = (refl, refl, refl)
table-outcome true true false false s true false false h = (refl, refl, refl)

-- The policy allows a call outright exactly if the plane and the permissions fit, the tool only
-- reads, and, from a proactive source, may be retried; it asks for approval exactly if they fit,
-- the tool has a side effect of a known risk with idempotency, and the source is not proactive; in
-- every other case it denies the call.
pub decide-outcome :
    (plane : String) (d : Descriptor) (grants : List String)
    → (((decide plane d grants).outcome == "allow") ≡ may_read plane d grants)
      × (((decide plane d grants).outcome == "require_approval") ≡ may_ask plane d grants)
      × (((decide plane d grants).outcome == "deny")
          ≡ not (may_read plane d grants || may_ask plane d grants))
unfolding decide
decide-outcome plane d grants =
    table-outcome (d.audience == plane) (all (is_granted grants) d.permissions)
      (plane == "proactive_source") (d.risk == "read") (d.retry_semantics == "safe")
      (d.risk == "write" || d.risk == "external_side_effect" || d.risk == "privileged")
      (d.idempotency == "none") (d.idempotency == "unknown") (reads_only d.risk)
