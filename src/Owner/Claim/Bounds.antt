-- ===== src/Owner/Claim/Bounds.antt =====
-- The declared exposure that `claim_effect` enforces (src/zworkbench/composition.py).
use zworkbench.Owner.Claim.Request.{claim_request_code}
use zworkbench.Common.{
  String, Bool, true, false, not, ◌&&◌, ◌||◌, Option, none, some, List, [], ◌∷◌, ◌==◌,
  if◌then◌else◌,
}
use zworkbench.Json.{Value, text, Fields, end, field, get, truthy, get_truthy}
use zworkbench.Exec.{when◌then◌else◌, Exec, type_error, os_error, raise, ask, or_raise, ◌>>=◌}
use zworkbench.Owner.State.{Run, Exposure}
use zworkbench.Owner.Claim.Request.{EffectClaim, ClaimRequest, refusal, stop_and_deny}

unfoldable pub member : String → List String → Bool
member s [] = false
member s (t ∷ ts) = s == t || member s ts

-- `is_relative_to` on the components of resolved paths
unfoldable pub is_within : List String → List String → Bool
is_within [] path = true
is_within (r ∷ root) [] = false
is_within (r ∷ root) (p ∷ path) = r == p && is_within root path

-- `rest` is the code below the check.
unfoldable pub check_capabilities :
    Run → ClaimRequest → Fields → List String → Exec EffectClaim → Exec EffectClaim
check_capabilities run q exposure [] rest = rest
check_capabilities run q exposure (capability ∷ others) rest =
    let below = check_capabilities run q exposure others rest in
    when member capability q.required_exposure && not (get_truthy capability exposure)
    then stop_and_deny run q "exposure_not_declared" (field "capability" (text capability) end)
        (refusal "exposure_not_declared")
    else below

unfoldable pub deny_out_of_bounds : Run → ClaimRequest → Value → Fields → Exec EffectClaim
deny_out_of_bounds run q root details =
    stop_and_deny run q "workspace_out_of_bounds"
      (field "resource" (text q.resource) (field "workspace_root" root details))
      (refusal "workspace_out_of_bounds")

-- `Path(workspace_root).expanduser().resolve()`; `Path` refuses what is no text.
unfoldable pub resolve_root : Value → Exec (List String)
resolve_root (text root) = do found ← ask (λ env. env.resolve root); or_raise found os_error
resolve_root _ = raise type_error

unfoldable pub check_root : Run → ClaimRequest → Value → Exec EffectClaim → Exec EffectClaim
check_root run q root rest = do
  absolute ← ask (λ env. env.is_absolute q.resource)
  when not absolute
      then deny_out_of_bounds run q root (
          field "detail" (text "relative resource is ambiguous under a declared workspace boundary")
            end)
      else (do
        found_resource ← ask (λ env. env.resolve q.resource)
        resolved_resource ← or_raise found_resource os_error
        resolved_root ← resolve_root root
        when is_within resolved_root resolved_resource
            then rest
            else deny_out_of_bounds run q root end)

unfoldable pub check_workspace :
    Run → ClaimRequest → Option Value → Exec EffectClaim → Exec EffectClaim
check_workspace run q none rest = rest
check_workspace run q (some root) rest = when truthy root then check_root run q root rest else rest

abbrev pub capabilities : List String
capabilities = "network" ∷ "credentials" ∷ "subprocess" ∷ []

unfoldable pub check_declared :
    Run → ClaimRequest → Option Exposure → Exec EffectClaim → Exec EffectClaim
check_declared run q none rest = rest
check_declared run q (some declared) rest =
    when not (member q.effect_class declared.declared_side_effects)
    then stop_and_deny run q "side_effect_not_declared"
        (field "effect_class" (text q.effect_class) end) (refusal "side_effect_not_declared")
    else check_workspace run q (get "workspace_root" declared.exposure)
        (check_capabilities run q declared.exposure capabilities rest)

-- Opens the code of this module, for a run of it.
unfoldable pub claim_bounds_code : Unit {0}
unfolding claim_request_code member is_within check_capabilities deny_out_of_bounds resolve_root
    check_root check_workspace check_declared
claim_bounds_code = tt
