-- ===== src/Worker/Facade.antt =====
-- `CapabilityFacade` of src/zworkbench/worker_contract.py.
pub mod Sets
pub mod Authorized
use zworkbench.Common.{
  String, Bool, true, false, not, ◌&&◌, Option, none, some, List, [], ◌∷◌, ◌==◌, if◌then◌else◌,
}
use zworkbench.Worker.Base.{
  Code, refused, safe_stop, Checked, good, bad, ◌>>=◌, ◌>>◌, refuse_if, one_of,
}
use zworkbench.Worker.Identity.{is_complete}
use zworkbench.Worker.Capability.{CapabilityRequest}
use zworkbench.Worker.Envelope.{WorkerEnvelope}

-- A capability with its effect class and its permissions, a set of names.
pub record CapabilityEffect : Type 0 where
  pub capability : String
  pub effect : String
  pub permissions : List String

-- `DEFAULT_CAPABILITY_EFFECTS`
abbrev pub default_effects : List CapabilityEffect
default_effects =
    record { capability = "workspace.read"; effect = "none"; permissions = "workspace.read" ∷ [] }
    ∷ record { capability = "workspace.list"; effect = "none"; permissions = "workspace.read" ∷ [] }
    ∷ record {
      capability = "test.run";
      effect = "local_process";
      permissions = "process.local_read" ∷ [];
    }
    ∷ record {
      capability = "artifact.emit";
      effect = "owner_record";
      permissions = "owner.artifact_write" ∷ [];
    }
    ∷ record {
      capability = "provider.infer";
      effect = "provider_request";
      permissions = "provider.infer" ∷ [];
    }
    ∷ []

-- `KNOWN_EFFECT_CLASSES`
abbrev pub effect_classes : List String
effect_classes =
    "none" ∷ "local_process" ∷ "owner_record" ∷ "provider_request" ∷ "isolated_workspace_write"
    ∷ "external_write" ∷ []

-- `CapabilityFacade.__init__`: `capability_effects or DEFAULT_CAPABILITY_EFFECTS`
abbrev pub facade : List CapabilityEffect → List CapabilityEffect
facade [] = default_effects
facade (c ∷ cs) = c ∷ cs

unfoldable pub effect_of : List CapabilityEffect → String → Option CapabilityEffect
effect_of [] name = none
effect_of (c ∷ cs) name =
    let rest = effect_of cs name in if c.capability == name then some c else rest

abbrev pub covers : List String → List String → Bool
covers xs [] = true
covers xs (y ∷ ys) = one_of xs y && covers xs ys

-- Equality of two frozensets.
unfoldable pub same_set : List String → List String → Bool
same_set xs ys = covers xs ys && covers ys xs

pub record CapabilityDecision : Type 0 where
  pub request_id : String
  pub decision : String
  pub reason : String
  pub safe_stop : Bool

abbrev pub allow : CapabilityRequest → CapabilityDecision
allow request = record {
  request_id = request.request_id;
  decision = "allow";
  reason = "allowlisted capability and declared permission";
  safe_stop = false;
}

abbrev pub or_refuse : {A : Type 0} → Option A → Checked A → Checked A
or_refuse none m = m
or_refuse (some a) m = good a

-- `envelope.capability_request`, where the message is a request that has one
abbrev pub asked : WorkerEnvelope → Option CapabilityRequest
asked e = if e.message_type == "capability.request" then e.capability_request else none

-- `CapabilityFacade.authorize`
unfoldable pub authorize : List CapabilityEffect → WorkerEnvelope → Checked CapabilityDecision
unfolding is_complete effect_of same_set
authorize effects e = do
  request ← or_refuse (asked e) (bad (refused Code.capability_message_required))
  refuse_if (not (e.replay_mode == "normal")) (safe_stop Code.replay_execution_forbidden)
  refuse_if (not (is_complete e.identity)) (safe_stop Code.capability_identity_incomplete)
  expected ←
      or_refuse (effect_of effects request.capability) (bad (safe_stop Code.unknown_capability))
  refuse_if (not (one_of effect_classes request.effect_class)) (safe_stop Code.unknown_effect)
  refuse_if (not (request.effect_class == expected.effect)) (safe_stop Code.effect_mismatch)
  refuse_if (not (same_set request.declared_permissions expected.permissions))
      (safe_stop Code.permission_mismatch)
  good (allow request)
