-- ===== src/Worker/Envelope/RoundTrip.antt =====
-- A valid envelope is read back from its dictionary (src/zworkbench/worker_contract.py).

use zworkbench.Worker.Provider.{provider_to_dict, provider_from_dict, ProviderIdentity}
use zworkbench.Worker.Capability.{
  checked_texts, request_to_dict, request_from_dict, texts, repeats, CapabilityRequest,
}
use zworkbench.Worker.Envelope.{
  replay_modes, WorkerEnvelope, message_types, known_text, envelope_from_dict, envelope_to_dict,
  optional_from_dict, check_request, optional_request, field_or_null,
}
use zworkbench.Worker.Component.{component_to_dict, component_from_dict, ComponentIdentity}
use zworkbench.Worker.Identity.RoundTrip.{
  IdentityValid, checked_text-good, identity_from_dict-to_dict,
}
use zworkbench.Common.{String, ◌≡◌, refl, true, false, Option, none, some, List, [], ◌∷◌, ◌==◌}
use zworkbench.Common.Tables.{All}
use zworkbench.Common.Text.{is_blank}
use zworkbench.Json.{obj, get, text}
use zworkbench.Worker.Base.{
  ◌>>=◌, ◌>>◌, good, text_at, mapping, has_unknown, has_missing, one_of, secret_named,
  reject_secrets, Failure, refused, Code, safe_stop,
}

-- What `__post_init__` has checked.
abbrev pub ProviderValid : ProviderIdentity → Type 0
ProviderValid p =
    (is_blank p.provider ≡ false)
    × (is_blank p.model ≡ false)
    × (is_blank p.endpoint ≡ false)
    × (is_blank p.transport ≡ false)
    × (secret_named (obj p.metadata) ≡ false)

abbrev pub ComponentValid : ComponentIdentity → Type 0
ComponentValid c =
    (is_blank c.name ≡ false)
    × (is_blank c.version ≡ false)
    × (is_blank c.digest ≡ false)
    × (is_blank c.source ≡ false)

abbrev pub RequestValid : CapabilityRequest → Type 0
RequestValid r =
    (is_blank r.request_id ≡ false)
    × (is_blank r.capability ≡ false)
    × (is_blank r.operation ≡ false)
    × (is_blank r.resource ≡ false)
    × (is_blank r.effect_class ≡ false)
    × All (λ s. is_blank s ≡ false) r.declared_permissions
    × (repeats r.declared_permissions ≡ false)
    × (secret_named (obj r.arguments) ≡ false)

-- A request is there just where the type of the message asks for one.
abbrev pub RequestFits : String → Option CapabilityRequest → Type 0
RequestFits message_type none = (message_type == "capability.request") ≡ false
RequestFits message_type (some r) = ((message_type == "capability.request") ≡ true) × RequestValid r

abbrev pub EnvelopeValid : WorkerEnvelope → Type 0
EnvelopeValid e =
    (one_of message_types e.message_type ≡ true)
    × IdentityValid e.identity
    × ProviderValid e.provider_identity
    × (one_of replay_modes e.replay_mode ≡ true)
    × (is_blank e.policy_digest ≡ false)
    × (is_blank e.environment_digest ≡ false)
    × (is_blank e.workspace_digest ≡ false)
    × ComponentValid e.worker_artifact_identity
    × ComponentValid e.worker_schema_identity
    × RequestFits e.message_type e.capability_request
    × (secret_named (obj e.payload) ≡ false)

provider_from_dict-to_dict :
    (p : ProviderIdentity) → ProviderValid p → provider_from_dict (provider_to_dict p) ≡ good p
unfolding ◌>>=◌ ◌>>◌ provider_from_dict text_at mapping has_unknown has_missing get reject_secrets
provider_from_dict-to_dict p (a, b, c, d, e) = simp (a, b, c, d, e)

component_from_dict-to_dict :
    (c : ComponentIdentity) → ComponentValid c → component_from_dict (component_to_dict c) ≡ good c
unfolding ◌>>=◌ ◌>>◌ component_from_dict text_at mapping has_unknown has_missing get
component_from_dict-to_dict c (a, b, d, e) = simp (a, b, d, e)

checked_texts-texts :
    (ss : List String) → All (λ s. is_blank s ≡ false) ss → checked_texts (texts ss) ≡ good ss
unfolding ◌>>=◌ ◌>>◌ checked_texts texts
checked_texts-texts [] h = refl
checked_texts-texts (s ∷ ss) (h, k) = simp (h, checked_texts-texts ss k)

request_from_dict-to_dict :
    (r : CapabilityRequest) → RequestValid r → request_from_dict (request_to_dict r) ≡ good r
unfolding ◌>>=◌ ◌>>◌ request_from_dict text_at mapping has_unknown has_missing get reject_secrets
request_from_dict-to_dict r (a, b, c, d, e, f, g, h) =
    simp (a, b, c, d, e, checked_texts-texts r.declared_permissions f, g, h)

optional_from_dict-to_dict :
    (message_type : String) (request : Option CapabilityRequest)
    → RequestFits message_type request
    → optional_from_dict (optional_request request) ≡ good request
unfolding ◌>>=◌ ◌>>◌ optional_from_dict
optional_from_dict-to_dict message_type none h = refl
optional_from_dict-to_dict message_type (some r) (h, valid) =
    rw (request_from_dict-to_dict r valid) refl

check_request-fits :
    (message_type : String) (request : Option CapabilityRequest)
    → RequestFits message_type request
    → check_request message_type request ≡ good tt
unfolding ◌>>◌ check_request
check_request-fits message_type none h = rw h
check_request-fits message_type (some r) (h, valid) = rw h

known_text-good :
    (names : List String) (e : Failure) (s : String)
    → one_of names s ≡ true
    → known_text names e (text s) ≡ good s
unfolding known_text
known_text-good names e s h = rw h

-- An envelope that its checks accept is read back from its dictionary, field for field.
pub envelope_from_dict-to_dict :
    (e : WorkerEnvelope) → EnvelopeValid e → envelope_from_dict (envelope_to_dict e) ≡ good e
unfolding ◌>>=◌ ◌>>◌ envelope_from_dict text_at mapping has_unknown has_missing get field_or_null
    reject_secrets
envelope_from_dict-to_dict e
      (kind, identity, route, mode, policy, env, work, artifact, schema, request, clean) =
    simp (
      identity_from_dict-to_dict e.identity identity,
      provider_from_dict-to_dict e.provider_identity route,
      component_from_dict-to_dict e.worker_artifact_identity artifact,
      component_from_dict-to_dict e.worker_schema_identity schema,
      optional_from_dict-to_dict e.message_type e.capability_request request,
      known_text-good message_types (safe_stop Code.unknown_wire_message) e.message_type kind,
      known_text-good replay_modes (refused Code.unknown_replay_mode) e.replay_mode mode,
      checked_text-good e.policy_digest policy,
      checked_text-good e.environment_digest env,
      checked_text-good e.workspace_digest work,
      clean,
      check_request-fits e.message_type e.capability_request request,
    )
