-- ===== src/Worker/Envelope.antt =====
-- `WorkerEnvelope` of src/zworkbench/worker_contract.py. `json.loads` and `json.dumps` are parameters.
pub mod RoundTrip
pub mod Accepted
use zworkbench.Common.{
  String, Bool, true, false, not, ◌&&◌, ◌||◌, Option, none, some, List, [], ◌∷◌, ◌==◌, is_some,
  if◌then◌else◌,
}
use zworkbench.Json.{
  Value, null, bool, int, literal, text, obj, arr, Fields, end, field, get, canonical_json,
}
use zworkbench.Worker.Base.{
  Code, Failure, refused, safe_stop, unhashable, Checked, good, bad, ◌>>=◌, ◌>>◌, refuse_if,
  mapping, text_at, has_unknown, has_missing, one_of, reject_secrets,
}
use zworkbench.Worker.Identity.{IdentityChain, identity_to_dict, identity_from_dict}
use zworkbench.Worker.Provider.{ProviderIdentity, provider_to_dict, provider_from_dict}
use zworkbench.Worker.Component.{ComponentIdentity, component_to_dict, component_from_dict}
use zworkbench.Worker.Capability.{CapabilityRequest, request_to_dict, request_from_dict}

-- `WORKER_CONTRACT_SCHEMA`
abbrev pub contract_schema : String
contract_schema = "zworkbench.worker.v1"

-- `KNOWN_MESSAGE_TYPES`
abbrev pub message_types : List String
message_types =
    "handshake.request" ∷ "handshake.response" ∷ "capability.request" ∷ "capability.response"
    ∷ "event" ∷ "result" ∷ "cancel" ∷ "error" ∷ []

-- `REPLAY_MODES`
abbrev pub replay_modes : List String
replay_modes = "normal" ∷ "recorded_view" ∷ "simulated_replay" ∷ "live_replay" ∷ []

-- `WIRE_FIELDS`
abbrev pub wire_names : List String
wire_names =
    "schema" ∷ "message_type" ∷ "identity" ∷ "provider_identity" ∷ "replay_mode" ∷ "policy_digest"
    ∷ "environment_digest" ∷ "workspace_digest" ∷ "worker_artifact_identity"
    ∷ "worker_schema_identity" ∷ "capability_request" ∷ "payload" ∷ []

-- The schema of an envelope is always `WORKER_CONTRACT_SCHEMA`.
pub record WorkerEnvelope : Type 0 where
  pub message_type : String
  pub identity : IdentityChain
  pub provider_identity : ProviderIdentity
  pub replay_mode : String
  pub policy_digest : String
  pub environment_digest : String
  pub workspace_digest : String
  pub worker_artifact_identity : ComponentIdentity
  pub worker_schema_identity : ComponentIdentity
  pub capability_request : Option CapabilityRequest
  pub payload : Fields

abbrev pub optional_request : Option CapabilityRequest → Value
optional_request none = null
optional_request (some r) = request_to_dict r

-- `WorkerEnvelope.to_dict`
abbrev pub envelope_to_dict : WorkerEnvelope → Value
envelope_to_dict e = obj (
    field "schema" (text contract_schema) (
      field "message_type" (text e.message_type) (
        field "identity" (identity_to_dict e.identity) (
          field "provider_identity" (provider_to_dict e.provider_identity) (
            field "replay_mode" (text e.replay_mode) (
              field "policy_digest" (text e.policy_digest) (
                field "environment_digest" (text e.environment_digest) (
                  field "workspace_digest" (text e.workspace_digest) (
                    field "worker_artifact_identity" (component_to_dict e.worker_artifact_identity)
                      (field "worker_schema_identity" (component_to_dict e.worker_schema_identity) (
                        field "capability_request" (optional_request e.capability_request)
                          (field "payload" (obj e.payload) end))))))))))))

-- `data[key]`, for the keys that are known to be there
abbrev pub or_null : Option Value → Value
or_null none = null
or_null (some v) = v

unfoldable pub field_or_null : String → Fields → Value
unfolding get
field_or_null k fs = or_null (get k fs)

-- `self.schema != WORKER_CONTRACT_SCHEMA`
abbrev pub is_schema : Value → Bool
is_schema (text s) = s == contract_schema
is_schema _ = false

-- Membership in a frozenset of strings, for which a list or an object has no hash.
unfoldable pub known_text : List String → Failure → Value → Checked String
known_text names e (text s) = if one_of names s then good s else bad e
known_text names e (arr vs) = bad unhashable
known_text names e (obj fs) = bad unhashable
known_text names e _ = bad e

-- `None if capability_value is None else CapabilityRequest.from_dict(capability_value)`
unfoldable pub optional_from_dict : Value → Checked (Option CapabilityRequest)
optional_from_dict null = good none
optional_from_dict v = request_from_dict v >>= λ r. good (some r)

-- The last two tests of `__post_init__`
unfoldable pub check_request : String → Option CapabilityRequest → Checked (Unit {0})
check_request message_type request = do
  refuse_if (message_type == "capability.request" && not (is_some request))
      (refused Code.capability_request_required)
  refuse_if (not (message_type == "capability.request") && is_some request)
      (refused Code.capability_request_unexpected)

-- `WorkerEnvelope.from_dict`, with its `__post_init__`
unfoldable pub envelope_from_dict : Value → Checked WorkerEnvelope
envelope_from_dict value = do
  fs ← mapping value
  refuse_if (has_unknown wire_names fs) (safe_stop Code.unknown_wire_field)
  refuse_if (has_missing wire_names fs) (refused Code.envelope_shape_incomplete)
  identity ← identity_from_dict (field_or_null "identity" fs)
  provider_identity ← provider_from_dict (field_or_null "provider_identity" fs)
  artifact ← component_from_dict (field_or_null "worker_artifact_identity" fs)
  schema ← component_from_dict (field_or_null "worker_schema_identity" fs)
  request ← optional_from_dict (field_or_null "capability_request" fs)
  refuse_if (not (is_schema (field_or_null "schema" fs))) (safe_stop Code.unsupported_schema)
  message_type ←
      known_text message_types (safe_stop Code.unknown_wire_message)
        (field_or_null "message_type" fs)
  replay_mode ←
      known_text replay_modes (refused Code.unknown_replay_mode) (field_or_null "replay_mode" fs)
  policy_digest ← text_at "policy_digest" fs
  environment_digest ← text_at "environment_digest" fs
  workspace_digest ← text_at "workspace_digest" fs
  payload ← mapping (field_or_null "payload" fs)
  reject_secrets payload
  check_request message_type request
  good (record {
    message_type = message_type;
    identity = identity;
    provider_identity = provider_identity;
    replay_mode = replay_mode;
    policy_digest = policy_digest;
    environment_digest = environment_digest;
    workspace_digest = workspace_digest;
    worker_artifact_identity = artifact;
    worker_schema_identity = schema;
    capability_request = request;
    payload = payload;
  })

module _ (loads : String → Option Value) where
  -- `WorkerEnvelope.from_json`
  unfoldable pub envelope_from_json : String → Checked WorkerEnvelope
  envelope_from_json value = elim (loads value) [
    | none ↦ bad (refused Code.invalid_json)
    | some v ↦ envelope_from_dict v
  ]
