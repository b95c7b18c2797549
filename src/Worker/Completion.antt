-- ===== src/Worker/Completion.antt =====
-- Worker completion of src/zworkbench/worker_contract.py: `codex_identity_required`,
-- `missing_completion_fields` and `validate_worker_completion`.
pub mod Layers
use zworkbench.Common.{
  String, Bool, true, false, not, ◌&&◌, Option, none, some, List, [], ◌∷◌, ◌++◌, ◌==◌,
  if◌then◌else◌,
}
use zworkbench.Common.Text.{joined}
use zworkbench.Json.{Value, text, Fields, get}
use zworkbench.Worker.Base.{
  Code, Failure, refused, blocked, Checked, ◌>>◌, refuse_if, one_of, unknown_text, names_where,
}
use zworkbench.Worker.Identity.{
  missing_required_fields, missing_conditional_fields, fabricated_codex_fields, is_none,
}
use zworkbench.Worker.Provider.{ProviderIdentity, provider_is_complete}
use zworkbench.Worker.Component.{ComponentIdentity, component_missing_fields}
use zworkbench.Worker.Envelope.{WorkerEnvelope}

-- `CODEX_WORKER_SCHEMA_NAMES`
abbrev pub codex_schema_names : List String
codex_schema_names = "codex-app-server" ∷ []

unfoldable pub codex_identity_required : ComponentIdentity → Bool
codex_identity_required c = one_of codex_schema_names c.name

unfoldable pub prefixed : String → List String → List String
prefixed prefix [] = []
prefixed prefix (n ∷ ns) = joined prefix n ∷ prefixed prefix ns

abbrev pub is_unknown : String → Bool
is_unknown value = value == unknown_text

-- The names of the values that are `UNKNOWN`.
abbrev pub unknown_of : List (String × String) → List String
unknown_of fields = names_where is_unknown fields

abbrev pub provider_fields : ProviderIdentity → List (String × String)
provider_fields p =
    ("provider", p.provider)
    ∷ ("model", p.model)
    ∷ ("endpoint", p.endpoint)
    ∷ ("transport", p.transport)
    ∷ []

abbrev pub digest_fields : WorkerEnvelope → List (String × String)
digest_fields e =
    ("policy_digest", e.policy_digest)
    ∷ ("environment_digest", e.environment_digest)
    ∷ ("workspace_digest", e.workspace_digest)
    ∷ []

-- if not self.provider_identity.is_complete(): missing.extend(...)
unfoldable pub provider_gaps : ProviderIdentity → List String
unfolding provider_is_complete
provider_gaps p =
    if provider_is_complete p
    then []
    else prefixed "provider_identity." (unknown_of (provider_fields p))

unfoldable pub codex_gaps : WorkerEnvelope → List String
unfolding codex_identity_required missing_conditional_fields
codex_gaps e =
    if codex_identity_required e.worker_schema_identity
    then missing_conditional_fields e.identity
    else []

-- `WorkerEnvelope.missing_completion_fields`
unfoldable pub missing_completion_fields : WorkerEnvelope → List String
unfolding missing_required_fields codex_gaps component_missing_fields provider_gaps prefixed
missing_completion_fields e =
    missing_required_fields e.identity
    ++ (codex_gaps e
        ++ (prefixed "worker_artifact_identity."
              (component_missing_fields e.worker_artifact_identity)
            ++ (prefixed "worker_schema_identity."
                  (component_missing_fields e.worker_schema_identity)
                ++ (provider_gaps e.provider_identity ++ unknown_of (digest_fields e)))))

abbrev pub is_completed : Option Value → Bool
is_completed (some (text s)) = s == "completed"
is_completed _ = false

-- self.payload.get("status") == "completed"
unfoldable pub reports_completed : Fields → Bool
unfolding get
reports_completed payload = is_completed (get "status" payload)

-- `WorkerEnvelope.validate_worker_completion`
unfoldable pub validate_worker_completion : WorkerEnvelope → Checked (Unit {0})
unfolding reports_completed codex_identity_required fabricated_codex_fields
    missing_completion_fields
validate_worker_completion e = do
  refuse_if (not (e.message_type == "result")) (blocked ("message_type=result" ∷ []))
  refuse_if (not (reports_completed e.payload)) (blocked ("payload.status=completed" ∷ []))
  refuse_if
      (not (codex_identity_required e.worker_schema_identity)
        && not (is_none (fabricated_codex_fields e.identity)))
      (refused Code.codex_identity_fabricated)
  let missing = missing_completion_fields e
  refuse_if (not (is_none missing)) (blocked missing)
