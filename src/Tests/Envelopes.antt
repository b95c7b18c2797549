-- ===== src/Tests/Envelopes.antt =====
-- Messages of a Worker (src/zworkbench/worker_contract.py), and the theorems at them.
use mathlib.Core.Bool.{true≢false}
use zworkbench.Worker.Completion.{validate_worker_completion}
use zworkbench.Worker.Identity.{IdentityChain}
use zworkbench.Worker.Facade.{allow, default_effects, authorize}
use zworkbench.Worker.Envelope.Accepted.{envelope_accepted}
use zworkbench.Worker.Capability.{CapabilityRequest, repeats}
use zworkbench.Worker.Facade.Authorized.{authorize-↔, Grounds, NamedOnce}
use zworkbench.Worker.Provider.{ProviderIdentity}
use zworkbench.Json.{field, text, end, arr, nil}
use zworkbench.Common.{
  ◌==◌, false, ◌≢◌, ◌∙◌, eq_iff, sym, String, [], some, ◌≡◌, none, ◌∷◌, refl, ◌↔◌,
}
use zworkbench.Worker.Completion.Layers.{CompletionAllowed, validate_worker_completion-↔}
use zworkbench.Common.Text.{ends_with, is_blank}
use zworkbench.Worker.Envelope.{
  envelope_to_dict, envelope_from_dict, known_text, WorkerEnvelope, message_types,
}
use zworkbench.Worker.Envelope.RoundTrip.{EnvelopeValid, envelope_from_dict-to_dict}
use zworkbench.Worker.Component.{ComponentIdentity}
use zworkbench.Worker.Base.{
  ◌>>◌, ◌>>=◌, names_where, is_missing, unhashable, safe_stop, Code, good, secret_named, bad,
  refused,
}

abbrev chain : IdentityChain
chain = record {
  parent_run_id = "p";
  child_run_id = "c";
  attempt_id = "a";
  dsh_session_id = "s";
  dsh_turn_id = "t";
  worker_run_id = "w";
  codex_thread_id = "unknown";
  codex_turn_id = "unknown";
  event_id = "e";
  artifact_id = "f";
}

abbrev codex_chain : IdentityChain
codex_chain = record chain { codex_thread_id = "thread"; codex_turn_id = "turn" }

abbrev route : ProviderIdentity
route = record {
  provider = "local";
  model = "m";
  endpoint = "loopback";
  transport = "stdio";
  metadata = field "token_digest" (text "d") end;
}

abbrev part : ComponentIdentity
part = record { name = "fixture"; version = "1"; digest = "d"; source = "repository" }

abbrev reading : CapabilityRequest
reading = record {
  request_id = "q";
  capability = "workspace.read";
  operation = "read";
  resource = "file";
  effect_class = "none";
  declared_permissions = "workspace.read" ∷ [];
  arguments = end;
}

abbrev asking : WorkerEnvelope
asking = record {
  message_type = "capability.request";
  identity = codex_chain;
  provider_identity = route;
  replay_mode = "normal";
  policy_digest = "p";
  environment_digest = "e";
  workspace_digest = "w";
  worker_artifact_identity = part;
  worker_schema_identity = part;
  capability_request = some reading;
  payload = end;
}

abbrev finished : WorkerEnvelope
finished = record {
  message_type = "result";
  identity = chain;
  provider_identity = route;
  replay_mode = "normal";
  policy_digest = "p";
  environment_digest = "e";
  workspace_digest = "w";
  worker_artifact_identity = part;
  worker_schema_identity = part;
  capability_request = none;
  payload = field "status" (text "completed") end;
}

asking-EnvelopeValid : EnvelopeValid asking
unfolding is_blank secret_named repeats ends_with
asking-EnvelopeValid = (
  refl,
  (refl, (refl, (refl, (refl, (refl, (refl, (refl, (refl, (refl, (refl, tt)))))))))),
  (refl, refl, refl, refl, refl),
  refl,
  refl,
  refl,
  refl,
  (refl, refl, refl, refl),
  (refl, refl, refl, refl),
  (refl, (refl, refl, refl, refl, refl, (refl, tt), refl, refl)),
  refl,
)

envelope_from_dict-to_dict_example : envelope_from_dict (envelope_to_dict asking) ≡ good asking
envelope_from_dict-to_dict_example = envelope_from_dict-to_dict asking asking-EnvelopeValid

envelope_accepted_example : EnvelopeValid asking
envelope_accepted_example =
    envelope_accepted (envelope_to_dict asking) asking
      (envelope_from_dict-to_dict asking asking-EnvelopeValid)

finished_completes : validate_worker_completion finished ≡ good tt
unfolding validate_worker_completion ◌>>◌ names_where is_missing is_blank
finished_completes = refl

-- A Worker that does not declare itself to be Codex, with a Codex thread.
fabricated_refused :
    validate_worker_completion (record finished { identity = codex_chain })
    ≡ bad (refused Code.codex_identity_fabricated)
unfolding validate_worker_completion ◌>>◌ names_where is_missing is_blank
fabricated_refused = refl

validate_worker_completion-↔_example :
    (validate_worker_completion finished ≡ good tt) ↔ CompletionAllowed finished
validate_worker_completion-↔_example = validate_worker_completion-↔ finished

asking_allowed : authorize default_effects asking ≡ good (allow reading)
unfolding authorize ◌>>=◌ ◌>>◌ names_where is_missing is_blank
asking_allowed = refl

replay_refused :
    authorize default_effects (record asking { replay_mode = "live_replay" })
    ≡ bad (safe_stop Code.replay_execution_forbidden)
unfolding authorize ◌>>=◌ ◌>>◌ names_where is_missing is_blank
replay_refused = refl

differ : (a b : String) → (a == b) ≡ false → a ≢ b
differ a b h same = true≢false (sym ((eq_iff _ _).1 same) ∙ h)

default_effects-NamedOnce : NamedOnce default_effects
default_effects-NamedOnce = (
  (differ _ _ refl, (differ _ _ refl, (differ _ _ refl, (differ _ _ refl, tt)))),
  (
    (differ _ _ refl, (differ _ _ refl, (differ _ _ refl, tt))),
    ((differ _ _ refl, (differ _ _ refl, tt)), ((differ _ _ refl, tt), (tt, tt))),
  ),
)

authorize-↔_example :
    (authorize default_effects asking ≡ good (allow reading))
    ↔ Grounds default_effects asking (allow reading)
authorize-↔_example = authorize-↔ default_effects asking (allow reading) default_effects-NamedOnce

-- A policy with an effect class that is not known.
unknown_effect_refused :
    authorize
      (record { capability = "workspace.read"; effect = "none "; permissions = [] } ∷ [])
      (record asking { capability_request = some (record reading { effect_class = "none " }) })
    ≡ bad (safe_stop Code.unknown_effect)
unfolding authorize ◌>>=◌ ◌>>◌ names_where is_missing is_blank
unknown_effect_refused = refl

-- The type of a message that is a list has no hash.
list_type_unhashable :
    known_text message_types (safe_stop Code.unknown_wire_message) (arr nil) ≡ bad unhashable
unfolding known_text
list_type_unhashable = refl
