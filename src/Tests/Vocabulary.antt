-- ===== src/Tests/Vocabulary.antt =====
-- The vocabulary of providers (src/zworkbench/provider_vocabulary.py) at its names, and the theorem
-- at one of them.
use zworkbench.Common.{◌≡◌, refl, true, false}
use zworkbench.Json.{text, null}
use zworkbench.Providers.{
  network_egress, loopback_only, classify_provider_transport, resolve_model_provider, entry_of,
  transport_of, backend_of, is_known_provider,
}
use zworkbench.Providers.Transport.{expected_transport, classify-resolve}

ark_authorized : classify_provider_transport (text "ark") true ≡ network_egress
unfolding classify_provider_transport entry_of transport_of
ark_authorized = refl

ark_refused : classify_provider_transport (text "ark") false ≡ loopback_only
unfolding classify_provider_transport entry_of transport_of
ark_refused = refl

ark_backend : resolve_model_provider (text "ark") ≡ "custom"
unfolding resolve_model_provider entry_of backend_of
ark_backend = refl

unnamed_backend : resolve_model_provider null ≡ "ollama"
unfolding resolve_model_provider
unnamed_backend = refl

unknown_name : is_known_provider "openai" ≡ false
unfolding is_known_provider
unknown_name = refl

classify-resolve_example :
    classify_provider_transport (text "ark") true
    ≡ expected_transport (resolve_model_provider (text "ark")) true
classify-resolve_example = classify-resolve (text "ark") true
