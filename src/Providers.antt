-- ===== src/Providers.antt =====
-- The vocabulary of providers, src/zworkbench/provider_vocabulary.py, from which the adapters and the
-- command line take a provider's transport and its backend. A provider's name is a JSON value, as the
-- identity of a run holds it.
pub mod Transport
use zworkbench.Common.{
  String, Bool, true, false, not, ◌&&◌, Option, none, some, List, [], ◌∷◌, ◌==◌, if◌then◌else◌,
}
use zworkbench.Common.Tables.{find, exists}
use zworkbench.Json.{Value, text}

-- `TRANSPORT_LOOPBACK_ONLY` and `TRANSPORT_NETWORK_EGRESS`
abbrev pub loopback_only : String
loopback_only = "loopback-only"

abbrev pub network_egress : String
network_egress = "network-egress"

-- `DEFAULT_MODEL_PROVIDER`
abbrev pub default_model_provider : String
default_model_provider = "ollama"

-- `ProviderVocabEntry`
pub record ProviderEntry : Type 0 where
  pub provider : String
  pub model_provider : String
  pub transport : String
  pub note : String

-- `PROVIDER_VOCABULARY`: each entry stands under its own `provider`.
abbrev pub vocabulary : List ProviderEntry
vocabulary =
    record {
      provider = "fake-loopback";
      model_provider = "ollama";
      transport = loopback_only;
      note = "built-in loopback fixture used by tests and dry runs";
    }
    ∷ record {
      provider = "ollama";
      model_provider = "ollama";
      transport = loopback_only;
      note = "default adapter model_provider for the local ollama server";
    }
    ∷ record {
      provider = "ark";
      model_provider = "custom";
      transport = network_egress;
      note = "remote provider; only admissible via an explicit authorized profile";
    }
    ∷ record {
      provider = "custom";
      model_provider = "custom";
      transport = network_egress;
      note = "generic remote provider reachable only via profile";
    }
    ∷ []

unfoldable pub entry_of : String → Option ProviderEntry
entry_of name = find (λ e. e.provider == name) vocabulary

unfoldable pub transport_of : Option ProviderEntry → Bool → String
transport_of none authorized = loopback_only
transport_of (some e) authorized =
    if e.transport == network_egress && not authorized then loopback_only else e.transport

-- `classify_provider_transport`
unfoldable pub classify_provider_transport : Value → Bool → String
classify_provider_transport (text name) authorized =
    if name == "" then loopback_only else transport_of (entry_of name) authorized
classify_provider_transport _ authorized = loopback_only

unfoldable pub backend_of : Option ProviderEntry → String
backend_of none = default_model_provider
backend_of (some e) = e.model_provider

-- `resolve_model_provider`
unfoldable pub resolve_model_provider : Value → String
resolve_model_provider (text name) =
    if name == "" then default_model_provider else backend_of (entry_of name)
resolve_model_provider _ = default_model_provider

-- `is_known_provider`
unfoldable pub is_known_provider : String → Bool
is_known_provider name = exists (λ e. e.provider == name) vocabulary
