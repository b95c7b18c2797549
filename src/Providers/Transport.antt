-- ===== src/Providers/Transport.antt =====
-- How the two tables of providers agree (src/zworkbench/provider_vocabulary.py).
use zworkbench.Common.{
  String, Bool, true, false, not, ◌&&◌, Option, none, some, ◌==◌, ◌≡◌, refl, if◌then◌else◌,
}
use zworkbench.Common.Tables.{All, All-find}
use zworkbench.Json.{Value, null, bool, int, literal, text, obj, arr}
use zworkbench.Providers.{
  loopback_only, network_egress, default_model_provider, ProviderEntry, vocabulary, entry_of,
  transport_of, classify_provider_transport, backend_of, resolve_model_provider,
}

-- The transport of a backend: the network for an authorized provider whose backend is not the
-- default one.
abbrev pub expected_transport : String → Bool → String
expected_transport backend authorized =
    if authorized && not (backend == default_model_provider) then network_egress else loopback_only

Consistent : ProviderEntry → Type 0
Consistent e =
    (authorized : Bool)
    → transport_of (some e) authorized ≡ expected_transport e.model_provider authorized

both-Consistent :
    (e : ProviderEntry)
    → transport_of (some e) true ≡ expected_transport e.model_provider true
    → transport_of (some e) false ≡ expected_transport e.model_provider false
    → Consistent e
unfolding Consistent
both-Consistent e h k true = h
both-Consistent e h k false = k

vocabulary-Consistent : All Consistent vocabulary
unfolding transport_of
vocabulary-Consistent = (
  both-Consistent _ refl refl,
  (both-Consistent _ refl refl, (both-Consistent _ refl refl, (both-Consistent _ refl refl, tt))),
)

unknown-Consistent :
    (authorized : Bool) → loopback_only ≡ expected_transport default_model_provider authorized
unknown-Consistent true = refl
unknown-Consistent false = refl

found-Consistent :
    (name : String) (o : Option ProviderEntry) (authorized : Bool)
    → entry_of name ≡ o
    → transport_of o authorized ≡ expected_transport (backend_of o) authorized
unfolding entry_of transport_of backend_of Consistent
found-Consistent name none authorized h = unknown-Consistent authorized
found-Consistent name (some e) authorized h =
    All-find Consistent (λ k. k.provider == name) vocabulary e h vocabulary-Consistent authorized

-- Whatever the name of a provider, its transport is the network exactly when it is authorized and its
-- backend is not the default one; of every other name, also of one that is empty, unknown or no
-- text, it is the loopback.
pub classify-resolve :
    (name : Value) (authorized : Bool)
    → classify_provider_transport name authorized
      ≡ expected_transport (resolve_model_provider name) authorized
unfolding classify_provider_transport resolve_model_provider
classify-resolve (text name) authorized = by_empty (name == "")
  where
    by_empty :
        (b : Bool)
        → (if b then loopback_only else transport_of (entry_of name) authorized)
          ≡ expected_transport
              (if b then default_model_provider else backend_of (entry_of name))
              authorized
    by_empty true = unknown-Consistent authorized
    by_empty false = found-Consistent name (entry_of name) authorized refl
classify-resolve null authorized = unknown-Consistent authorized
classify-resolve (bool b) authorized = unknown-Consistent authorized
classify-resolve (int n) authorized = unknown-Consistent authorized
classify-resolve (literal l) authorized = unknown-Consistent authorized
classify-resolve (obj fs) authorized = unknown-Consistent authorized
classify-resolve (arr is) authorized = unknown-Consistent authorized
