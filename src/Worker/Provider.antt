-- ===== src/Worker/Provider.antt =====
-- `ProviderIdentity` of src/zworkbench/worker_contract.py.
use zworkbench.Common.{String, Bool, not, ◌&&◌, Option, none, some, List, [], ◌∷◌}
use zworkbench.Json.{Value, text, obj, Fields, end, field, get}
use zworkbench.Worker.Base.{
  Code, refused, Checked, good, ◌>>=◌, ◌>>◌, refuse_if, mapping, text_at, has_unknown, has_missing,
  is_missing, reject_secrets,
}

pub record ProviderIdentity : Type 0 where
  pub provider : String
  pub model : String
  pub endpoint : String
  pub transport : String
  pub metadata : Fields

abbrev pub provider_names : List String
provider_names = "provider" ∷ "model" ∷ "endpoint" ∷ "transport" ∷ []

-- `ProviderIdentity.to_dict`
abbrev pub provider_to_dict : ProviderIdentity → Value
provider_to_dict p = obj (
    field "provider" (text p.provider) (
      field "model" (text p.model) (
        field "endpoint" (text p.endpoint)
          (field "transport" (text p.transport) (field "metadata" (obj p.metadata) end)))))

-- `data.get("metadata", {})`
abbrev pub metadata_or_empty : Option Value → Value
metadata_or_empty none = obj end
metadata_or_empty (some v) = v

-- `ProviderIdentity.from_dict`, with its `__post_init__`
unfoldable pub provider_from_dict : Value → Checked ProviderIdentity
provider_from_dict value = do
  fs ← mapping value
  refuse_if (has_missing provider_names fs) (refused Code.provider_identity_incomplete)
  refuse_if (has_unknown ("metadata" ∷ provider_names) fs)
      (refused Code.unknown_provider_identity_field)
  provider ← text_at "provider" fs
  model ← text_at "model" fs
  endpoint ← text_at "endpoint" fs
  transport ← text_at "transport" fs
  metadata ← mapping (metadata_or_empty (get "metadata" fs))
  reject_secrets metadata
  good (record {
    provider = provider;
    model = model;
    endpoint = endpoint;
    transport = transport;
    metadata = metadata;
  })

-- `ProviderIdentity.is_complete`
unfoldable pub provider_is_complete : ProviderIdentity → Bool
provider_is_complete p =
    not (is_missing p.provider)
    && (not (is_missing p.model) && (not (is_missing p.endpoint) && not (is_missing p.transport)))
