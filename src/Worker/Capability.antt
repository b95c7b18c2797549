-- ===== src/Worker/Capability.antt =====
-- `CapabilityRequest` of src/zworkbench/worker_contract.py.
use zworkbench.Common.{String, Bool, false, ◌||◌, Option, none, some, List, [], ◌∷◌}
use zworkbench.Json.{Value, text, obj, arr, Items, nil, cons, Fields, end, field, get}
use zworkbench.Worker.Base.{
  Code, refused, Checked, good, bad, ◌>>=◌, ◌>>◌, refuse_if, mapping, text_at, checked_text,
  has_unknown, has_missing, one_of, reject_secrets,
}

pub record CapabilityRequest : Type 0 where
  pub request_id : String
  pub capability : String
  pub operation : String
  pub resource : String
  pub effect_class : String
  pub declared_permissions : List String
  pub arguments : Fields

abbrev pub request_names : List String
request_names =
    "request_id" ∷ "capability" ∷ "operation" ∷ "resource" ∷ "effect_class" ∷ "declared_permissions"
    ∷ "arguments" ∷ []

unfoldable pub texts : List String → Items
texts [] = nil
texts (s ∷ ss) = cons (text s) (texts ss)

-- `CapabilityRequest.to_dict`
abbrev pub request_to_dict : CapabilityRequest → Value
request_to_dict r = obj (
    field "request_id" (text r.request_id) (
      field "capability" (text r.capability) (
        field "operation" (text r.operation) (
          field "resource" (text r.resource) (
            field "effect_class" (text r.effect_class) (
              field "declared_permissions" (arr (texts r.declared_permissions))
                (field "arguments" (obj r.arguments) end)))))))

-- tuple(_text(item) for item in declared_permissions)
unfoldable pub checked_texts : Items → Checked (List String)
unfolding checked_text
checked_texts nil = good []
checked_texts (cons v vs) =
    let rest = checked_texts vs in checked_text v >>= λ s. rest >>= λ ss. good (s ∷ ss)

-- len(set(permissions)) != len(permissions)
unfoldable pub repeats : List String → Bool
repeats [] = false
repeats (s ∷ ss) = one_of ss s || repeats ss

-- `isinstance(data["declared_permissions"], list)`
abbrev pub array_or_refuse : Option Value → Checked Items
array_or_refuse (some (arr vs)) = good vs
array_or_refuse _ = bad (refused Code.invalid_permissions)

abbrev pub member_mapping : Option Value → Checked Fields
member_mapping none = bad (refused Code.invalid_object)
member_mapping (some v) = mapping v

-- `CapabilityRequest.from_dict`, with its `__post_init__`
unfoldable pub request_from_dict : Value → Checked CapabilityRequest
request_from_dict value = do
  fs ← mapping value
  refuse_if (has_missing request_names fs || has_unknown request_names fs)
      (refused Code.capability_request_shape_invalid)
  items ← array_or_refuse (get "declared_permissions" fs)
  request_id ← text_at "request_id" fs
  capability ← text_at "capability" fs
  operation ← text_at "operation" fs
  resource ← text_at "resource" fs
  effect_class ← text_at "effect_class" fs
  permissions ← checked_texts items
  refuse_if (repeats permissions) (refused Code.duplicate_permission)
  arguments ← member_mapping (get "arguments" fs)
  reject_secrets arguments
  good (record {
    request_id = request_id;
    capability = capability;
    operation = operation;
    resource = resource;
    effect_class = effect_class;
    declared_permissions = permissions;
    arguments = arguments;
  })
