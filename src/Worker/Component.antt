-- ===== src/Worker/Component.antt =====
-- `ComponentIdentity` of src/zworkbench/worker_contract.py.
use zworkbench.Common.{String, ◌||◌, List, [], ◌∷◌}
use zworkbench.Json.{Value, text, obj, end, field}
use zworkbench.Worker.Base.{
  Code, refused, Checked, good, ◌>>=◌, ◌>>◌, refuse_if, mapping, text_at, has_unknown, has_missing,
}
use zworkbench.Worker.Identity.{missing_of}

pub record ComponentIdentity : Type 0 where
  pub name : String
  pub version : String
  pub digest : String
  pub source : String

abbrev pub component_names : List String
component_names = "name" ∷ "version" ∷ "digest" ∷ "source" ∷ []

-- `ComponentIdentity.to_dict`
abbrev pub component_to_dict : ComponentIdentity → Value
component_to_dict c = obj (
    field "name" (text c.name) (
      field "version" (text c.version)
        (field "digest" (text c.digest) (field "source" (text c.source) end))))

-- `ComponentIdentity.from_dict`
unfoldable pub component_from_dict : Value → Checked ComponentIdentity
component_from_dict value = do
  fs ← mapping value
  refuse_if (has_missing component_names fs || has_unknown component_names fs)
      (refused Code.component_identity_shape_invalid)
  name ← text_at "name" fs
  version ← text_at "version" fs
  digest ← text_at "digest" fs
  source ← text_at "source" fs
  good (record { name = name; version = version; digest = digest; source = source })

abbrev pub component_fields : ComponentIdentity → List (String × String)
component_fields c =
    ("name", c.name) ∷ ("version", c.version) ∷ ("digest", c.digest) ∷ ("source", c.source) ∷ []

-- `ComponentIdentity.missing_fields`
unfoldable pub component_missing_fields : ComponentIdentity → List String
component_missing_fields c = missing_of (component_fields c)
