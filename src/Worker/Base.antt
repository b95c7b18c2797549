-- ===== src/Worker/Base.antt =====
-- What the messages of src/zworkbench/worker_contract.py share: results with an error code, the
-- reading of a JSON object, and `_reject_secrets`. The values are those that `json.loads` yields, so
-- that `_json_value` accepts each of them.
use zworkbench.Common.{
  String, Bool, true, false, not, ◌&&◌, ◌||◌, Option, none, some, List, [], ◌∷◌, ◌==◌,
  if◌then◌else◌,
}
use zworkbench.Common.Text.{is_blank, split}
use zworkbench.Json.{Value, text, arr, obj, Items, nil, cons, Fields, end, field, get}
use zworkbench.Credentials.{normalized, any_same, any_suffix, any_part, sensitive, safe_suffixes}

-- The codes of `WorkerContractError`.
pub data Code : Type 0 where
  invalid_text invalid_object credential_value_forbidden : Code
  unknown_identity_field identity_shape_incomplete : Code
  provider_identity_incomplete unknown_provider_identity_field : Code
  component_identity_shape_invalid : Code
  duplicate_permission capability_request_shape_invalid invalid_permissions : Code
  unsupported_schema unknown_wire_message unknown_replay_mode : Code
  capability_request_required capability_request_unexpected : Code
  unknown_wire_field envelope_shape_incomplete invalid_json : Code
  codex_identity_fabricated capability_message_required replay_execution_forbidden : Code
  capability_identity_incomplete unknown_capability unknown_effect effect_mismatch : Code
  permission_mismatch : Code

-- `WorkerContractError`, `SafeStopRequired`, `CompletionBlocked` with what is missing, and Python's
-- TypeError for a value that cannot be hashed.
pub data Failure : Type 0 where
  refused : Code → Failure
  safe_stop : Code → Failure
  blocked : List String → Failure
  unhashable : Failure

pub data Checked (A : Type 0) : Type 0 where
  good : A → Checked A
  bad : Failure → Checked A

module _ {A B : Type 0} where
  infixl 5 ◌>>=◌ ◌>>◌
  unfoldable pub ◌>>=◌ : Checked A → (A → Checked B) → Checked B
  good a >>= f = f a
  bad e >>= f = bad e

  unfoldable pub ◌>>◌ : Checked A → Checked B → Checked B
  good a >> n = n
  bad e >> n = bad e

-- if test: raise
abbrev pub refuse_if : Bool → Failure → Checked (Unit {0})
refuse_if true e = bad e
refuse_if false e = good tt

-- `_text`
unfoldable pub checked_text : Value → Checked String
checked_text (text s) = if is_blank s then bad (refused Code.invalid_text) else good s
checked_text _ = bad (refused Code.invalid_text)

-- `_mapping`: the keys of a JSON object are strings.
unfoldable pub mapping : Value → Checked Fields
mapping (obj fs) = good fs
mapping _ = bad (refused Code.invalid_object)

-- A member that is known to be there. `data[key]` of a key that is not is a KeyError, which no caller
-- reaches.
abbrev pub member_or : Checked String → Option Value → Checked String
member_or other none = other
member_or other (some v) = checked_text v

unfoldable pub text_at : String → Fields → Checked String
unfolding checked_text get
text_at k fs = member_or (bad (refused Code.invalid_text)) (get k fs)

abbrev pub has_key : String → Fields → Bool
has_key k end = false
has_key k (field j v fs) = j == k || has_key k fs

abbrev pub one_of : List String → String → Bool
one_of [] s = false
one_of (x ∷ xs) s = x == s || one_of xs s

-- `set(data) - set(names)` is not empty.
unfoldable pub has_unknown : List String → Fields → Bool
has_unknown names end = false
has_unknown names (field k v fs) = not (one_of names k) || has_unknown names fs

-- `set(names) - set(data)` is not empty.
unfoldable pub has_missing : List String → Fields → Bool
has_missing [] fs = false
has_missing (n ∷ ns) fs = not (has_key n fs) || has_missing ns fs

-- `UNKNOWN`
abbrev pub unknown_text : String
unknown_text = "unknown"

-- `_is_missing`, of a string
unfoldable pub is_missing : String → Bool
is_missing s = s == unknown_text || is_blank s

-- `is_raw_credential_name`
unfoldable pub raw_name : String → Bool
unfolding normalized any_same any_suffix any_part split
raw_name k =
    let n = normalized k in
    not (any_suffix safe_suffixes n) && (any_same sensitive n || any_part (split b'_' n))

-- Whether `visit` of `_reject_secrets` raises.
unfoldable mutual
  unfolding raw_name

  pub secret_named : Value → Bool
  secret_named (obj fs) = secret_named_fields fs
  secret_named (arr vs) = secret_named_items vs
  secret_named _ = false

  pub secret_named_items : Items → Bool
  secret_named_items nil = false
  secret_named_items (cons v vs) = secret_named v || secret_named_items vs

  pub secret_named_fields : Fields → Bool
  secret_named_fields end = false
  secret_named_fields (field k v fs) = raw_name k || secret_named v || secret_named_fields fs

-- `_reject_secrets`
unfoldable pub reject_secrets : Fields → Checked (Unit {0})
unfolding secret_named
reject_secrets fs = refuse_if (secret_named (obj fs)) (refused Code.credential_value_forbidden)

-- The names of the fields whose text has `p`, in order.
unfoldable pub names_where : (String → Bool) → List (String × String) → List String
names_where p [] = []
names_where p ((name, value) ∷ rest) =
    let others = names_where p rest in if p value then name ∷ others else others
