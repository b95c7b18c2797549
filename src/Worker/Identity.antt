-- ===== src/Worker/Identity.antt =====
-- `IdentityChain` of src/zworkbench/worker_contract.py.
pub mod RoundTrip
use zworkbench.Common.{String, Bool, true, false, not, ◌&&◌, ◌||◌, List, [], ◌∷◌, if◌then◌else◌}
use zworkbench.Common.Text.{is_blank}
use zworkbench.Json.{Value, text, obj, Fields, end, field}
use zworkbench.Worker.Base.{
  Code, Failure, refused, Checked, good, bad, ◌>>=◌, ◌>>◌, refuse_if, mapping, text_at, has_unknown,
  has_missing, is_missing, names_where,
}

pub record IdentityChain : Type 0 where
  pub parent_run_id : String
  pub child_run_id : String
  pub attempt_id : String
  pub dsh_session_id : String
  pub dsh_turn_id : String
  pub worker_run_id : String
  pub codex_thread_id : String
  pub codex_turn_id : String
  pub event_id : String
  pub artifact_id : String

-- `FIELD_NAMES`
abbrev pub identity_names : List String
identity_names =
    "parent_run_id" ∷ "child_run_id" ∷ "attempt_id" ∷ "dsh_session_id" ∷ "dsh_turn_id"
    ∷ "worker_run_id" ∷ "codex_thread_id" ∷ "codex_turn_id" ∷ "event_id" ∷ "artifact_id" ∷ []

-- `IdentityChain.to_dict`
abbrev pub identity_to_dict : IdentityChain → Value
identity_to_dict c = obj (
    field "parent_run_id" (text c.parent_run_id) (
      field "child_run_id" (text c.child_run_id) (
        field "attempt_id" (text c.attempt_id) (
          field "dsh_session_id" (text c.dsh_session_id) (
            field "dsh_turn_id" (text c.dsh_turn_id) (
              field "worker_run_id" (text c.worker_run_id) (
                field "codex_thread_id" (text c.codex_thread_id) (
                  field "codex_turn_id" (text c.codex_turn_id) (
                    field "event_id" (text c.event_id)
                      (field "artifact_id" (text c.artifact_id) end))))))))))

-- `IdentityChain.from_dict`. The texts are checked by `__post_init__`.
unfoldable pub identity_from_dict : Value → Checked IdentityChain
identity_from_dict value = do
  fs ← mapping value
  refuse_if (has_unknown identity_names fs) (refused Code.unknown_identity_field)
  refuse_if (has_missing identity_names fs) (refused Code.identity_shape_incomplete)
  parent_run_id ← text_at "parent_run_id" fs
  child_run_id ← text_at "child_run_id" fs
  attempt_id ← text_at "attempt_id" fs
  dsh_session_id ← text_at "dsh_session_id" fs
  dsh_turn_id ← text_at "dsh_turn_id" fs
  worker_run_id ← text_at "worker_run_id" fs
  codex_thread_id ← text_at "codex_thread_id" fs
  codex_turn_id ← text_at "codex_turn_id" fs
  event_id ← text_at "event_id" fs
  artifact_id ← text_at "artifact_id" fs
  good (record {
    parent_run_id = parent_run_id;
    child_run_id = child_run_id;
    attempt_id = attempt_id;
    dsh_session_id = dsh_session_id;
    dsh_turn_id = dsh_turn_id;
    worker_run_id = worker_run_id;
    codex_thread_id = codex_thread_id;
    codex_turn_id = codex_turn_id;
    event_id = event_id;
    artifact_id = artifact_id;
  })

-- The fields with their names, in the order of `FIELD_NAMES`.
abbrev pub required_fields : IdentityChain → List (String × String)
required_fields c =
    ("parent_run_id", c.parent_run_id)
    ∷ ("child_run_id", c.child_run_id)
    ∷ ("attempt_id", c.attempt_id)
    ∷ ("dsh_session_id", c.dsh_session_id)
    ∷ ("dsh_turn_id", c.dsh_turn_id)
    ∷ ("worker_run_id", c.worker_run_id)
    ∷ ("event_id", c.event_id)
    ∷ ("artifact_id", c.artifact_id)
    ∷ []

abbrev pub conditional_fields : IdentityChain → List (String × String)
conditional_fields c =
    ("codex_thread_id", c.codex_thread_id) ∷ ("codex_turn_id", c.codex_turn_id) ∷ []

-- The names of the fields that are missing.
abbrev pub missing_of : List (String × String) → List String
missing_of fields = names_where is_missing fields

-- The names of the fields that are there.
abbrev pub present_of : List (String × String) → List String
present_of fields = names_where (λ value. not (is_missing value)) fields

unfoldable pub missing_required_fields : IdentityChain → List String
missing_required_fields c = missing_of (required_fields c)

unfoldable pub missing_conditional_fields : IdentityChain → List String
missing_conditional_fields c = missing_of (conditional_fields c)

unfoldable pub fabricated_codex_fields : IdentityChain → List String
fabricated_codex_fields c = present_of (conditional_fields c)

abbrev pub is_none : List String → Bool
is_none [] = true
is_none (n ∷ ns) = false

-- `is_complete_for`
unfoldable pub is_complete_for : Bool → IdentityChain → Bool
unfolding missing_required_fields missing_conditional_fields
is_complete_for requires_codex c =
    is_none (missing_required_fields c)
    && (not requires_codex || is_none (missing_conditional_fields c))

-- `completion_level`
unfoldable pub completion_level : Bool → IdentityChain → String
unfolding is_complete_for missing_conditional_fields
completion_level requires_codex c =
    if not (is_complete_for requires_codex c)
    then "incomplete"
    else if is_none (missing_conditional_fields c)
    then "complete"
    else "complete_with_declared_unknown"

-- The fields in the order of `FIELD_NAMES`, of which `missing_fields` and `is_complete` speak.
abbrev pub identity_fields : IdentityChain → List (String × String)
identity_fields c =
    ("parent_run_id", c.parent_run_id)
    ∷ ("child_run_id", c.child_run_id)
    ∷ ("attempt_id", c.attempt_id)
    ∷ ("dsh_session_id", c.dsh_session_id)
    ∷ ("dsh_turn_id", c.dsh_turn_id)
    ∷ ("worker_run_id", c.worker_run_id)
    ∷ ("codex_thread_id", c.codex_thread_id)
    ∷ ("codex_turn_id", c.codex_turn_id)
    ∷ ("event_id", c.event_id)
    ∷ ("artifact_id", c.artifact_id)
    ∷ []

unfoldable pub missing_fields : IdentityChain → List String
missing_fields c = missing_of (identity_fields c)

-- `IdentityChain.is_complete`
unfoldable pub is_complete : IdentityChain → Bool
unfolding missing_fields
is_complete c = is_none (missing_fields c)
