-- ===== src/Scan.antt =====
-- Credential shapes in values and texts, src/zworkbench/credential_scan.py. The values are those of
-- JSON, in which there are no tuples.
pub mod Clean
pub mod Owner
use Prim.Native.Char.{code}
use zworkbench.Common.{
  ℕ, String, Bool, true, false, not, ◌&&◌, ◌||◌, Option, none, some, List, [], ◌∷◌, is_some,
  if◌then◌else◌,
}
use zworkbench.Common.Text.{codes, is_alnum, is_prefix, joined}
use zworkbench.Json.{
  Value, null, bool, int, literal, text, arr, obj, Items, nil, cons, Fields, end, field,
}
use zworkbench.Credentials.{run_of, after, is_key_char, is_id_char}

-- The alternatives of `CREDENTIAL_SHAPED`: `ark-` and `sk-` with a key's characters, `AKIA` with an
-- identifier's.
pub data Shape : Type 0 where
  key_shape id_shape : Shape

unfoldable pub is_body : Shape → ℕ → Bool
unfolding is_key_char is_id_char
is_body key_shape c = is_key_char c
is_body id_shape c = is_id_char c

-- lead[class]{n,}
unfoldable pub begins : String → Shape → ℕ → List ℕ → Bool
unfolding is_prefix run_of after is_body
begins lead shape n t = is_prefix (codes lead) t && run_of (is_body shape) n (after (codes lead) t)

-- The alternative that matches at the front of a text.
unfoldable pub alternative_at : List ℕ → Option Shape
unfolding begins
alternative_at t =
    if begins "ark-" key_shape 8 t || begins "sk-" key_shape 12 t
    then some key_shape
    else if begins "AKIA" id_shape 12 t
    then some id_shape
    else none

-- With the lookbehind: the flag tells whether the character before is a letter or a digit.
unfoldable pub match_at : Bool → List ℕ → Option Shape
unfolding alternative_at
match_at b t = if b then none else alternative_at t

unfoldable pub search_shape : Bool → List ℕ → Bool
unfolding match_at is_alnum
search_shape b [] = false
search_shape b (c ∷ cs) = is_some (match_at b (c ∷ cs)) || search_shape (is_alnum c) cs

-- `contains_credential_shape`
unfoldable pub contains_credential_shape : String → Bool
unfolding search_shape
contains_credential_shape t = search_shape false (codes t)

-- How `sub` reads a text: it looks for a match, or it is inside one. Both know whether the character
-- before is a letter or a digit.
pub data Mode : Type 0 where
  looking : Bool → Mode
  inside : Shape → Bool → Mode

abbrev pub before : Mode → Bool
before (looking b) = b
before (inside shape b) = b

-- A match goes on as long as the characters are of its class, and those of its lead are.
unfoldable pub goes_on : Mode → ℕ → Option Shape
unfolding is_body
goes_on (looking b) c = none
goes_on (inside shape b) c = if is_body shape c then some shape else none

-- `CREDENTIAL_SHAPED.sub(REDACTED, text)`, from a point within the text
unfoldable pub redact_from : Mode → String → String
unfolding match_at goes_on is_alnum
redact_from mode String.[] = ""
redact_from mode (String.◌∷◌ c t) =
    let n = code c in
    elim (goes_on mode n) [
      | some shape ↦ redact_from (inside shape (is_alnum n)) t
      | none ↦ elim (match_at (before mode) (n ∷ codes t)) [
        | some shape ↦ joined "<redacted>" (redact_from (inside shape (is_alnum n)) t)
        | none ↦ String.◌∷◌ c (redact_from (looking (is_alnum n)) t)
      ]
    ]

-- `redact_text`
unfoldable pub redact_text : String → String
unfolding redact_from
redact_text t = redact_from (looking false) t

-- Whether `visit` of `reject_credential_shaped_values` raises.
unfoldable mutual
  unfolding contains_credential_shape

  pub credential_shaped : Value → Bool
  credential_shaped (obj fs) = credential_shaped_fields fs
  credential_shaped (arr vs) = credential_shaped_items vs
  credential_shaped (text t) = contains_credential_shape t
  credential_shaped _ = false

  pub credential_shaped_items : Items → Bool
  credential_shaped_items nil = false
  credential_shaped_items (cons v vs) = credential_shaped v || credential_shaped_items vs

  pub credential_shaped_fields : Fields → Bool
  credential_shaped_fields end = false
  credential_shaped_fields (field k v fs) = credential_shaped v || credential_shaped_fields fs

-- `redact_credential_shaped_values`
unfoldable mutual
  unfolding redact_text

  pub redacted : Value → Value
  redacted (obj fs) = obj (redacted_fields fs)
  redacted (arr vs) = arr (redacted_items vs)
  redacted (text t) = text (redact_text t)
  redacted v = v

  pub redacted_items : Items → Items
  redacted_items nil = nil
  redacted_items (cons v vs) = cons (redacted v) (redacted_items vs)

  pub redacted_fields : Fields → Fields
  redacted_fields end = end
  redacted_fields (field k v fs) = field k (redacted v) (redacted_fields fs)
