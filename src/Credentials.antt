-- ===== src/Credentials.antt =====
-- `_reject_raw_credentials`, `_reject_secret_shaped_values` and `_SECRET_VALUE` of
-- src/zworkbench/composition.py.
pub mod Safety
use zworkbench.Common.{
  ℕ, zero, suc, String, Bool, true, false, not, ◌&&◌, ◌||◌, List, [], ◌∷◌, map, nat_eq,
  if◌then◌else◌,
}
use zworkbench.Common.Text.{
  codes, is_alnum, is_digit, is_upper, to_lower, is_prefix, same_codes, ends_with, split,
}
use zworkbench.Json.{
  Value, null, bool, int, literal, text, arr, obj, Items, nil, cons, Fields, end, field,
}

-- Whether the next `n` characters are all of a class.
unfoldable pub run_of : (ℕ → Bool) → ℕ → List ℕ → Bool
run_of class zero cs = true
run_of class (suc n) [] = false
run_of class (suc n) (c ∷ cs) = class c && run_of class n cs

unfoldable pub after : List ℕ → List ℕ → List ℕ
after [] t = t
after (c ∷ cs) [] = []
after (c ∷ cs) (d ∷ ds) = after cs ds

-- [A-Za-z0-9_-]
unfoldable pub is_key_char : ℕ → Bool
unfolding is_alnum
is_key_char c = is_alnum c || nat_eq c b'_' || nat_eq c b'-'

-- [0-9A-Z]
unfoldable pub is_id_char : ℕ → Bool
unfolding is_digit is_upper
is_id_char c = is_digit c || is_upper c

unfoldable pub shape_at : String → (ℕ → Bool) → List ℕ → Bool
unfolding is_prefix run_of after
shape_at lead class t = is_prefix (codes lead) t && run_of class 12 (after (codes lead) t)

-- sk-[A-Za-z0-9_-]{12,}|AKIA[0-9A-Z]{12,}
unfoldable pub secret_at : List ℕ → Bool
unfolding shape_at is_key_char is_id_char
secret_at t = shape_at "sk-" is_key_char t || shape_at "AKIA" is_id_char t

-- The flag is the lookbehind: whether the character before is a letter or a digit.
unfoldable pub search_secret : Bool → List ℕ → Bool
unfolding secret_at is_alnum
search_secret b [] = false
search_secret b (c ∷ cs) = (not b && secret_at (c ∷ cs)) || search_secret (is_alnum c) cs

-- `_SECRET_VALUE.search(value)`
unfoldable pub secret_value : String → Bool
unfolding search_secret
secret_value s = search_secret false (codes s)

unfoldable pub any_same : List (List ℕ) → List ℕ → Bool
any_same [] t = false
any_same (w ∷ ws) t = same_codes w t || any_same ws t

unfoldable pub any_suffix : List String → List ℕ → Bool
any_suffix [] t = false
any_suffix (w ∷ ws) t = ends_with t (codes w) || any_suffix ws t

abbrev pub sensitive : List (List ℕ)
sensitive = map codes (
    "api_key" ∷ "apikey" ∷ "authorization" ∷ "cookie" ∷ "password" ∷ "secret" ∷ "token" ∷ "key"
    ∷ [])

abbrev pub safe_suffixes : List String
safe_suffixes = "_ref" ∷ "_reference" ∷ "_fingerprint" ∷ "_digest" ∷ "_id" ∷ []

unfoldable pub any_part : List (List ℕ) → Bool
any_part [] = false
any_part (p ∷ ps) = any_same sensitive p || any_part ps

underscore : ℕ → ℕ
underscore c = if nat_eq c b'-' then b'_' else c

-- `str(key).lower().replace("-", "_")`
unfoldable pub normalized : String → List ℕ
unfolding underscore to_lower
normalized k = map underscore (map to_lower (codes k))

-- The test on a field's name.
unfoldable pub credential_name : String → Bool
unfolding normalized any_same any_suffix any_part same_codes ends_with split
credential_name k =
    let n = normalized k in
    not (same_codes (codes "idempotency_key") n || any_suffix safe_suffixes n)
    && (any_same sensitive n || any_part (split b'_' n))

-- Whether `visit` of `_reject_raw_credentials` raises.
unfoldable mutual
  unfolding credential_name secret_value

  pub raw_credential : Value → Bool
  raw_credential (text s) = secret_value s
  raw_credential (arr vs) = raw_items vs
  raw_credential (obj fs) = raw_fields fs
  raw_credential _ = false

  pub raw_items : Items → Bool
  raw_items nil = false
  raw_items (cons v vs) = raw_credential v || raw_items vs

  pub raw_fields : Fields → Bool
  raw_fields end = false
  raw_fields (field k v fs) = credential_name k || raw_credential v || raw_fields fs

-- Whether `visit` of `_reject_secret_shaped_values` raises.
unfoldable mutual
  unfolding secret_value

  pub secret_shaped : Value → Bool
  secret_shaped (text s) = secret_value s
  secret_shaped (arr vs) = secret_items vs
  secret_shaped (obj fs) = secret_fields fs
  secret_shaped _ = false

  pub secret_items : Items → Bool
  secret_items nil = false
  secret_items (cons v vs) = secret_shaped v || secret_items vs

  pub secret_fields : Fields → Bool
  secret_fields end = false
  secret_fields (field k v fs) = secret_shaped v || secret_fields fs
