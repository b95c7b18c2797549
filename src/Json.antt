-- ===== src/Json.antt =====
-- The JSON values that the owner stores, `json.dumps` with sorted keys
-- (src/zworkbench/composition.py, `_canonical_json`), and Python's truth test and `dict.get`.
-- A JSON column holds the value whose text it is: the text of a value and the value with its keys
-- sorted determine one another.
pub mod Laws
pub mod Canonical
use zworkbench.Common.{
  ℕ, String, Bool, true, false, not, ◌&&◌, ◌||◌, Option, none, some, List, [], ◌∷◌, ◌==◌, nat_eq,
  if◌then◌else◌,
}
use zworkbench.Common.Text.{text_lt}

-- `literal` is a negative or fractional number, by its text.
mutual
  pub data Value : Type 0 where
    null : Value
    bool : Bool → Value
    int : ℕ → Value
    literal : String → Value
    text : String → Value
    obj : Fields → Value
    arr : Items → Value

  pub data Fields : Type 0 where
    end : Fields
    field : String → Value → Fields → Fields

  pub data Items : Type 0 where
    nil : Items
    cons : Value → Items → Items

-- `d.get(key)`
unfoldable pub get : String → Fields → Option Value
get k end = none
get k (field j v fs) = if j == k then some v else get k fs

-- `bool(value)`; a zero that is no `int` is written `0.0` or `-0.0`.
unfoldable pub truthy : Value → Bool
truthy null = false
truthy (bool b) = b
truthy (int n) = not (nat_eq n 0)
truthy (literal s) = not (s == "0.0" || s == "-0.0")
truthy (text s) = not (s == "")
truthy (arr nil) = false
truthy (arr (cons v vs)) = true
truthy (obj end) = false
truthy (obj (field k v fs)) = true

-- `bool(d.get(key))`
unfoldable pub get_truthy : String → Fields → Bool
unfolding get truthy
get_truthy k fs = elim (get k fs) [ none ↦ false | some v ↦ truthy v ]

unfoldable pub insert_field : String → Value → Fields → Fields
insert_field k v end = field k v end
insert_field k v (field j w fs) =
    if text_lt k j then field k v (field j w fs) else field j w (insert_field k v fs)

unfoldable mutual
  unfolding insert_field

  pub canonical_json : Value → Value
  canonical_json null = null
  canonical_json (bool b) = bool b
  canonical_json (int n) = int n
  canonical_json (literal s) = literal s
  canonical_json (text s) = text s
  canonical_json (arr vs) = arr (canonical_items vs)
  canonical_json (obj fs) = obj (canonical_fields fs)

  pub canonical_items : Items → Items
  canonical_items nil = nil
  canonical_items (cons v vs) = cons (canonical_json v) (canonical_items vs)

  pub canonical_fields : Fields → Fields
  canonical_fields end = end
  canonical_fields (field k v fs) = insert_field k (canonical_json v) (canonical_fields fs)

-- `==` on two stored texts
unfoldable mutual
  pub same : Value → Value → Bool
  same null null = true
  same (bool true) (bool true) = true
  same (bool false) (bool false) = true
  same (int m) (int n) = nat_eq m n
  same (literal s) (literal t) = s == t
  same (text s) (text t) = s == t
  same (arr vs) (arr ws) = same_items vs ws
  same (obj fs) (obj gs) = same_fields fs gs
  same _ _ = false

  pub same_items : Items → Items → Bool
  same_items nil nil = true
  same_items (cons v vs) (cons w ws) = same v w && same_items vs ws
  same_items _ _ = false

  pub same_fields : Fields → Fields → Bool
  same_fields end end = true
  same_fields (field k v fs) (field j w gs) = k == j && (same v w && same_fields fs gs)
  same_fields _ _ = false

abbrev pub optional_text : Option String → Value
optional_text none = null
optional_text (some s) = text s
