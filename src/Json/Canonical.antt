-- ===== src/Json/Canonical.antt =====
-- The scan for credentials sees the same in a value and in its canonical form
-- (src/zworkbench/composition.py, `_canonical_json` and `_reject_raw_credentials`).
use zworkbench.Common.{String, Bool, ap, ◌∙◌, ◌≡◌, refl, ◌||◌, true, false, arith, if◌then◌else◌}
use zworkbench.Common.Text.{text_lt}
use zworkbench.Json
use zworkbench.Json.{
  Value, null, bool, int, literal, text, arr, obj, Items, nil, cons, Fields, end, field,
  canonical_json,
}
use zworkbench.Credentials
use zworkbench.Credentials.{raw_credential, credential_name}

-- Two fields in either order.
swap : (a b c d e : Bool) → (c || d || (a || b || e)) ≡ (a || b || (c || d || e))
swap true b true d e = refl
swap true b false true e = refl
swap true b false false e = refl
swap false true true d e = refl
swap false true false true e = refl
swap false true false false e = refl
swap false false true d e = refl
swap false false false true e = refl
swap false false false false e = refl

insert_scan :
    (k : String) (v : Value) (fs : Fields)
    → Credentials.raw_fields (Json.insert_field k v fs)
      ≡ (credential_name k || raw_credential v || Credentials.raw_fields fs)
unfolding raw_credential canonical_json
insert_scan k v end = refl
insert_scan k v (field j w fs) = placed (text_lt k j) (insert_scan k v fs)
  where
    placed :
        (b : Bool)
        → Credentials.raw_fields (Json.insert_field k v fs)
          ≡ (credential_name k || raw_credential v || Credentials.raw_fields fs)
        → Credentials.raw_fields
            (if b then field k v (field j w fs) else field j w (Json.insert_field k v fs))
          ≡ (credential_name k
              || raw_credential v
              || (credential_name j || raw_credential w || Credentials.raw_fields fs))
    placed true e = refl
    placed false e =
        ap (λ z. credential_name j || raw_credential w || z) e
        ∙ swap (credential_name k) (raw_credential v) (credential_name j) (raw_credential w) _

mutual
  unfolding raw_credential canonical_json

  canonical_scan : (v : Value) → raw_credential (canonical_json v) ≡ raw_credential v
  canonical_scan null = refl
  canonical_scan (bool b) = refl
  canonical_scan (int n) = refl
  canonical_scan (literal s) = refl
  canonical_scan (text s) = refl
  canonical_scan (arr vs) = items_scan vs
  canonical_scan (obj fs) = fields_scan fs

  items_scan :
      (vs : Items) → Credentials.raw_items (Json.canonical_items vs) ≡ Credentials.raw_items vs
  items_scan nil = refl
  items_scan (cons v vs) = ground (arith, canonical_scan v, items_scan vs)

  fields_scan :
      (fs : Fields) → Credentials.raw_fields (Json.canonical_fields fs) ≡ Credentials.raw_fields fs
  fields_scan end = refl
  fields_scan (field k v fs) = ground (
    arith,
    insert_scan k (canonical_json v) (Json.canonical_fields fs),
    canonical_scan v,
    fields_scan fs,
  )

pub raw_credential-canonical_json :
    (v : Value) → raw_credential (canonical_json v) ≡ raw_credential v
raw_credential-canonical_json v = canonical_scan v
