-- ===== src/Scan/Clean.antt =====
-- What the scan leaves alone (src/zworkbench/credential_scan.py), and how it compares with the owner's
-- (src/zworkbench/composition.py).
use zworkbench.Common.Text.{joined, codes, is_alnum}
use zworkbench.Json.{
  Fields, text, literal, Items, null, field, int, bool, cons, end, Value, obj, arr, nil,
}
use zworkbench.Scan.{
  inside, contains_credential_shape, credential_shaped_items, redacted_fields, Shape, goes_on,
  redact_text, credential_shaped, redacted, credential_shaped_fields, match_at, redacted_items,
  search_shape, redact_from, looking, code,
}
use zworkbench.Common.{
  arith, none, is_some, Option, String, Bool, refl, false, ◌||◌, ap, ◌≡◌, ◌∷◌, some,
}

redact_from-clean :
    (b : Bool) (t : String) → search_shape b (codes t) ≡ false → redact_from (looking b) t ≡ t
unfolding search_shape redact_from goes_on
redact_from-clean b String.[] h = refl
redact_from-clean b (String.◌∷◌ c t) h =
    by_match (match_at b (code c ∷ codes t)) h (redact_from-clean (is_alnum (code c)) t)
  where
    by_match :
        (o : Option Shape)
        → (is_some o || search_shape (is_alnum (code c)) (codes t)) ≡ false
        → (search_shape (is_alnum (code c)) (codes t) ≡ false
            → redact_from (looking (is_alnum (code c))) t ≡ t)
        → elim o [
          | some shape ↦ joined "<redacted>" (redact_from (inside shape (is_alnum (code c))) t)
          | none ↦ String.◌∷◌ c (redact_from (looking (is_alnum (code c))) t)
        ]
          ≡ String.◌∷◌ c t
    by_match none e rest = ap (λ u. String.◌∷◌ c u) (rest e)
    by_match (some shape) e rest = cc

-- A text without a credential shape is redacted to itself.
redact_text-clean : (t : String) → contains_credential_shape t ≡ false → redact_text t ≡ t
unfolding contains_credential_shape redact_text
redact_text-clean t h = redact_from-clean false t h

pub or-false : (a b : Bool) → (a || b) ≡ false → (a ≡ false) × (b ≡ false)
or-false a b h = ground arith

mutual
  unfolding credential_shaped redacted

  value-clean : (v : Value) → credential_shaped v ≡ false → redacted v ≡ v
  value-clean null h = refl
  value-clean (bool b) h = refl
  value-clean (int n) h = refl
  value-clean (literal s) h = refl
  value-clean (text t) h = ap text (redact_text-clean t h)
  value-clean (arr vs) h = ap arr (items-clean vs h)
  value-clean (obj fs) h = ap obj (fields-clean fs h)

  items-clean : (vs : Items) → credential_shaped_items vs ≡ false → redacted_items vs ≡ vs
  items-clean nil h = refl
  items-clean (cons v vs) h =
      let (first, rest) = or-false _ _ h in rw (value-clean v first, items-clean vs rest) refl

  fields-clean : (fs : Fields) → credential_shaped_fields fs ≡ false → redacted_fields fs ≡ fs
  fields-clean end h = refl
  fields-clean (field k v fs) h =
      let (first, rest) = or-false _ _ h in rw (value-clean v first, fields-clean fs rest) refl

-- A value that the scan accepts is its own redaction.
pub redacted-clean : (v : Value) → credential_shaped v ≡ false → redacted v ≡ v
redacted-clean v h = value-clean v h
