-- ===== src/Scan/Owner.antt =====
-- The scan before the owner's: src/zworkbench/credential_scan.py against `_SECRET_VALUE` of
-- src/zworkbench/composition.py.
use zworkbench.Scan.Clean.{or-false}
use zworkbench.Credentials.{
  secret_shaped, secret_items, shape_at, secret_fields, secret_at, search_secret, secret_value,
}
use zworkbench.Common.Text.{is_alnum, codes}
use zworkbench.Scan.{
  credential_shaped, credential_shaped_items, key_shape, credential_shaped_fields, begins,
  search_shape, match_at, contains_credential_shape, alternative_at, id_shape,
}
use zworkbench.Json.{
  text, literal, null, bool, Fields, end, nil, int, cons, Value, obj, field, Items, arr,
}
use zworkbench.Common.{
  ℕ, ◌∷◌, String, ◌&&◌, refl, false, none, ◌||◌, not, if◌then◌else◌, is_some, true, some, Bool, [],
  ◌≡◌, List,
}

alternative_at-none : (t : List ℕ) → is_some (alternative_at t) ≡ false → secret_at t ≡ false
unfolding alternative_at begins secret_at shape_at
alternative_at-none t h =
    by_tests (begins "ark-" key_shape 8 t) (begins "sk-" key_shape 12 t)
      (begins "AKIA" id_shape 12 t) h
  where
    by_tests :
        (ark sk akia : Bool)
        → is_some (if ark || sk then some key_shape else if akia then some id_shape else none)
          ≡ false
        → (sk || akia) ≡ false
    by_tests true sk akia e = cc
    by_tests false true akia e = cc
    by_tests false false true e = cc
    by_tests false false false e = refl

search_secret-none :
    (b : Bool) (cs : List ℕ) → search_shape b cs ≡ false → search_secret b cs ≡ false
unfolding search_shape search_secret match_at
search_secret-none b [] h = refl
search_secret-none b (c ∷ cs) h = by_before b h (search_secret-none (is_alnum c) cs)
  where
    by_before :
        (d : Bool)
        → (is_some (if d then none else alternative_at (c ∷ cs)) || search_shape (is_alnum c) cs)
          ≡ false
        → (search_shape (is_alnum c) cs ≡ false → search_secret (is_alnum c) cs ≡ false)
        → ((not d && secret_at (c ∷ cs)) || search_secret (is_alnum c) cs) ≡ false
    by_before true e rest = rest e
    by_before false e rest =
        let (first, later) = or-false _ _ e in
        rw (alternative_at-none (c ∷ cs) first, rest later) refl

secret_value-none : (t : String) → contains_credential_shape t ≡ false → secret_value t ≡ false
unfolding contains_credential_shape secret_value
secret_value-none t h = search_secret-none false (codes t) h

mutual
  unfolding credential_shaped secret_shaped

  value-none : (v : Value) → credential_shaped v ≡ false → secret_shaped v ≡ false
  value-none null h = refl
  value-none (bool b) h = refl
  value-none (int n) h = refl
  value-none (literal s) h = refl
  value-none (text t) h = secret_value-none t h
  value-none (arr vs) h = items-none vs h
  value-none (obj fs) h = fields-none fs h

  items-none : (vs : Items) → credential_shaped_items vs ≡ false → secret_items vs ≡ false
  items-none nil h = refl
  items-none (cons v vs) h =
      let (first, rest) = or-false _ _ h in rw (value-none v first, items-none vs rest) refl

  fields-none : (fs : Fields) → credential_shaped_fields fs ≡ false → secret_fields fs ≡ false
  fields-none end h = refl
  fields-none (field k v fs) h =
      let (first, rest) = or-false _ _ h in rw (value-none v first, fields-none fs rest) refl

-- Whatever the scan at the Worker's boundary accepts, the owner's scan of values accepts too.
pub secret_shaped-none : (v : Value) → credential_shaped v ≡ false → secret_shaped v ≡ false
secret_shaped-none v h = value-none v h
