-- ===== src/Json/Laws.antt =====
-- Stored texts are compared exactly: a value is the same as itself, and as nothing else.
use zworkbench.Common.{◌≡◌, refl, true, false, arith, eq_iff}
use zworkbench.Json
use zworkbench.Json.{
  Value, null, bool, int, literal, text, arr, obj, Items, nil, cons, Fields, end, field, same,
}

mutual
  unfolding same

  same_self : (v : Value) → same v v ≡ true
  same_self null = refl
  same_self (bool true) = refl
  same_self (bool false) = refl
  same_self (int n) = ground arith
  same_self (literal s) = (eq_iff s s).1 refl
  same_self (text s) = (eq_iff s s).1 refl
  same_self (arr vs) = items_self vs
  same_self (obj fs) = fields_self fs

  items_self : (vs : Items) → Json.same_items vs vs ≡ true
  items_self nil = refl
  items_self (cons v vs) = ground (arith, same_self v, items_self vs)

  fields_self : (fs : Fields) → Json.same_fields fs fs ≡ true
  fields_self end = refl
  fields_self (field k v fs) = ground (arith, eq_iff k k, same_self v, fields_self fs)

pub same_refl : (v : Value) → same v v ≡ true
same_refl v = same_self v
