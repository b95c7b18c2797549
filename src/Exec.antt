-- ===== src/Exec.antt =====
-- Methods that read and change the owner and may raise. What a method has written stays written
-- when it raises; only a transaction undoes it.
pub mod Does
pub mod Outcome
use zworkbench.Common.{ℕ, suc, ◌+◌, String, Bool, true, false, Option, none, some, List}
use zworkbench.Owner.State.{Owner, Db, Env}

-- The exception classes of src/zworkbench/composition.py, and those of Python and SQLite that the
-- methods let through. Their messages are left out.
pub data Error : Type 0 where
  value_error type_error os_error sqlite_integrity : Error
  composition_error not_found invalid_transition approval_error : Error
  retry_budget_exhausted caller_auth_error : Error

pub data Result (A : Type 0) : Type 0 where
  ok : A → Result A
  err : Error → Result A

abbrev pub Exec : Type 0 → Type 0
Exec A = Owner → Result A × Owner

module _ {A : Type 0} where
  unfoldable pub pure : A → Exec A
  pure a s = (ok a, s)

  unfoldable pub raise : Error → Exec A
  raise e s = (err e, s)

  -- A query, which reads the database only.
  unfoldable pub query : (Db → A) → Exec A
  query f s = (ok (f s.db), s)

  -- A reading of the clock or a random draw.
  unfoldable pub draw : (Env → ℕ → A) → Exec A
  draw f s = (ok (f s.env s.calls), record s { calls = suc s.calls })

  -- What the environment yields for a given input.
  unfoldable pub ask : (Env → A) → Exec A
  ask f s = (ok (f s.env), s)

  unfoldable pub or_raise : Option A → Error → Exec A
  or_raise none e s = (err e, s)
  or_raise (some a) e s = (ok a, s)

unfoldable pub write : (Db → Db) → Exec (Unit {0})
write f s = (ok tt, record s { db = f s.db })

unfoldable pub raise_if : Bool → Error → Exec (Unit {0})
raise_if true e s = (err e, s)
raise_if false e s = (ok tt, s)

module _ {A : Type 0} where
  infix 1 when◌then◌else◌
  -- `if` between two actions
  unfoldable pub when◌then◌else◌ : Bool → Exec A → Exec A → Exec A
  when true then m else n = m
  when false then m else n = n

module _ {A B : Type 0} where
  abbrev pub continue : Result A → (A → Exec B) → Exec B
  continue (ok a) f s = f a s
  continue (err e) f s = (err e, s)

  infixl 5 ◌>>=◌ ◌>>◌
  -- opening this opens the actions above too
  unfoldable pub ◌>>=◌ : Exec A → (A → Exec B) → Exec B
  unfolding pure raise query draw ask or_raise write raise_if when◌then◌else◌
  ◌>>=◌ m f s = let (r, s') = m s in continue r f s'

  abbrev pub ◌>>◌ : Exec A → Exec B → Exec B
  m >> n = m >>= λ _. n

unfoldable pub now : Exec ℕ
unfolding draw
now = draw (λ env n. env.clock n)

unfoldable pub new_id : Exec String
unfolding draw
new_id = draw (λ env n. env.uuid4 n)
