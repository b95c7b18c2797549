-- ===== src/Owner/Rules.antt =====
-- How an action keeps to the contract of Owner/Change, whether it returns or raises: one rule for
-- each way to build an action.
use zworkbench.Common.{ℕ, String, ◌≡◌, Bool, true, false, Option, none, some, refl}
use zworkbench.Json.{Value}
use zworkbench.Exec.{
  Exec, Error, Result, ok, err, pure, raise, query, draw, ask, or_raise, raise_if, ◌>>=◌, continue,
  now, new_id, write, when◌then◌else◌,
}
use zworkbench.Exec.Does.{Does, Post}
use zworkbench.Owner.State.{Owner, Db}
use zworkbench.Owner.Core.{
  transaction, exempt_transaction, atomically, require_connection, require_authenticated_caller,
  require_text, require_positive, require_non_negative, reject_raw_credentials,
  validate_evidence_source, roll_back,
}
use zworkbench.Owner.Change.{Changes, Changes-trans, here}

-- An action whose every outcome, an error included, follows the contract.
pub record Follows {A : Type 0} (m : Exec A) : Type 0 where
  pub at : (s : Owner) → Changes s.db (m s).1.db

-- A body that follows the contract when it returns.
abbrev pub Obeys : {A : Type 0} → Exec A → Type 0
Obeys m = (d : Db) → Does (Changes d) m (λ _. Changes d)

module _ {A : Type 0} where
  pub Follows-pure : (a : A) → Follows (pure a)
  unfolding pure
  Follows-pure a = record { at = λ s. here }

  pub Follows-raise : (e : Error) → Follows (raise {A = A} e)
  unfolding raise
  Follows-raise e = record { at = λ s. here }

  pub Follows-query : (f : Db → A) → Follows (query f)
  unfolding query
  Follows-query f = record { at = λ s. here }

  pub Follows-draw : (f : _ → ℕ → A) → Follows (draw f)
  unfolding draw
  Follows-draw f = record { at = λ s. here }

  pub Follows-ask : (f : _ → A) → Follows (ask f)
  unfolding ask
  Follows-ask f = record { at = λ s. here }

  pub Follows-or_raise : (o : Option A) (e : Error) → Follows (or_raise o e)
  unfolding or_raise
  Follows-or_raise none e = record { at = λ s. here }
  Follows-or_raise (some a) e = record { at = λ s. here }

pub Follows-guard : (b : Bool) (e : Error) → Follows (raise_if b e)
unfolding raise_if
Follows-guard true e = record { at = λ s. here }
Follows-guard false e = record { at = λ s. here }

pub Follows-write : (f : Db → Db) → ((d : Db) → Changes d (f d)) → Follows (write f)
unfolding write
Follows-write f k = record { at = λ s. k s.db }

pub Follows-now : Follows now
unfolding now
Follows-now = Follows-draw _

pub Follows-new_id : Follows new_id
unfolding new_id
Follows-new_id = Follows-draw _

pub Follows-connection : Follows require_connection
unfolding require_connection
Follows-connection = record { at = λ s. here }

pub Follows-caller : Follows require_authenticated_caller
unfolding require_authenticated_caller
Follows-caller = record { at = λ s. here }

pub Follows-text : (s : String) → Follows (require_text s)
unfolding require_text
Follows-text s = Follows-guard _ _

pub Follows-positive : (n : _) → Follows (require_positive n)
unfolding require_positive
Follows-positive n = Follows-or_raise _ _

pub Follows-non_negative : (n : _) → Follows (require_non_negative n)
unfolding require_non_negative
Follows-non_negative n = Follows-or_raise _ _

pub Follows-credentials : (v : Value) → Follows (reject_raw_credentials v)
unfolding reject_raw_credentials
Follows-credentials v = Follows-guard _ _

pub Follows-source : (v : String) → Follows (validate_evidence_source v)
unfolding validate_evidence_source
Follows-source v = Follows-guard _ _

module _ {A B : Type 0} where
  Follows-continue :
      (f : A → Exec B)
      → ((a : A) → Follows (f a))
      → (d : Db) (r : Result A) (s : Owner) → Changes d s.db
      → Changes d (continue r f s).1.db
  Follows-continue f k d (ok a) s c = Changes-trans c ((k a).at s)
  Follows-continue f k d (err e) s c = c

  pub Follows-bind :
      {m : Exec A} {f : A → Exec B} → Follows m → ((a : A) → Follows (f a)) → Follows (m >>= f)
  unfolding ◌>>=◌
  Follows-bind {m} {f} first k = record {
    at = λ s. Follows-continue f k s.db (m s).0 (m s).1 (first.at s);
  }

module _ {A : Type 0} where
  rolled :
      (d : Db) (r : Result A) (s : Owner)
      → Post (λ _. Changes d) r s.db
      → Changes d (roll_back d r s).1.db
  rolled d (ok a) s h = h
  rolled d (err e) s h = here

  pub Follows-atomically : {m : Exec A} → Obeys m → Follows (atomically m)
  unfolding atomically
  Follows-atomically {m} o = record { at = λ s. rolled s.db (m s).0 (m s).1 ((o s.db).run s here) }

  pub Follows-exempt : {m : Exec A} → Obeys m → Follows (exempt_transaction m)
  unfolding exempt_transaction
  Follows-exempt o = Follows-bind Follows-connection (λ _. Follows-atomically o)

  pub Follows-transaction : {m : Exec A} → Obeys m → Follows (transaction m)
  unfolding transaction
  Follows-transaction o =
      Follows-bind Follows-connection (λ _. Follows-bind Follows-caller (λ _. Follows-atomically o))

module _ {A : Type 0} where
  pub Follows-when :
      (b : Bool) {m n : Exec A} → Follows m → Follows n → Follows (when b then m else n)
  unfolding when◌then◌else◌
  Follows-when true h k = h
  Follows-when false h k = k

-- The rules for what stands outside a transaction.
pub ruleset follows_rules = (
  Follows-bind, Follows-pure, Follows-raise, Follows-query, Follows-draw, Follows-ask,
  Follows-or_raise, Follows-guard, Follows-now, Follows-new_id, Follows-connection, Follows-caller,
  Follows-text, Follows-positive, Follows-non_negative, Follows-credentials, Follows-source,
)

-- What an action that returns says of its result.
pub record Yields {A : Type 0} (m : Exec A) (C : A → Type 0) : Type 0 where
  pub at : (s : Owner) → Post (λ a _. C a) (m s).0 (m s).1.db

pub yields_guard : (b : Bool) (e : Error) → Yields (raise_if b e) (λ _. b ≡ false)
unfolding raise_if
yields_guard true e = record { at = λ s. tt }
yields_guard false e = record { at = λ s. refl }

module _ {A : Type 0} {C : A → Type 0} where
  pub yields_or_raise :
      (o : Option A) (e : Error) → ((a : A) → o ≡ some a → C a) → Yields (or_raise o e) C
  unfolding or_raise
  yields_or_raise none e k = record { at = λ s. tt }
  yields_or_raise (some a) e k = record { at = λ s. k a refl }

module _ {A B : Type 0} {D : B → Type 0} where
  yields_continue :
      (f : A → Exec B) (r : Result A) (s : Owner)
      → ((a : A) → Yields (f a) D)
      → Post (λ b _. D b) (continue r f s).0 (continue r f s).1.db
  yields_continue f (ok a) s k = (k a).at s
  yields_continue f (err e) s k = tt

  pub yields_bind : (m : Exec A) {f : A → Exec B} → ((a : A) → Yields (f a) D) → Yields (m >>= f) D
  unfolding ◌>>=◌
  yields_bind m {f} k = record { at = λ s. yields_continue f (m s).0 (m s).1 k }

module _ {A B : Type 0} {C : A → Type 0} where
  Follows-with_continue :
      (f : A → Exec B) (d : Db) (r : Result A) (s : Owner)
      → ((a : A) → C a → Follows (f a))
      → Post (λ a _. C a) r s.db
      → Changes d s.db
      → Changes d (continue r f s).1.db
  Follows-with_continue f d (ok a) s k h c = Changes-trans c ((k a h).at s)
  Follows-with_continue f d (err e) s k h c = c

  pub Follows-with :
      {m : Exec A} {f : A → Exec B}
      → Follows m
      → Yields m C
      → ((a : A) → C a → Follows (f a))
      → Follows (m >>= f)
  unfolding ◌>>=◌
  Follows-with {m} {f} first yields k = record {
    at = λ s. Follows-with_continue f s.db (m s).0 (m s).1 k (yields.at s) (first.at s);
  }

-- A test of the database that raises, and a statement.
module _ {A : Type 0} where
  pub Follows-fresh :
      (f : Db → Bool) (e : Error) (w : Db → Db) (a : A)
      → ((d : Db) → f d ≡ false → Changes d (w d))
      → Follows (query f >>= λ b. raise_if b e >>= λ _. write w >>= λ _. pure a)
  unfolding ◌>>=◌
  Follows-fresh f e w a k = record { at = λ s. by_test s (f s.db) refl }
    where
      by_test :
          (s : Owner) (b : Bool)
          → f s.db ≡ b
          → Changes s.db
              (continue {A = Unit {0}}
                (raise_if b e s).0
                (λ _. write w >>= λ _. pure a)
                (raise_if b e s).1).1.db
      by_test s true h = here
      by_test s false h = k s.db h
