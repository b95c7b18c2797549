-- ===== src/Exec/Does.antt =====
-- Hoare triples on the database, for what a method does when it returns: one rule for each action.
use zworkbench.Common.{ℕ, ◌≡◌, refl, sym, ◌∙◌, Bool, true, false, Option, none, some, if◌then◌else◌}
use zworkbench.Owner.State.{Owner, Db, Env}
use zworkbench.Exec.{
  Error, Result, ok, err, Exec, pure, raise, query, draw, ask, or_raise, write, raise_if, ◌>>=◌,
  continue, now, new_id, when◌then◌else◌,
}

abbrev pub Post : {A : Type 0} → (A → Db → Type 0) → Result A → Db → Type 0
Post Q (ok a) d = Q a d
Post Q (err e) d = Unit

-- From a database with `P`, if `m` returns `a`, then the database has `Q a`.
pub record Does {A : Type 0} (P : Db → Type 0) (m : Exec A) (Q : A → Db → Type 0) : Type 0 where
  pub run : (s : Owner) → P s.db → Post Q (m s).0 (m s).1.db

module _ {A : Type 0} {P : Db → Type 0} where
  pub does_pure : (a : A) → Does P (pure a) (λ b d. (b ≡ a) × P d)
  unfolding pure
  does_pure a = record { run = λ s h. (refl, h) }

  pub does_return : {Q : A → Db → Type 0} (a : A) → ((d : Db) → P d → Q a d) → Does P (pure a) Q
  unfolding pure
  does_return a f = record { run = λ s h. f s.db h }

  pub does_raise : {Q : A → Db → Type 0} (e : Error) → Does P (raise {A = A} e) Q
  unfolding raise
  does_raise e = record { run = λ s h. tt }

  pub does_query : (f : Db → A) → Does P (query f) (λ a d. P d × (a ≡ f d))
  unfolding query
  does_query f = record { run = λ s h. (h, refl) }

  -- A query whose answer is not used as a fact.
  pub does_read : (f : Db → A) → Does P (query f) (λ _ d. P d)
  unfolding query
  does_read f = record { run = λ s h. h }

  pub does_draw : (f : Env → ℕ → A) → Does P (draw f) (λ _ d. P d)
  unfolding draw
  does_draw f = record { run = λ s h. h }

  pub does_ask : (f : Env → A) → Does P (ask f) (λ _ d. P d)
  unfolding ask
  does_ask f = record { run = λ s h. h }

  pub does_or_raise : (o : Option A) (e : Error) → Does P (or_raise o e) (λ a d. P d × (o ≡ some a))
  unfolding or_raise
  does_or_raise none e = record { run = λ s h. tt }
  does_or_raise (some a) e = record { run = λ s h. (h, refl) }

module _ {P : Db → Type 0} where
  pub does_write :
      {Q : Db → Type 0} (f : Db → Db) → ((d : Db) → P d → Q (f d)) → Does P (write f) (λ _. Q)
  unfolding write
  does_write f k = record { run = λ s h. k s.db h }

  pub does_guard : (b : Bool) (e : Error) → Does P (raise_if b e) (λ _ d. P d × (b ≡ false))
  unfolding raise_if
  does_guard true e = record { run = λ s h. tt }
  does_guard false e = record { run = λ s h. (h, refl) }

  pub does_now : Does P now (λ _ d. P d)
  unfolding now
  does_now = does_draw _

  pub does_new_id : Does P new_id (λ _ d. P d)
  unfolding new_id
  does_new_id = does_draw _

module _ {A B : Type 0} {Q : A → Db → Type 0} {R : B → Db → Type 0} where
  does_continue :
      (f : A → Exec B) (r : Result A) (s : Owner)
      → ((a : A) → Does (Q a) (f a) R)
      → Post Q r s.db
      → Post R (continue r f s).0 (continue r f s).1.db
  does_continue f (ok a) s k h = (k a).run s h
  does_continue f (err e) s k h = tt

module _ {A B : Type 0} {P : Db → Type 0} {Q : A → Db → Type 0} {R : B → Db → Type 0} where
  pub does_bind :
      {m : Exec A} {f : A → Exec B}
      → Does P m Q
      → ((a : A) → Does (Q a) (f a) R)
      → Does P (m >>= f) R
  unfolding ◌>>=◌
  does_bind {m} {f} first k = record {
    run = λ s h. does_continue f (m s).0 (m s).1 k (first.run s h);
  }

module _ {A : Type 0} {Q R : A → Db → Type 0} where
  does-Post : (r : Result A) (d : Db) → ((a : A) (d : Db) → R a d → Q a d) → Post R r d → Post Q r d
  does-Post (ok a) d k h = k a d h
  does-Post (err e) d k h = tt

module _ {A : Type 0} {P : Db → Type 0} {Q : A → Db → Type 0} where
  pub does_if :
      {m n : Exec A} (b : Bool)
      → (b ≡ true → Does P m Q)
      → (b ≡ false → Does P n Q)
      → Does P (when b then m else n) Q
  unfolding when◌then◌else◌
  does_if true k l = k refl
  does_if false k l = l refl

  pub does_weaken :
      {P' : Db → Type 0} {R : A → Db → Type 0} {m : Exec A}
      → ((d : Db) → P d → P' d)
      → Does P' m R
      → ((a : A) (d : Db) → R a d → Q a d)
      → Does P m Q
  does_weaken {m} pre triple post = record {
    run = λ s h. does-Post (m s).0 (m s).1.db post (triple.run s (pre s.db h));
  }

-- A fact that does not depend on the database becomes a hypothesis of what follows.
module _ {A B : Type 0} {Q : Db → Type 0} {C : A → Type 0} {R : B → Db → Type 0} where
  does_with_continue :
      (f : A → Exec B) (r : Result A) (s : Owner)
      → ((a : A) → C a → Does Q (f a) R)
      → Post (λ a d. Q d × C a) r s.db
      → Post R (continue r f s).0 (continue r f s).1.db
  does_with_continue f (ok a) s k h = (k a h.1).run s h.0
  does_with_continue f (err e) s k h = tt

module _ {A B : Type 0} {P Q : Db → Type 0} {C : A → Type 0} {R : B → Db → Type 0} where
  pub does_with :
      {m : Exec A} {f : A → Exec B}
      → Does P m (λ a d. Q d × C a)
      → ((a : A) → C a → Does Q (f a) R)
      → Does P (m >>= f) R
  unfolding ◌>>=◌
  does_with {m} {f} first k = record {
    run = λ s h. does_with_continue f (m s).0 (m s).1 k (first.run s h);
  }

module _ {B : Type 0} {P : Db → Type 0} {R : B → Db → Type 0} where
  -- A test of the database that raises: what follows knows that it was not met.
  pub does_fresh :
      (f : Db → Bool) (e : Error) {n : Unit {0} → Exec B}
      → ((u : Unit {0}) → Does (λ d. P d × (f d ≡ false)) (n u) R)
      → Does P (query f >>= λ b. raise_if b e >>= n) R
  does_fresh f e k = does_bind (does_query f) λ b.
      does_bind (does_guard b e)
        λ u. does_weaken (λ d h. (h.0.0, sym h.0.1 ∙ h.1)) (k u) (λ a d h. h)
