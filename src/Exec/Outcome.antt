-- ===== src/Exec/Outcome.antt =====
-- From a triple to one run: what holds when a method has returned.
use zworkbench.Common.{◌≡◌, subst}
use zworkbench.Owner.State.{Owner, Db}
use zworkbench.Exec.{Exec, Result, ok, err}
use zworkbench.Exec.Does.{Does, Post}

module _ {A : Type 0} {P : Db → Type 0} {Q : A → Db → Type 0} where
  pub does_ok :
      {m : Exec A} → Does P m Q → (s s' : Owner) (a : A) → m s ≡ (ok a, s') → P s.db → Q a s'.db
  does_ok triple s s' a e h = subst (λ p. Post Q p.0 p.1.db) e (triple.run s h)

module _ {A : Type 0} where
  any-Post : (r : Result A) (d : Db) → Post (λ _ _. Unit {0}) r d
  any-Post (ok a) d = tt
  any-Post (err e) d = tt

  -- A step of which nothing is needed.
  pub does_any : {P : Db → Type 0} (m : Exec A) → Does P m (λ _ _. Unit {0})
  does_any m = record { run = λ s h. any-Post (m s).0 (m s).1.db }
