-- ===== src/Owner/Locked.antt =====
-- An owner that demands a caller and has none (src/zworkbench/composition.py,
-- `_require_authenticated_caller`): what its methods leave unwritten, by one rule for each way to
-- build an action.
pub mod Calls
pub mod Ledgers
use zworkbench.Owner.Core.{
  require_authenticated_caller, require_connection, require_text, require_positive,
  validate_evidence_source, reject_raw_credentials, require_non_negative, atomically, transaction,
}
use zworkbench.Common.{
  ℕ, String, ◌≡◌, Bool, true, false, Option, none, some, refl, ◌∙◌, ap, is_some, subst,
  if◌then◌else◌, not, sym, ◌&&◌,
}
use zworkbench.Json.{Value}
use zworkbench.Exec.{
  raise, Exec, Error, Result, ok, err, pure, raise, query, draw, ask, or_raise, raise_if, ◌>>=◌,
  continue, now, new_id, write, caller_auth_error, when◌then◌else◌,
}
use zworkbench.Owner.State.{Owner, Db, CallerSession}

-- Authentication is required, and no caller has given it.
abbrev pub IsLocked : Owner → Type 0
IsLocked s = (s.caller_auth_required ≡ true) × (s.caller_session ≡ none)

-- The action leaves a locked owner locked, and its database as it was.
pub record Inert {A : Type 0} (m : Exec A) : Type 0 where
  pub at : (s : Owner) → IsLocked s → IsLocked (m s).1 × ((m s).1.db ≡ s.db)

module _ {A : Type 0} where
  pub Inert-pure : (a : A) → Inert (pure a)
  unfolding pure
  Inert-pure a = record { at = λ s h. (h, refl) }

  pub Inert-raise : (e : Error) → Inert (raise {A = A} e)
  unfolding raise
  Inert-raise e = record { at = λ s h. (h, refl) }

  pub Inert-query : (f : Db → A) → Inert (query f)
  unfolding query
  Inert-query f = record { at = λ s h. (h, refl) }

  pub Inert-draw : (f : _ → ℕ → A) → Inert (draw f)
  unfolding draw
  Inert-draw f = record { at = λ s h. (h, refl) }

  pub Inert-ask : (f : _ → A) → Inert (ask f)
  unfolding ask
  Inert-ask f = record { at = λ s h. (h, refl) }

  pub Inert-or_raise : (o : Option A) (e : Error) → Inert (or_raise o e)
  unfolding or_raise
  Inert-or_raise none e = record { at = λ s h. (h, refl) }
  Inert-or_raise (some a) e = record { at = λ s h. (h, refl) }

pub Inert-guard : (b : Bool) (e : Error) → Inert (raise_if b e)
unfolding raise_if
Inert-guard true e = record { at = λ s h. (h, refl) }
Inert-guard false e = record { at = λ s h. (h, refl) }

pub Inert-now : Inert now
unfolding now
Inert-now = Inert-draw _

pub Inert-new_id : Inert new_id
unfolding new_id
Inert-new_id = Inert-draw _

pub Inert-connection : Inert require_connection
unfolding require_connection
Inert-connection = record { at = λ s h. (h, refl) }

pub Inert-caller : Inert require_authenticated_caller
unfolding require_authenticated_caller
Inert-caller = record { at = λ s h. (h, refl) }

pub Inert-text : (s : String) → Inert (require_text s)
unfolding require_text
Inert-text s = Inert-guard _ _

pub Inert-positive : (n : _) → Inert (require_positive n)
unfolding require_positive
Inert-positive n = Inert-or_raise _ _

pub Inert-non_negative : (n : _) → Inert (require_non_negative n)
unfolding require_non_negative
Inert-non_negative n = Inert-or_raise _ _

pub Inert-credentials : (v : Value) → Inert (reject_raw_credentials v)
unfolding reject_raw_credentials
Inert-credentials v = Inert-guard _ _

pub Inert-source : (v : String) → Inert (validate_evidence_source v)
unfolding validate_evidence_source
Inert-source v = Inert-guard _ _

module _ {A B : Type 0} where
  Inert-continue :
      (f : A → Exec B)
      → ((a : A) → Inert (f a))
      → (d : Db) (r : Result A) (s : Owner) → IsLocked s
      → s.db ≡ d
      → IsLocked (continue r f s).1 × ((continue r f s).1.db ≡ d)
  Inert-continue f k d (ok a) s h e = let (h', e') = (k a).at s h in (h', e' ∙ e)
  Inert-continue f k d (err x) s h e = (h, e)

  pub Inert-bind :
      {m : Exec A} {f : A → Exec B} → Inert m → ((a : A) → Inert (f a)) → Inert (m >>= f)
  unfolding ◌>>=◌
  Inert-bind {m} {f} first k = record {
    at = λ s h. let (h', e) = first.at s h in Inert-continue f k s.db (m s).0 (m s).1 h' e;
  }

module _ {A : Type 0} where
  -- The caller is asked for, and nothing after it runs.
  stopped :
      (s : Owner) (m : Exec A)
      → IsLocked s
      → (require_authenticated_caller >>= λ _. m) s ≡ (err caller_auth_error, s)
  unfolding ◌>>=◌ require_authenticated_caller
  stopped s m (required, absent) = refused s.caller_auth_required s.caller_session required absent
    where
      refused :
          (b : Bool) (c : Option CallerSession)
          → b ≡ true
          → c ≡ none
          → continue (if b && not (is_some c) then err caller_auth_error else ok tt) (λ _. m) s
            ≡ (err caller_auth_error, s)
      refused true none p q = refl
      refused true (some c) p q = cc
      refused false c p q = cc

  pub Inert-behind_caller : (m : Exec A) → Inert (require_authenticated_caller >>= λ _. m)
  Inert-behind_caller m = record {
    at = λ s h.
        let stop : (require_authenticated_caller >>= λ _. m) s ≡ (err caller_auth_error, s) =
          stopped s m h in
        (subst (λ p. IsLocked p.1) (sym stop) h, ap (λ p. p.1.db) stop);
  }

  pub Inert-transaction : (m : Exec A) → Inert (transaction m)
  unfolding transaction
  Inert-transaction m = Inert-bind Inert-connection (λ _. Inert-behind_caller (atomically m))

  pub Inert-when : (b : Bool) {m n : Exec A} → Inert m → Inert n → Inert (when b then m else n)
  unfolding when◌then◌else◌
  Inert-when true h k = h
  Inert-when false h k = k

-- The rules for the search.
pub ruleset inert_rules = (
  Inert-bind, Inert-pure, Inert-raise, Inert-query, Inert-draw, Inert-ask, Inert-or_raise,
  Inert-guard, Inert-now, Inert-new_id, Inert-connection, Inert-caller, Inert-text, Inert-positive,
  Inert-non_negative, Inert-credentials, Inert-source, Inert-transaction, Inert-behind_caller,
  Inert-when,
)
