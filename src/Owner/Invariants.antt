-- ===== src/Owner/Invariants.antt =====
-- What holds of the database after any history of calls on a fresh owner
-- (src/zworkbench/composition.py): invariants by induction on the contract of Owner/Change.
pub mod Effects
pub mod Once
pub mod Final
pub mod Approvals
pub mod Decided
pub mod Evidence
pub mod Runs
pub mod Ledgers
use zworkbench.Common.{List}
use zworkbench.Owner.State.{Db, Env, empty_db, new_owner}
use zworkbench.Owner.Change.{Change, Changes, here, next}
use zworkbench.Owner.Api.{Call, perform_all}
use zworkbench.Owner.Api.Follow.{perform_all-Changes}

-- The database after a history of calls.
abbrev pub after : Env → List Call → Db
after env calls = (perform_all calls (new_owner env)).db

-- Every change keeps the property.
abbrev pub Kept : (Db → Type 0) → Type 0
Kept I = (d d' : Db) → Change d d' → I d → I d'

module _ (I : Db → Type 0) (kept : Kept I) where
  pub along : (d d' : Db) → Changes d d' → I d → I d'
  along d d' here h = h
  along d d'' (next {d'} cs c) h = kept d' d'' c (along d d' cs h)

  pub always : I empty_db → (env : Env) (calls : List Call) → I (after env calls)
  always base env calls =
      along empty_db (after env calls) (perform_all-Changes calls (new_owner env)) base
