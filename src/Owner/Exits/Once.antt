-- ===== src/Owner/Exits/Once.antt =====
-- `record_provider_exit_ledger_once` (src/zworkbench/composition.py) records once.
use zworkbench.Owner.Atomic.{Quiet, Quiet-bind, Quiet-or_raise}
use zworkbench.Exec.{err, ok, continue, Result, ◌>>=◌, query, pure}
use zworkbench.Owner.Core.Steps.{Framed, does_connection, run_row-Does}
use zworkbench.Exec.Outcome.{does_any, does_ok}
use zworkbench.Owner.Core.Transactions.{does_transaction, append_event-Keeps}
use zworkbench.Owner.State.{ProviderExit, Db, Owner}
use zworkbench.Owner.Core.{add_result, add_event, run_row, require_connection}
use zworkbench.Exec.Does.{
  Does, does_or_raise, does_weaken, does_read, does_bind, does_write, does_query, does_return, Post,
}
use zworkbench.Common.Tables.{select, insert_sorted, exists, sort_by}
use zworkbench.Owner.Exits.{
  exits_of, get_provider_exit_ledger, record_provider_exit_ledger, ExitReport, insert_exit,
  inventoried, exit_before, add_exit, record_provider_exit_ledger_once,
  provider_exit_ledger_for_run, first_or_record,
}
use zworkbench.Json.{Fields, same}
use zworkbench.Common.{
  eq_refl, if◌then◌else◌, ◌≡◌, ◌∙◌, List, Bool, refl, true, ap, [], ◌++◌, ◌==◌, ◌∷◌, false, String,
  inr, Bool-cases, ◌≢◌, inl, subst, sym,
}

-- The run has a Provider exit.
abbrev pub HasExit : String → Db → Type 0
HasExit run_id d = exists (λ x. x.run_id == run_id) d.provider_exits ≡ true

insert_sorted-some :
    (x : ProviderExit) (xs : List ProviderExit)
    → (y : ProviderExit) × ((ys : List ProviderExit) × (insert_sorted exit_before x xs ≡ y ∷ ys))
unfolding insert_sorted
insert_sorted-some x [] = (x, ([], refl))
insert_sorted-some x (z ∷ zs) = by_order (exit_before x z)
  where
    by_order :
        (b : Bool)
        → (y : ProviderExit) × ((ys : List ProviderExit) × ((if b
                then x ∷ z ∷ zs
                else z ∷ insert_sorted exit_before x zs)
              ≡ y ∷ ys))
    by_order true = (x, (z ∷ zs, refl))
    by_order false = (z, (insert_sorted exit_before x zs, refl))

select-some :
    (p : ProviderExit → Bool) (xs : List ProviderExit)
    → exists p xs ≡ true
    → (y : ProviderExit) × ((ys : List ProviderExit) × (select p xs ≡ y ∷ ys))
select-some p [] h = cc
select-some p (x ∷ xs) h = by_head (p x) h (select-some p xs)
  where
    by_head :
        (b : Bool)
        → (if b then true else exists p xs) ≡ true
        → (exists p xs ≡ true
            → (y : ProviderExit) × ((ys : List ProviderExit) × (select p xs ≡ y ∷ ys)))
        → (y : ProviderExit) × ((ys : List ProviderExit) × ((if b
                then x ∷ select p xs
                else select p xs)
              ≡ y ∷ ys))
    by_head true e rest = (x, (select p xs, refl))
    by_head false e rest = rest e

select-none :
    (p : ProviderExit → Bool) (xs : List ProviderExit) → exists p xs ≡ false → select p xs ≡ []
select-none p [] h = refl
select-none p (x ∷ xs) h = by_head (p x) h (select-none p xs)
  where
    by_head :
        (b : Bool)
        → (if b then true else exists p xs) ≡ false
        → (exists p xs ≡ false → select p xs ≡ [])
        → (if b then x ∷ select p xs else select p xs) ≡ []
    by_head true e rest = cc
    by_head false e rest = rest e

-- The listing of a run that has an exit is not empty.
exits_of-some :
    (run_id : String) (d : Db)
    → HasExit run_id d
    → (y : ProviderExit) × ((ys : List ProviderExit) × (exits_of run_id d ≡ y ∷ ys))
unfolding exits_of sort_by
exits_of-some run_id d h =
    let (x, (xs, e)) = select-some (λ x. x.run_id == run_id) d.provider_exits h in
    let (y, (ys, f)) = insert_sorted-some x (sort_by exit_before xs) in
    (y, (ys, ap (sort_by exit_before) e ∙ f))

exists-append :
    (p : ProviderExit → Bool) (xs : List ProviderExit) (x : ProviderExit)
    → p x ≡ true
    → exists p (xs ++ x ∷ []) ≡ true
exists-append p [] x h = rw h refl
exists-append p (y ∷ ys) x h = by_head (p y) (exists-append p ys x h)
  where
    by_head :
        (b : Bool)
        → exists p (ys ++ x ∷ []) ≡ true
        → (if b then true else exists p (ys ++ x ∷ [])) ≡ true
    by_head true rest = refl
    by_head false rest = rest

HasExit-framed : (run_id : String) → Framed (HasExit run_id)
unfolding add_event add_result
HasExit-framed run_id = (λ d e h. h, λ d r h. h)

add_exit-HasExit : (x : ProviderExit) (d : Db) → HasExit x.run_id (add_exit x d)
unfolding add_exit
add_exit-HasExit x d =
    exists-append (λ y. y.run_id == x.run_id) d.provider_exits x (eq_refl x.run_id)

insert_exit-HasExit :
    (x : ProviderExit) (payload : Fields)
    → Does (λ _. Unit {0}) (insert_exit x payload) (λ _. HasExit x.run_id)
unfolding insert_exit
insert_exit-HasExit x payload = does_bind (does_any _) λ row. does_bind (does_any _) λ conflict.
    does_bind (does_any _) λ _.
      does_bind (does_write {Q = HasExit x.run_id} _ (λ d h. add_exit-HasExit x d)) λ _.
        append_event-Keeps (HasExit-framed x.run_id) x.run_id "provider.exit.ledger.recorded"
          payload

record-HasExit :
    (q : ExitReport) → Does (λ _. Unit {0}) (record_provider_exit_ledger q) (λ _. HasExit q.run_id)
unfolding record_provider_exit_ledger get_provider_exit_ledger
record-HasExit q = does_bind (does_any _) λ _. does_bind (does_any _) λ _.
    does_bind (does_any _) λ _. does_bind (does_any _) λ repr. does_bind (does_any _) λ t.
      does_bind (does_any _) λ id.
        does_bind (does_transaction (insert_exit-HasExit (inventoried q repr t id) _)) λ _.
          does_bind does_connection λ _.
            does_bind (does_read _)
              λ found. does_weaken (λ d h. h) (does_or_raise found _) (λ a d h. h.0)

nil-≢ : {y : ProviderExit} {ys : List ProviderExit} → [] ≢ y ∷ ys
nil-≢ h = cc

-- The listing of a run without an exit is empty.
exits_of-HasExit :
    (run_id : String) (d : Db) (x : ProviderExit) (xs : List ProviderExit)
    → exits_of run_id d ≡ x ∷ xs
    → HasExit run_id d
unfolding exits_of sort_by
exits_of-HasExit run_id d x xs h =
    elim (Bool-cases (exists (λ y. y.run_id == run_id) d.provider_exits)) [
      | inl found ↦ found
      | inr missing ↦
          absurd
            (nil-≢ (sym (ap (sort_by exit_before) (select-none _ d.provider_exits missing)) ∙ h))
    ]

listing-Does :
    (run_id : String) {P : Db → Type 0}
    → Does P (provider_exit_ledger_for_run run_id) (λ xs d. P d × (xs ≡ exits_of run_id d))
unfolding provider_exit_ledger_for_run
listing-Does run_id = does_bind does_connection λ _.
    does_bind (does_weaken (λ d h. h) (run_row-Does run_id) (λ row d h. h.0)) λ row. does_query _

by_entries-HasExit :
    (q : ExitReport) (xs : List ProviderExit)
    → Does
        (λ d. Unit {0} × (xs ≡ exits_of q.run_id d))
        (first_or_record q xs)
        (λ _. HasExit q.run_id)
by_entries-HasExit q [] = does_weaken (λ d h. tt) (record-HasExit q) (λ a d h. h)
by_entries-HasExit q (x ∷ xs) = does_return x (λ d h. exits_of-HasExit q.run_id d x xs (sym h.1))

once-HasExit :
    (q : ExitReport)
    → Does (λ _. Unit {0}) (record_provider_exit_ledger_once q) (λ _. HasExit q.run_id)
unfolding record_provider_exit_ledger_once
once-HasExit q = does_bind (listing-Does q.run_id) λ xs. by_entries-HasExit q xs

Quiet-connection : Quiet require_connection
unfolding require_connection
Quiet-connection = record { at = λ s. refl }

Quiet-query : {A : Type 0} (f : Db → A) → Quiet (query f)
unfolding query
Quiet-query f = record { at = λ s. refl }

run_row-Quiet : (id : String) → Quiet (run_row id)
unfolding run_row
run_row-Quiet id = Quiet-bind (Quiet-query _) λ found. Quiet-or_raise found _

listing-Quiet : (run_id : String) → Quiet (provider_exit_ledger_for_run run_id)
unfolding provider_exit_ledger_for_run
listing-Quiet run_id =
    Quiet-bind Quiet-connection λ _. Quiet-bind (run_row-Quiet run_id) λ row. Quiet-query _

again :
    (q : ExitReport) (d : Db) (r : Result (List ProviderExit)) (s : Owner)
    → HasExit q.run_id d
    → Post (λ xs d'. (d' ≡ d) × (xs ≡ exits_of q.run_id d')) r s.db
    → s.db ≡ d
    → (continue r (first_or_record q) s).1.db ≡ d
unfolding pure
again q d (err e) s has post same = same
again q d (ok []) s has post same =
    let (y, (ys, e)) = exits_of-some q.run_id s.db (subst (HasExit q.run_id) (sym same) has) in
    absurd (nil-≢ (post.1 ∙ e))
again q d (ok (x ∷ xs)) s has post same = same

once_again :
    (q : ExitReport) (s : Owner)
    → HasExit q.run_id s.db
    → (record_provider_exit_ledger_once q s).1.db ≡ s.db
unfolding record_provider_exit_ledger_once ◌>>=◌
once_again q s has =
    again q s.db _ _ has ((listing-Does q.run_id {P = λ d. d ≡ s.db}).run s refl)
      ((listing-Quiet q.run_id).at s)

-- Once `record_provider_exit_ledger_once` has returned for a run, the run has a Provider exit, and a
-- second call for that run, whatever it reports, changes nothing in the database.
pub exit_recorded_once :
    (q r : ExitReport) (s s' : Owner) (x : ProviderExit)
    → record_provider_exit_ledger_once q s ≡ (ok x, s')
    → r.run_id ≡ q.run_id
    → HasExit q.run_id s'.db × ((record_provider_exit_ledger_once r s').1.db ≡ s'.db)
exit_recorded_once q r s s' x returned same =
    let has = does_ok (once-HasExit q) s s' x returned tt in
    (has, once_again r s' (subst (λ id. HasExit id s'.db) (sym same) has))
