-- ===== src/Owner/Invariants/Runs.antt =====
-- The rows of `runs` (src/zworkbench/composition.py): no two share an identity, and what a run was
-- created with is never lost or rewritten.
use zworkbench.Owner.Aside.{Aside-SameCore}
use zworkbench.Owner.Invariants.{after, always}
use zworkbench.Owner.Api.Follow.{perform_all-Changes}
use zworkbench.Common.Tables.{count, update}
use zworkbench.Owner.Api.{Call, perform_all}
use mathlib.Core.List.{append-nil, append_assoc}
use zworkbench.Owner.Claim.Existing.{put_retry}
use zworkbench.Owner.Runs.{add_run}
use zworkbench.Owner.Claim.Fresh.{add_effect}
use zworkbench.Owner.Approvals.{add_approval, put_approved, put_denied}
use zworkbench.Owner.Effects.{put_uncertain, put_reconciled, put_completed}
use zworkbench.Json.{Fields, Value}
use zworkbench.Common.Unique.{exists-none, Apart-append, Apart, Apart-update, count-Apart}
use zworkbench.Owner.Core.{add_result, add_event, put_status, has_run_id}
use zworkbench.Owner.Claim.Token.{put_consumed}
use zworkbench.Common.{
  ◌≡◌, sym, subst, false, String, List, ℕ, map, ◌==◌, ◌∙◌, Bool, arith, ◌≤◌, true, ◌∷◌, [], ap,
  if◌then◌else◌, eq_iff, refl, ◌++◌,
}
use zworkbench.Owner.State.{Db, Run, running, Owner, Env}
use zworkbench.Owner.Change.{Change, Changes, here, next}

abbrev pub RunsApart : Db → Type 0
RunsApart d = Apart (λ r q. (r.run_id == q.run_id) ≡ false) d.runs

runs_kept : (d d' : Db) → Change d d' → RunsApart d → RunsApart d'
unfolding add_run put_status add_event add_result add_approval put_approved put_denied put_consumed
    add_effect put_retry put_completed put_uncertain put_reconciled
runs_kept d d' (Change.create r fresh _) v = Apart-append _ d.runs r v (exists-none _ d.runs fresh)
runs_kept d d' (Change.move id row status t _ _) v =
    Apart-update _ _ _ d.runs (λ x y h. h) (λ x y h. h) v
runs_kept d d' (Change.rearm id row t _ _) v = Apart-update _ _ _ d.runs (λ x y h. h) (λ x y h. h) v
runs_kept d d' (Change.log e payload _ _ _ _ _) v = v
runs_kept d d' (Change.result r value _ _ _) v = v
runs_kept d d' (Change.request q id t _) v = v
runs_kept d d' (Change.approve id a hash expires t _ _) v = v
runs_kept d d' (Change.deny id a reason t _ _) v = v
runs_kept d d' (Change.consume a t _ _ _) v = v
runs_kept d d' (Change.claim q id max_attempts approval t _ _) v = v
runs_kept d d' (Change.retry e t _ _ _) v = v
runs_kept d d' (Change.complete id e receipt t _ _) v = v
runs_kept d d' (Change.lose id e error t _ _) v = v
runs_kept d d' (Change.reconcile id e outcome evidence t _ _) v = v
runs_kept d d' (Change.other aside) v =
    let same = Aside-SameCore d d' aside in subst (Apart _) (sym same.runs) v

-- The columns that no method updates.
abbrev pub identity_of : Run → String × String × Value × Fields × ℕ
identity_of r = (r.run_id, r.task_type, r.input, r.metadata, r.created_at)

abbrev identities : Db → List (String × String × Value × Fields × ℕ)
identities d = map identity_of d.runs

same_identities :
    (p : Run → Bool) (f : Run → Run) (rs : List Run)
    → ((r : Run) → identity_of (f r) ≡ identity_of r)
    → map identity_of (update p f rs) ≡ map identity_of rs
same_identities p f [] keep = refl
same_identities p f (r ∷ rs) keep = cong2 (pick (p r)) (same_identities p f rs keep)
  where
    pick : (b : Bool) → identity_of (if b then f r else r) ≡ identity_of r
    pick true = keep r
    pick false = refl

    cong2 :
        {i j : String × String × Value × Fields × ℕ}
        {is js : List (String × String × Value × Fields × ℕ)}
        → i ≡ j
        → is ≡ js
        → (i ∷ is) ≡ (j ∷ js)
    cong2 h k = cc

map-append :
    (rs : List Run) (r : Run)
    → map identity_of (rs ++ r ∷ []) ≡ map identity_of rs ++ identity_of r ∷ []
map-append [] r = refl
map-append (x ∷ rs) r = ap (λ l. identity_of x ∷ l) (map-append rs r)

abbrev KeptIdentities : Db → Db → Type 0
KeptIdentities d d' =
    (more : List (String × String × Value × Fields × ℕ)) × (identities d' ≡ identities d ++ more)

unchanged : (d d' : Db) → identities d' ≡ identities d → KeptIdentities d d'
unchanged d d' e = ([], e ∙ sym (append-nil (identities d)))

identity_step : (d d' : Db) → Change d d' → KeptIdentities d d'
unfolding add_run put_status add_event add_result add_approval put_approved put_denied put_consumed
    add_effect put_retry put_completed put_uncertain put_reconciled
identity_step d d' (Change.create r fresh _) = (identity_of r ∷ [], map-append d.runs r)
identity_step d d' (Change.move id row status t _ _) =
    unchanged d (put_status id status t d) (same_identities _ _ d.runs (λ r. refl))
identity_step d d' (Change.rearm id row t _ _) =
    unchanged d (put_status id running t d) (same_identities _ _ d.runs (λ r. refl))
identity_step d d' (Change.log e payload _ _ _ _ _) = unchanged d d refl
identity_step d d' (Change.result r value _ _ _) = unchanged d d refl
identity_step d d' (Change.request q id t _) = unchanged d d refl
identity_step d d' (Change.approve id a hash expires t _ _) = unchanged d d refl
identity_step d d' (Change.deny id a reason t _ _) = unchanged d d refl
identity_step d d' (Change.consume a t _ _ _) = unchanged d d refl
identity_step d d' (Change.claim q id max_attempts approval t _ _) = unchanged d d refl
identity_step d d' (Change.retry e t _ _ _) = unchanged d d refl
identity_step d d' (Change.complete id e receipt t _ _) = unchanged d d refl
identity_step d d' (Change.lose id e error t _ _) = unchanged d d refl
identity_step d d' (Change.reconcile id e outcome evidence t _ _) = unchanged d d refl
identity_step d d' (Change.other aside) =
    let same = Aside-SameCore d d' aside in unchanged d d' (ap (map identity_of) same.runs)

identities_along : (d d' : Db) → Changes d d' → KeptIdentities d d'
identities_along d d' here = unchanged d d refl
identities_along d d'' (next {d'} cs c) =
    let (more, p) = identities_along d d' cs in
    let (later, q) = identity_step d' d'' c in
    (more ++ later, q ∙ ap (λ l. l ++ later) p ∙ append_assoc (identities d) more later)

-- Whatever calls are made on an owner, no run is lost, and none has its identity, task type, input,
-- metadata or time of creation rewritten: new runs follow those that were there.
pub run_identity_kept :
    (s : Owner) (calls : List Call)
    → (more : List (String × String × Value × Fields × ℕ)) × (map identity_of
          (perform_all calls s).db.runs
        ≡ map identity_of s.db.runs ++ more)
run_identity_kept s calls = identities_along s.db _ (perform_all-Changes calls s)

-- After any history of calls on a fresh owner, at most one run has a given identity.
pub run_unique :
    (env : Env) (calls : List Call) (id : String) → count (has_run_id id) (after env calls).runs ≤ 1
run_unique env calls id =
    count-Apart _ _ (after env calls).runs apart (always RunsApart runs_kept tt env calls)
  where
    differs :
        (r q : Run) (b : Bool)
        → (q.run_id == id) ≡ b
        → (r.run_id == q.run_id) ≡ false
        → (r.run_id == id) ≡ true
        → b ≡ false
    differs r q false t h e = refl
    differs r q true t h e =
        let same_id : r.run_id ≡ q.run_id =
          let p : r.run_id ≡ id = (eq_iff _ _).0 e in
          let p' : q.run_id ≡ id = (eq_iff _ _).0 t in cc in
        let clash : (r.run_id == q.run_id) ≡ true = (eq_iff _ _).1 same_id in ground arith

    apart :
        (r q : Run)
        → (r.run_id == q.run_id) ≡ false
        → has_run_id id r ≡ true
        → has_run_id id q ≡ false
    apart r q h e = differs r q (has_run_id id q) refl h e
