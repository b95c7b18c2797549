-- ===== src/Owner/Invariants/Ledgers.antt =====
-- The ledgers of Provider exits and fallbacks over histories of calls
use zworkbench.Owner.Aside.{Aside-SameCore}
use zworkbench.Owner.Claim.Token.{put_consumed}
use zworkbench.Owner.Claim.Fresh.{add_effect}
use zworkbench.Owner.Runs.{add_run}
use zworkbench.Owner.Api.{perform_all, Call}
use zworkbench.Owner.Approvals.{put_approved, add_approval, put_denied}
use zworkbench.Owner.State.{ProviderExit, Owner, Env, Db}
use zworkbench.Owner.Invariants.{after, along, always}
use zworkbench.Common.Tables.{In, All, All-append}
use zworkbench.Owner.Api.Follow.{perform_all-Changes}
use zworkbench.Common.{[], List, ◌∷◌}
use zworkbench.Owner.Aside.{appended, Accounted, Reasoned, Appended, kept}
use zworkbench.Owner.Change.{Change}
use zworkbench.Owner.Effects.{put_completed, put_reconciled, put_uncertain}
use zworkbench.Common.Unique.{In-append}
use zworkbench.Owner.Claim.Existing.{put_retry}
use zworkbench.Owner.Core.{add_event, put_status, add_result}

-- (src/zworkbench/composition.py).

exit_step : (d d' : Db) → Change d d' → Appended Accounted d.provider_exits d'.provider_exits
unfolding add_run put_status add_event add_result add_approval put_approved put_denied put_consumed
    add_effect put_retry put_completed put_uncertain put_reconciled
exit_step d d' (Change.create r _ _) = kept
exit_step d d' (Change.move id row status t _ _) = kept
exit_step d d' (Change.rearm id row t _ _) = kept
exit_step d d' (Change.log e payload _ _ _ _ _) = kept
exit_step d d' (Change.result r value _ _ _) = kept
exit_step d d' (Change.request q id t _) = kept
exit_step d d' (Change.approve id a hash expires t _ _) = kept
exit_step d d' (Change.deny id a reason t _ _) = kept
exit_step d d' (Change.consume a t _ _ _) = kept
exit_step d d' (Change.claim q id max_attempts approval t _ _) = kept
exit_step d d' (Change.retry e t _ _ _) = kept
exit_step d d' (Change.complete id e receipt t _ _) = kept
exit_step d d' (Change.lose id e error t _ _) = kept
exit_step d d' (Change.reconcile id e outcome evidence t _ _) = kept
exit_step d d' (Change.other aside) = let same = Aside-SameCore d d' aside in same.exits

fallback_step :
    (d d' : Db) → Change d d' → Appended Reasoned d.provider_fallbacks d'.provider_fallbacks
unfolding add_run put_status add_event add_result add_approval put_approved put_denied put_consumed
    add_effect put_retry put_completed put_uncertain put_reconciled
fallback_step d d' (Change.create r _ _) = kept
fallback_step d d' (Change.move id row status t _ _) = kept
fallback_step d d' (Change.rearm id row t _ _) = kept
fallback_step d d' (Change.log e payload _ _ _ _ _) = kept
fallback_step d d' (Change.result r value _ _ _) = kept
fallback_step d d' (Change.request q id t _) = kept
fallback_step d d' (Change.approve id a hash expires t _ _) = kept
fallback_step d d' (Change.deny id a reason t _ _) = kept
fallback_step d d' (Change.consume a t _ _ _) = kept
fallback_step d d' (Change.claim q id max_attempts approval t _ _) = kept
fallback_step d d' (Change.retry e t _ _ _) = kept
fallback_step d d' (Change.complete id e receipt t _ _) = kept
fallback_step d d' (Change.lose id e error t _ _) = kept
fallback_step d d' (Change.reconcile id e outcome evidence t _ _) = kept
fallback_step d d' (Change.other aside) = let same = Aside-SameCore d d' aside in same.fallbacks

All-Appended :
    {A : Type 0} (P : A → Type 0) (xs ys : List A) → Appended P xs ys → All P xs → All P ys
All-Appended P xs ys kept h = h
All-Appended P xs ys (appended x p) h = All-append P xs x h p

In-Appended :
    {A : Type 0} (P : A → Type 0) (xs ys : List A) (x : A) → Appended P xs ys → In x xs → In x ys
In-Appended P xs ys x kept i = i
In-Appended P xs ys x (appended y p) i = In-append xs (y ∷ []) x i

-- Each exit is accounted for, and each fallback is reasoned.
abbrev pub LedgersValid : Db → Type 0
LedgersValid d = All Accounted d.provider_exits × All Reasoned d.provider_fallbacks

ledgers_kept : (d d' : Db) → Change d d' → LedgersValid d → LedgersValid d'
ledgers_kept d d' c (exits, fallbacks) = (
  All-Appended Accounted _ _ (exit_step d d' c) exits,
  All-Appended Reasoned _ _ (fallback_step d d' c) fallbacks,
)

-- After any history of calls on a fresh owner, every Provider exit leaves the residue at the Provider
-- unknown, and is an inventory whose statuses are all unknown or is backed by the account's owner; and
-- every fallback has a reason, and is a fallback or a safe stop.
pub ledgers_valid : (env : Env) (calls : List Call) → LedgersValid (after env calls)
ledgers_valid env calls = always LedgersValid ledgers_kept (tt, tt) env calls

-- Whatever calls are made on an owner, a Provider exit that has been recorded stays as it is.
pub exit_stays :
    (s : Owner) (calls : List Call) (x : ProviderExit)
    → In x s.db.provider_exits
    → In x (perform_all calls s).db.provider_exits
exit_stays s calls x i =
    along (λ d. In x d.provider_exits)
      (λ d d' c j. In-Appended Accounted d.provider_exits d'.provider_exits x (exit_step d d' c) j)
      s.db (perform_all calls s).db (perform_all-Changes calls s) i
