-- ===== src/Owner/Invariants/Evidence.antt =====
-- The rows of `events` and `results` (src/zworkbench/composition.py): none holds a credential, each
-- names a known source, and the ledger of events only grows.
use mathlib.Core.List.{append-nil, append_assoc}
use zworkbench.Owner.Aside.{Aside-SameCore}
use zworkbench.Owner.Claim.Existing.{put_retry}
use zworkbench.Json.Canonical.{raw_credential-canonical_json}
use zworkbench.Owner.Claim.Token.{put_consumed}
use zworkbench.Credentials.{raw_credential}
use zworkbench.Common.Unique.{exists-none, Apart-append, Apart}
use zworkbench.Owner.Claim.Fresh.{add_effect}
use zworkbench.Owner.Runs.{add_run}
use zworkbench.Owner.Effects.{put_reconciled, put_uncertain, put_completed}
use zworkbench.Owner.Api.{Call, perform_all}
use zworkbench.Common.Tables.{All, All-append}
use zworkbench.Owner.Api.Follow.{perform_all-Changes}
use zworkbench.Owner.Core.{is_evidence_source, add_event, add_result, put_status}
use zworkbench.Json.{Value, canonical_json}
use zworkbench.Owner.Approvals.{put_approved, add_approval, put_denied}
use zworkbench.Common.{
  ◌≡◌, refl, sym, subst, ap, ◌∙◌, true, false, String, List, [], ◌==◌, ◌++◌, ◌∷◌,
}
use zworkbench.Owner.State.{Env, Db, Event, Owner}
use zworkbench.Owner.Change.{Change, Changes, here, next}
use zworkbench.Owner.Invariants.{after, always}

-- What a stored value and its source satisfy.
abbrev pub Clean : Value → String → Type 0
Clean stored source = (raw_credential stored ≡ false) × (is_evidence_source source ≡ true)

abbrev pub EvidenceValid : Db → Type 0
EvidenceValid d =
    Apart (λ e f. (e.event_id == f.event_id) ≡ false) d.events
    × All (λ e. Clean e.payload e.evidence_source) d.events
    × All (λ r. Clean r.value r.evidence_source) d.results

Clean-stored :
    (stored value : Value) (source : String)
    → stored ≡ canonical_json value
    → raw_credential value ≡ false
    → is_evidence_source source ≡ true
    → Clean stored source
Clean-stored stored value source same clean known =
    (ap raw_credential same ∙ raw_credential-canonical_json value ∙ clean, known)

evidence_kept : (d d' : Db) → Change d d' → EvidenceValid d → EvidenceValid d'
unfolding add_run put_status add_event add_result add_approval put_approved put_denied put_consumed
    add_effect put_retry put_completed put_uncertain put_reconciled
evidence_kept d d' (Change.create r _ _) v = v
evidence_kept d d' (Change.move id row status t _ _) v = v
evidence_kept d d' (Change.rearm id row t _ _) v = v
evidence_kept d d' (Change.log e payload same clean known fresh _) v = (
  Apart-append _ d.events e v.0 (exists-none _ d.events fresh),
  All-append _ d.events e v.1 (Clean-stored e.payload payload _ same clean known),
  v.2,
)
evidence_kept d d' (Change.result r value same clean known) v =
    (v.0, v.1, All-append _ d.results r v.2 (Clean-stored r.value value _ same clean known))
evidence_kept d d' (Change.request q id t _) v = v
evidence_kept d d' (Change.approve id a hash expires t _ _) v = v
evidence_kept d d' (Change.deny id a reason t _ _) v = v
evidence_kept d d' (Change.consume a t _ _ _) v = v
evidence_kept d d' (Change.claim q id max_attempts approval t _ _) v = v
evidence_kept d d' (Change.retry e t _ _ _) v = v
evidence_kept d d' (Change.complete id e receipt t _ _) v = v
evidence_kept d d' (Change.lose id e error t _ _) v = v
evidence_kept d d' (Change.reconcile id e outcome evidence t _ _) v = v
evidence_kept d d' (Change.other aside) v =
    let same = Aside-SameCore d d' aside in
    (
      subst (Apart _) (sym same.events) v.0,
      subst (All _) (sym same.events) v.1,
      subst (All _) (sym same.results) v.2,
    )

-- After any history of calls on a fresh owner, no stored event or result is one that the scan for
-- credentials refuses, each names a known evidence source, and no two events share an identity.
pub evidence_clean : (env : Env) (calls : List Call) → EvidenceValid (after env calls)
evidence_clean env calls = always EvidenceValid evidence_kept (tt, tt, tt) env calls

-- The events of the one list, and later ones.
abbrev pub Extends : List Event → List Event → Type 0
Extends es fs = (more : List Event) × (fs ≡ es ++ more)

Extends-self : (es : List Event) → Extends es es
Extends-self es = ([], sym (append-nil es))

Extends-trans : (es fs gs : List Event) → Extends es fs → Extends fs gs → Extends es gs
Extends-trans es fs gs (more, p) (later, q) =
    (more ++ later, q ∙ ap (λ l. l ++ later) p ∙ append_assoc es more later)

event_step : (d d' : Db) → Change d d' → Extends d.events d'.events
unfolding add_run put_status add_event add_result add_approval put_approved put_denied put_consumed
    add_effect put_retry put_completed put_uncertain put_reconciled
event_step d d' (Change.create r _ _) = Extends-self d.events
event_step d d' (Change.move id row status t _ _) = Extends-self d.events
event_step d d' (Change.rearm id row t _ _) = Extends-self d.events
event_step d d' (Change.log e payload same clean known fresh _) = (e ∷ [], refl)
event_step d d' (Change.result r value same clean known) = Extends-self d.events
event_step d d' (Change.request q id t _) = Extends-self d.events
event_step d d' (Change.approve id a hash expires t _ _) = Extends-self d.events
event_step d d' (Change.deny id a reason t _ _) = Extends-self d.events
event_step d d' (Change.consume a t _ _ _) = Extends-self d.events
event_step d d' (Change.claim q id max_attempts approval t _ _) = Extends-self d.events
event_step d d' (Change.retry e t _ _ _) = Extends-self d.events
event_step d d' (Change.complete id e receipt t _ _) = Extends-self d.events
event_step d d' (Change.lose id e error t _ _) = Extends-self d.events
event_step d d' (Change.reconcile id e outcome evidence t _ _) = Extends-self d.events
event_step d d' (Change.other aside) =
    let same = Aside-SameCore d d' aside in
    subst (Extends d.events) (sym same.events) (Extends-self d.events)

events_along : (d d' : Db) → Changes d d' → Extends d.events d'.events
events_along d d' here = Extends-self d.events
events_along d d'' (next {d'} cs c) =
    Extends-trans d.events d'.events d''.events (events_along d d' cs) (event_step d' d'' c)

-- Whatever calls are made on an owner, the ledger of events keeps all that it held, in its order,
-- and only new events follow.
pub events_appended :
    (s : Owner) (calls : List Call)
    → (more : List Event) × ((perform_all calls s).db.events ≡ s.db.events ++ more)
events_appended s calls = events_along s.db _ (perform_all-Changes calls s)
