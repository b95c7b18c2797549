-- ===== src/Owner/Fallbacks/Follow.antt =====
-- The ledger of Provider fallbacks keeps to the contract of Owner/Change.
use zworkbench.Owner.Exits.Follow.{check_fingerprint-Follows}
use zworkbench.Owner.Retries.Follow.{optional_text-Follows}
use zworkbench.Owner.State.{ProviderFallback}
use zworkbench.Owner.Core.Steps.{append_event-Obeys, run_row-Known}
use zworkbench.Owner.Aside.{Reasoned, Aside}
use zworkbench.Owner.Change.{Changes, Change, next}
use zworkbench.Common.{sym, not, refl, false, Bool, true, ◌≡◌}
use zworkbench.Exec.Does.{does_bind, does_write, does_fresh}
use zworkbench.Owner.Rules.{
  Follows-guard, Follows-with, Follows-transaction, Follows-credentials, Follows-non_negative,
  Follows-new_id, Follows-now, Follows-query, Follows-connection, Follows-text, Follows,
  Follows-bind, Follows-or_raise, Obeys, yields_guard,
}
use zworkbench.Owner.Fallbacks.{
  new_fallback, insert_fallback, is_degradation, get_provider_fallback_ledger,
  record_provider_fallback, FallbackReport,
}

insert_fallback-Obeys : (x : ProviderFallback) → Reasoned x → Obeys (insert_fallback x)
unfolding insert_fallback
insert_fallback-Obeys x reasoned d = does_bind (run_row-Known x.run_id) λ row. does_fresh _ _ λ _.
    does_bind
      (does_write {Q = Changes d} _
        λ d' h. next h.0.0 (Change.other (Aside.report_fallback x reasoned (row, h.0.1) h.1)))
      λ _. append_event-Obeys x.run_id "provider.fallback.ledger.recorded" _ d

pub record_provider_fallback-Follows : (q : FallbackReport) → Follows (record_provider_fallback q)
unfolding record_provider_fallback get_provider_fallback_ledger
record_provider_fallback-Follows q = Follows-bind (Follows-text _) λ _.
    Follows-bind (optional_text-Follows _) λ _. Follows-bind (optional_text-Follows _) λ _.
      Follows-with (Follows-guard _ _) (yields_guard _ _) λ _ reason.
        Follows-with (Follows-guard _ _) (yields_guard _ _) λ _ mode.
          Follows-bind (Follows-non_negative _) λ attempt.
            Follows-bind (optional_text-Follows _) λ _.
              Follows-bind (check_fingerprint-Follows _) λ _.
                Follows-bind (Follows-credentials _) λ _. Follows-bind Follows-now λ t.
                  Follows-bind Follows-new_id λ id.
                    Follows-bind
                      (Follows-transaction (
                        insert_fallback-Obeys (new_fallback q attempt t id)
                          (reason, not-false (is_degradation q.degradation_mode) mode)))
                      λ _.
                        Follows-bind Follows-connection
                          λ _. Follows-bind (Follows-query _) λ found. Follows-or_raise found _
  where
    not-false : (b : Bool) → not b ≡ false → b ≡ true
    not-false true h = refl
    not-false false h = sym h
