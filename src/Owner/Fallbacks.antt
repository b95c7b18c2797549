-- ===== src/Owner/Fallbacks.antt =====
-- The ledger of Provider fallbacks (src/zworkbench/composition.py): `record_provider_fallback` and its
pub mod Follow
use zworkbench.Owner.Retries.{require_optional_text}
use zworkbench.Common.Tables.{select, exists, sort_by, find}
use zworkbench.Common.Int.{ℤ}
use zworkbench.Owner.Exits.{exits_code, check_fingerprint}
use zworkbench.Common.Text.{text_lt, is_blank}
use zworkbench.Json.{field, int, optional_text, text, end, obj}
use zworkbench.Owner.State.{ProviderFallback, Db}
use zworkbench.Owner.Core.{
  require_non_negative, append_event, transaction, run_row, reject_raw_credentials,
  require_connection, require_text,
}
use zworkbench.Exec.{
  ◌>>=◌, ◌>>◌, value_error, or_raise, sqlite_integrity, now, Exec, not_found, query, raise_if,
  write, new_id,
}
use zworkbench.Common.{
  ◌&&◌, Bool, ltb, nat_eq, ℕ, ◌∷◌, [], ◌==◌, Option, ◌++◌, String, List, not, ◌||◌,
}

-- readings.

-- The arguments of `record_provider_fallback`.
pub record FallbackReport : Type 0 where
  pub run_id : String
  pub from_provider : Option String
  pub to_provider : Option String
  pub reason : String
  pub degradation_mode : String
  pub attempt : ℤ
  pub failure_code : Option String
  pub http_status : Option ℤ
  pub local_state_fingerprint : String

abbrev pub is_degradation : String → Bool
is_degradation mode = mode == "fallback" || mode == "safe_stop"

unfoldable pub add_fallback : ProviderFallback → Db → Db
add_fallback x d = record d { provider_fallbacks = d.provider_fallbacks ++ x ∷ [] }

-- `get_provider_fallback_ledger`
unfoldable pub get_provider_fallback_ledger : String → Exec ProviderFallback
get_provider_fallback_ledger ledger_id = do
  require_connection
  found ← query (λ d. find (λ x. x.ledger_id == ledger_id) d.provider_fallbacks)
  or_raise found not_found

abbrev pub new_fallback : FallbackReport → ℕ → ℕ → String → ProviderFallback
new_fallback q attempt timestamp ledger_id = record {
  ledger_id = ledger_id;
  run_id = q.run_id;
  from_provider = q.from_provider;
  to_provider = q.to_provider;
  reason = q.reason;
  degradation_mode = q.degradation_mode;
  attempt = attempt;
  failure_code = q.failure_code;
  http_status = q.http_status;
  local_state_fingerprint = q.local_state_fingerprint;
  recorded_at = timestamp;
}

-- The transaction of `record_provider_fallback`
unfoldable pub insert_fallback : ProviderFallback → Exec String
insert_fallback x = do
  run_row x.run_id
  conflict ← query (λ d. exists (λ y. y.ledger_id == x.ledger_id) d.provider_fallbacks)
  raise_if conflict sqlite_integrity
  write (add_fallback x)
  append_event x.run_id "provider.fallback.ledger.recorded" (
      field "ledger_id" (text x.ledger_id) (
        field "from_provider" (optional_text x.from_provider) (
          field "to_provider" (optional_text x.to_provider) (
            field "reason" (text x.reason) (
              field "degradation_mode" (text x.degradation_mode)
                (field "attempt" (int x.attempt) end))))))

-- `record_provider_fallback`
unfoldable pub record_provider_fallback : FallbackReport → Exec ProviderFallback
record_provider_fallback q = do
  require_text q.run_id
  require_optional_text q.from_provider
  require_optional_text q.to_provider
  raise_if (is_blank q.reason) value_error
  raise_if (not (is_degradation q.degradation_mode)) value_error
  attempt ← require_non_negative q.attempt
  require_optional_text q.failure_code
  check_fingerprint q.local_state_fingerprint
  reject_raw_credentials (
      obj (
        field "from_provider" (optional_text q.from_provider) (
          field "to_provider" (optional_text q.to_provider) (
            field "reason" (text q.reason)
              (field "failure_code" (optional_text q.failure_code) end)))))
  timestamp ← now
  ledger_id ← new_id
  transaction (insert_fallback (new_fallback q attempt timestamp ledger_id))
  get_provider_fallback_ledger ledger_id

-- ORDER BY recorded_at, attempt, ledger_id
unfoldable pub fallback_before : ProviderFallback → ProviderFallback → Bool
unfolding text_lt
fallback_before x y =
    ltb x.recorded_at y.recorded_at
    || nat_eq x.recorded_at y.recorded_at
      && (ltb x.attempt y.attempt || nat_eq x.attempt y.attempt && text_lt x.ledger_id y.ledger_id)

-- `provider_fallback_ledger_for_run`
unfoldable pub provider_fallback_ledger_for_run : String → Exec (List ProviderFallback)
provider_fallback_ledger_for_run run_id = do
  require_connection
  run_row run_id
  query (λ d. sort_by fallback_before (select (λ x. x.run_id == run_id) d.provider_fallbacks))

-- Opens the code of this module, for a run of it.
unfoldable pub fallbacks_code : Unit {0}
unfolding exits_code add_fallback get_provider_fallback_ledger insert_fallback
    record_provider_fallback provider_fallback_ledger_for_run
fallbacks_code = tt
