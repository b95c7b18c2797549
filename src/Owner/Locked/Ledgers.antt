-- ===== src/Owner/Locked/Ledgers.antt =====
-- The ledgers of Provider exits and fallbacks without the caller (src/zworkbench/composition.py).
use zworkbench.Owner.State.{ProviderExit}
use zworkbench.Owner.Locked.{Inert, inert_rules}
use zworkbench.Owner.Retries.{require_optional_text}
use zworkbench.Owner.Fallbacks.{
  FallbackReport, get_provider_fallback_ledger, record_provider_fallback,
}
use zworkbench.Owner.Core.{run_row}
use zworkbench.Json.{arr, nil, text, literal, obj, Fields, Value, cons, bool, null, int}
use zworkbench.Common.{List, [], Option, none, some, ◌∷◌, String}
use zworkbench.Owner.Exits.{
  record_provider_exit_ledger_once, get_provider_exit_ledger, record_provider_exit_ledger,
  ExitReport, fields_or_empty, first_or_record, check_fingerprint, provider_exit_ledger_for_run,
  attach_provider_exit_receipt, items_or_empty,
}

pub run_row-Inert : (id : String) → Inert (run_row id)
unfolding run_row
run_row-Inert id = search inert_rules

pub optional_text-Inert : (s : Option String) → Inert (require_optional_text s)
optional_text-Inert none = search inert_rules
optional_text-Inert (some s) = search inert_rules

ruleset ledger_parts = (run_row-Inert, optional_text-Inert)

check_fingerprint-Inert : (s : String) → Inert (check_fingerprint s)
unfolding check_fingerprint
check_fingerprint-Inert s = search inert_rules depth 12

get_exit-Inert : (id : String) → Inert (get_provider_exit_ledger id)
unfolding get_provider_exit_ledger
get_exit-Inert id = search inert_rules depth 12

pub record_provider_exit_ledger-Inert : (a : ExitReport) → Inert (record_provider_exit_ledger a)
unfolding record_provider_exit_ledger
record_provider_exit_ledger-Inert a =
    search (inert_rules, ledger_parts, check_fingerprint-Inert, get_exit-Inert) depth 30

first_or_record-Inert : (a : ExitReport) (xs : List ProviderExit) → Inert (first_or_record a xs)
first_or_record-Inert a [] = record_provider_exit_ledger-Inert a
first_or_record-Inert a (x ∷ xs) = search inert_rules

pub record_provider_exit_ledger_once-Inert :
    (a : ExitReport) → Inert (record_provider_exit_ledger_once a)
unfolding record_provider_exit_ledger_once provider_exit_ledger_for_run
record_provider_exit_ledger_once-Inert a =
    search (inert_rules, ledger_parts, first_or_record-Inert) depth 30

fields_or_empty-Inert : (v : Option Value) → Inert (fields_or_empty v)
unfolding fields_or_empty
fields_or_empty-Inert none = search inert_rules
fields_or_empty-Inert (some (obj fs)) = search inert_rules
fields_or_empty-Inert (some (text s)) = search inert_rules
fields_or_empty-Inert (some (arr nil)) = search inert_rules
fields_or_empty-Inert (some (arr (cons v vs))) = search inert_rules
fields_or_empty-Inert (some null) = search inert_rules
fields_or_empty-Inert (some (bool b)) = search inert_rules
fields_or_empty-Inert (some (int n)) = search inert_rules
fields_or_empty-Inert (some (literal s)) = search inert_rules

items_or_empty-Inert : (v : Option Value) → Inert (items_or_empty v)
unfolding items_or_empty
items_or_empty-Inert none = search inert_rules
items_or_empty-Inert (some (obj fs)) = search inert_rules
items_or_empty-Inert (some (text s)) = search inert_rules
items_or_empty-Inert (some (arr vs)) = search inert_rules
items_or_empty-Inert (some null) = search inert_rules
items_or_empty-Inert (some (bool b)) = search inert_rules
items_or_empty-Inert (some (int n)) = search inert_rules
items_or_empty-Inert (some (literal s)) = search inert_rules

pub attach_provider_exit_receipt-Inert :
    (a : String) (b : Fields) → Inert (attach_provider_exit_receipt a b)
unfolding attach_provider_exit_receipt
attach_provider_exit_receipt-Inert a b =
    search (inert_rules, ledger_parts, fields_or_empty-Inert, items_or_empty-Inert, get_exit-Inert)
      depth 40

get_fallback-Inert : (id : String) → Inert (get_provider_fallback_ledger id)
unfolding get_provider_fallback_ledger
get_fallback-Inert id = search inert_rules depth 12

pub record_provider_fallback-Inert : (a : FallbackReport) → Inert (record_provider_fallback a)
unfolding record_provider_fallback
record_provider_fallback-Inert a =
    search (inert_rules, ledger_parts, check_fingerprint-Inert, get_fallback-Inert) depth 40
