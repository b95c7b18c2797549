-- ===== src/Owner/Exits/Follow.antt =====
-- The ledger of Provider exits keeps to the contract of Owner/Change.
use zworkbench.Owner.State.{ProviderExit}
use zworkbench.Owner.Core.Steps.{run_row-Follows, append_event-Obeys, run_row-Known}
use zworkbench.Owner.Rules.{
  Follows-guard, Follows-connection, Follows-or_raise, Follows-ask, Follows-query,
  Follows-credentials, Follows-new_id, Follows-now, Follows-pure, Follows-bind, Obeys,
  Follows-transaction, Follows-raise, Follows-text, Follows, Follows-when,
}
use zworkbench.Owner.Exits.{
  characters, record_provider_exit_ledger, items_or_empty, provider_exit_ledger_for_run,
  record_provider_exit_ledger_once, first_or_record, fields_or_empty, keys, check_fingerprint,
  get_provider_exit_ledger, insert_exit, inventoried, attach_provider_exit_receipt, ExitReport,
}
use zworkbench.Common.{List, some, inr, none, String, Option, ◌∷◌, refl, inl, ◌==◌, []}
use zworkbench.Json.{Fields, obj, nil, text, Value, int, arr, cons, null, bool, literal, end}
use zworkbench.Owner.Aside.{Accounted, Aside}
use zworkbench.Owner.Change.{Change, Changes, next}
use zworkbench.Exec.Does.{does_bind, does_write, does_fresh}

insert_exit-Obeys :
    (x : ProviderExit) (payload : Fields) → Accounted x → Obeys (insert_exit x payload)
unfolding insert_exit
insert_exit-Obeys x payload accounted d = does_bind (run_row-Known x.run_id) λ row.
    does_fresh _ _ λ _.
      does_bind
        (does_write {Q = Changes d} _
          λ d' h. next h.0.0 (Change.other (Aside.report_exit x accounted (row, h.0.1) h.1)))
        λ _. append_event-Obeys x.run_id "provider.exit.ledger.recorded" payload d

pub check_fingerprint-Follows : (s : String) → Follows (check_fingerprint s)
unfolding check_fingerprint
check_fingerprint-Follows s =
    Follows-when (s == "unknown") (Follows-pure tt)
      (Follows-bind (Follows-text _) λ _. Follows-guard _ _)

get_provider_exit_ledger-Follows : (id : String) → Follows (get_provider_exit_ledger id)
unfolding get_provider_exit_ledger
get_provider_exit_ledger-Follows id =
    Follows-bind Follows-connection
      λ _. Follows-bind (Follows-query _) λ found. Follows-or_raise found _

pub record_provider_exit_ledger-Follows : (q : ExitReport) → Follows (record_provider_exit_ledger q)
unfolding record_provider_exit_ledger
record_provider_exit_ledger-Follows q = Follows-bind (Follows-text _) λ _.
    Follows-bind (Follows-credentials _) λ _. Follows-bind (check_fingerprint-Follows _) λ _.
      Follows-bind (Follows-ask _) λ repr. Follows-bind Follows-now λ t.
        Follows-bind Follows-new_id λ id.
          Follows-bind
            (Follows-transaction (
              insert_exit-Obeys (inventoried q repr t id) _
                (record { is_delegated = refl; has_evidence = inl (refl, refl, refl) })))
            λ _. get_provider_exit_ledger-Follows id

pub record_provider_exit_ledger_once-Follows :
    (q : ExitReport) → Follows (record_provider_exit_ledger_once q)
unfolding record_provider_exit_ledger_once provider_exit_ledger_for_run
record_provider_exit_ledger_once-Follows q =
    Follows-bind
      (Follows-bind Follows-connection λ _. Follows-bind (run_row-Follows _) λ row. Follows-query _)
      by_entries
  where
    by_entries : (xs : List ProviderExit) → Follows (first_or_record q xs)
    by_entries [] = record_provider_exit_ledger-Follows q
    by_entries (x ∷ xs) = Follows-pure x

fields_or_empty-Follows : (v : Option Value) → Follows (fields_or_empty v)
unfolding fields_or_empty
fields_or_empty-Follows none = Follows-pure end
fields_or_empty-Follows (some (obj fs)) = Follows-pure fs
fields_or_empty-Follows (some (text s)) = Follows-when _ (Follows-pure end) (Follows-raise _)
fields_or_empty-Follows (some (arr nil)) = Follows-pure end
fields_or_empty-Follows (some (arr (cons v vs))) = Follows-raise _
fields_or_empty-Follows (some null) = Follows-when _ (Follows-raise _) (Follows-pure end)
fields_or_empty-Follows (some (bool b)) = Follows-when _ (Follows-raise _) (Follows-pure end)
fields_or_empty-Follows (some (int n)) = Follows-when _ (Follows-raise _) (Follows-pure end)
fields_or_empty-Follows (some (literal s)) = Follows-when _ (Follows-raise _) (Follows-pure end)

items_or_empty-Follows : (v : Option Value) → Follows (items_or_empty v)
unfolding items_or_empty
items_or_empty-Follows none = Follows-pure nil
items_or_empty-Follows (some (arr vs)) = Follows-pure vs
items_or_empty-Follows (some (text s)) = Follows-pure (characters s)
items_or_empty-Follows (some (obj fs)) = Follows-pure (keys fs)
items_or_empty-Follows (some null) = Follows-when _ (Follows-raise _) (Follows-pure nil)
items_or_empty-Follows (some (bool b)) = Follows-when _ (Follows-raise _) (Follows-pure nil)
items_or_empty-Follows (some (int n)) = Follows-when _ (Follows-raise _) (Follows-pure nil)
items_or_empty-Follows (some (literal s)) = Follows-when _ (Follows-raise _) (Follows-pure nil)

pub attach_provider_exit_receipt-Follows :
    (run_id : String) (receipt : Fields) → Follows (attach_provider_exit_receipt run_id receipt)
unfolding attach_provider_exit_receipt
attach_provider_exit_receipt-Follows run_id receipt = Follows-bind (Follows-text _) λ _.
    Follows-bind (Follows-guard _ _) λ _. Follows-bind (Follows-guard _ _) λ _.
      Follows-bind (Follows-guard _ _) λ _. Follows-bind (Follows-ask _) λ repr.
        Follows-bind (fields_or_empty-Follows _) λ observations.
          Follows-bind (fields_or_empty-Follows _) λ statuses.
            Follows-bind (items_or_empty-Follows _) λ unknown_fields. Follows-bind Follows-now λ t.
              Follows-bind Follows-new_id λ id.
                Follows-bind
                  (Follows-transaction (
                    insert_exit-Obeys _ _
                      (record { is_delegated = refl; has_evidence = inr refl })))
                  λ _. get_provider_exit_ledger-Follows id
