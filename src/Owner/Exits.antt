-- ===== src/Owner/Exits.antt =====
-- The ledger of Provider exits (src/zworkbench/composition.py): `record_provider_exit_ledger`,
pub mod Follow
pub mod Once
use zworkbench.Credentials.{secret_shaped}
use zworkbench.Owner.State.{Db, ProviderExit}
use zworkbench.Common.Text.{is_digit, text_lt, codes}
use zworkbench.Owner.Core.{
  core_code, require_text, append_event, require_connection, reject_raw_credentials, transaction,
  run_row,
}
use zworkbench.Common.Tables.{length, exists, sort_by, find, select}
use zworkbench.Common.{
  ℕ, [], Option, none, false, ◌==◌, ◌||◌, some, ◌++◌, not, if◌then◌else◌, ◌&&◌, true, List, Bool,
  nat_eq, String, leb, ◌∷◌, ltb,
}
use zworkbench.Json.{
  get, arr, Fields, text, Items, canonical_fields, canonical_items, end, truthy, obj, field, cons,
  Value, nil,
}
use zworkbench.Exec.{
  ◌>>=◌, ◌>>◌, query, when◌then◌else◌, pure, raise_if, now, write, type_error, not_found, ask,
  sqlite_integrity, Exec, or_raise, raise, new_id, value_error,
}

-- `record_provider_exit_ledger_once` and `attach_provider_exit_receipt`, with their readings.
-- A receipt is a JSON object. `dict` of a list of pairs, which Python would take, is refused here.

-- [0-9a-fA-F]
unfoldable pub is_hex : ℕ → Bool
unfolding is_digit
is_hex c = is_digit c || (leb b'a' c && leb c b'f') || (leb b'A' c && leb c b'F')

unfoldable pub all_hex : List ℕ → Bool
unfolding is_hex
all_hex [] = true
all_hex (c ∷ cs) = is_hex c && all_hex cs

-- `_HEX64.fullmatch`
unfoldable pub is_hex64 : String → Bool
unfolding all_hex
is_hex64 s = nat_eq (length (codes s)) 64 && all_hex (codes s)

-- The check of `local_state_fingerprint`
unfoldable pub check_fingerprint : String → Exec (Unit {0})
check_fingerprint s =
    when s == "unknown" then pure tt else do require_text s; raise_if (not (is_hex64 s)) value_error

abbrev pub truthy_text : (Value → String) → String → Value → String
truthy_text repr default (text s) = if s == "" then default else s
truthy_text repr default v = if truthy v then repr v else default

-- `str(d.get(key) or default)`: `str` of what is no text is its `repr`.
unfoldable pub text_or : (Value → String) → String → Option Value → String
unfolding truthy
text_or repr default none = default
text_or repr default (some v) = truthy_text repr default v

-- `dict(d.get(key) or {})`
unfoldable pub fields_or_empty : Option Value → Exec Fields
fields_or_empty none = pure end
fields_or_empty (some (obj fs)) = pure fs
fields_or_empty (some (text s)) = when s == "" then pure end else raise value_error
fields_or_empty (some (arr nil)) = pure end
fields_or_empty (some (arr (cons v vs))) = raise value_error
fields_or_empty (some v) = when truthy v then raise type_error else pure end

unfoldable pub characters : String → Items
characters String.[] = nil
characters (String.◌∷◌ c s) = cons (text (String.◌∷◌ c String.[])) (characters s)

unfoldable pub keys : Fields → Items
keys end = nil
keys (field k v fs) = cons (text k) (keys fs)

-- `list(d.get(key) or [])`
unfoldable pub items_or_empty : Option Value → Exec Items
items_or_empty none = pure nil
items_or_empty (some (arr vs)) = pure vs
items_or_empty (some (text s)) = pure (characters s)
items_or_empty (some (obj fs)) = pure (keys fs)
items_or_empty (some v) = when truthy v then raise type_error else pure nil

abbrev pub unknown_status : String → Fields → Fields
unknown_status k fs = field k (text "unknown") fs

-- The statuses of an exit that is only inventoried, in the order of their names
abbrev pub unknown_statuses : Fields
unknown_statuses = unknown_status "account" (
    unknown_status "api_key" (
      unknown_status "backup_or_snapshot" (
        unknown_status "billing" (
          unknown_status "coding_data" (
            unknown_status "exit_action" (
              unknown_status "local_case" (
                unknown_status "subscription" (
                  unknown_status "task_or_run" (unknown_status "webhook_or_integration" end)))))))))

abbrev pub unknown_observations : Fields
unknown_observations =
    unknown_status "backup_or_snapshot"
      (unknown_status "retention_policy" (unknown_status "task_or_run" end))

-- `provider_remote_zero_residue`, the one value that is ever stored
abbrev pub delegated : String
delegated = "unknown/delegated"

unfoldable pub add_exit : ProviderExit → Db → Db
add_exit x d = record d { provider_exits = d.provider_exits ++ x ∷ [] }

-- `get_provider_exit_ledger`
unfoldable pub get_provider_exit_ledger : String → Exec ProviderExit
get_provider_exit_ledger ledger_id = do
  require_connection
  found ← query (λ d. find (λ x. x.ledger_id == ledger_id) d.provider_exits)
  or_raise found not_found

-- INSERT INTO provider_exit_ledger, where `ledger_id` is the primary key, and its event
unfoldable pub insert_exit : ProviderExit → Fields → Exec String
insert_exit x payload = do
  run_row x.run_id
  conflict ← query (λ d. exists (λ y. y.ledger_id == x.ledger_id) d.provider_exits)
  raise_if conflict sqlite_integrity
  write (add_exit x)
  append_event x.run_id "provider.exit.ledger.recorded" payload

-- The arguments of `record_provider_exit_ledger`.
pub record ExitReport : Type 0 where
  pub run_id : String
  pub provider_identity : Fields
  pub caliber : String
  pub local_state_fingerprint : String

abbrev pub inventoried : ExitReport → (Value → String) → ℕ → String → ProviderExit
inventoried q repr timestamp ledger_id = record {
  ledger_id = ledger_id;
  run_id = q.run_id;
  provider = text_or repr "unknown" (get "provider" q.provider_identity);
  endpoint = text_or repr "unknown" (get "endpoint" q.provider_identity);
  account_scope = "unknown";
  exit_mode = "inventory-only";
  exit_status = "unknown/safe-stop";
  provider_remote_zero_residue = delegated;
  surface_observations = unknown_observations;
  statuses = unknown_statuses;
  unknown_fields = keys unknown_statuses;
  local_state_fingerprint = q.local_state_fingerprint;
  evidence_class = "local-inventory";
  recorded_at = timestamp;
}

-- `record_provider_exit_ledger`
unfoldable pub record_provider_exit_ledger : ExitReport → Exec ProviderExit
record_provider_exit_ledger q = do
  require_text q.run_id
  reject_raw_credentials (obj q.provider_identity)
  check_fingerprint q.local_state_fingerprint
  repr ← ask (λ env. env.repr)
  timestamp ← now
  ledger_id ← new_id
  let row = inventoried q repr timestamp ledger_id
  transaction (
      insert_exit row (
        field "ledger_id" (text ledger_id) (
          field "provider" (text row.provider) (
            field "caliber" (text q.caliber)
              (field "provider_remote_zero_residue" (text delegated) end)))))
  get_provider_exit_ledger ledger_id

-- ORDER BY recorded_at, ledger_id
unfoldable pub exit_before : ProviderExit → ProviderExit → Bool
unfolding text_lt
exit_before x y =
    ltb x.recorded_at y.recorded_at
    || nat_eq x.recorded_at y.recorded_at && text_lt x.ledger_id y.ledger_id

unfoldable pub exits_of : String → Db → List ProviderExit
unfolding sort_by exit_before
exits_of run_id d = sort_by exit_before (select (λ x. x.run_id == run_id) d.provider_exits)

-- `provider_exit_ledger_for_run`
unfoldable pub provider_exit_ledger_for_run : String → Exec (List ProviderExit)
provider_exit_ledger_for_run run_id = do require_connection; run_row run_id; query (exits_of run_id)

abbrev pub first_or_record : ExitReport → List ProviderExit → Exec ProviderExit
first_or_record q [] = record_provider_exit_ledger q
first_or_record q (x ∷ xs) = pure x

-- `record_provider_exit_ledger_once`
unfoldable pub record_provider_exit_ledger_once : ExitReport → Exec ProviderExit
record_provider_exit_ledger_once q = do
  existing ← provider_exit_ledger_for_run q.run_id
  first_or_record q existing

abbrev pub is_text : String → Option Value → Bool
is_text s (some (text t)) = t == s
is_text s _ = false

abbrev pub receipt_schema : String
receipt_schema = "zworkbench-provider-exit-receipt/v2"

-- `attach_provider_exit_receipt`
unfoldable pub attach_provider_exit_receipt : String → Fields → Exec ProviderExit
attach_provider_exit_receipt run_id receipt = do
  require_text run_id
  raise_if (not (is_text receipt_schema (get "schema" receipt))) value_error
  raise_if (not (is_text delegated (get "provider_remote_zero_residue" receipt))) value_error
  raise_if (secret_shaped (obj receipt)) value_error
  repr ← ask (λ env. env.repr)
  surface_observations ← fields_or_empty (get "surface_observations" receipt)
  statuses ← fields_or_empty (get "statuses" receipt)
  unknown_fields ← items_or_empty (get "unknown_fields" receipt)
  timestamp ← now
  ledger_id ← new_id
  let provider = text_or repr "unknown" (get "provider" receipt)
  transaction (
      insert_exit
        (record {
          ledger_id = ledger_id;
          run_id = run_id;
          provider = provider;
          endpoint = text_or repr "unknown" (get "endpoint" receipt);
          account_scope = text_or repr "unknown" (get "account_scope" receipt);
          exit_mode = text_or repr "authorized-manual-exit" (get "exit_mode" receipt);
          exit_status = text_or repr "unknown/safe-stop" (get "exit_status" receipt);
          provider_remote_zero_residue = delegated;
          surface_observations = canonical_fields surface_observations;
          statuses = canonical_fields statuses;
          unknown_fields = canonical_items unknown_fields;
          local_state_fingerprint = text_or repr "unknown" (get "local_state_fingerprint" receipt);
          evidence_class = "owner-backed";
          recorded_at = timestamp;
        })
        (field "ledger_id" (text ledger_id) (
          field "provider" (text provider) (
            field "evidence_class" (text "owner-backed") (
              field "evidence_fingerprint"
                (text (text_or repr "unknown" (get "evidence_fingerprint" receipt)))
                (field "provider_remote_zero_residue" (text delegated) end))))))
  get_provider_exit_ledger ledger_id

-- Opens the code of this module, for a run of it.
unfoldable pub exits_code : Unit {0}
unfolding core_code check_fingerprint is_hex64 text_or fields_or_empty items_or_empty add_exit
    get_provider_exit_ledger insert_exit record_provider_exit_ledger provider_exit_ledger_for_run
    exits_of record_provider_exit_ledger_once attach_provider_exit_receipt
exits_code = tt
