-- ===== src/Owner/Evidence.antt =====
-- Evidence from adapters: `record_result`, `record_event` and `record_replay_metadata` of
-- src/zworkbench/composition.py.
pub mod Follow
use zworkbench.Owner.Core.{core_code}
use zworkbench.Common.{ℕ, String, Bool, not, ◌&&◌, ◌||◌, Option, none, some, [], ◌∷◌, ◌++◌, ◌==◌}
use zworkbench.Common.Tables.{find}
use zworkbench.Json.{Value, text, obj, Fields, end, field, canonical_json, same}
use zworkbench.Exec.{
  Exec, value_error, composition_error, pure, query, write, raise_if, ◌>>=◌, ◌>>◌, now,
}
use zworkbench.Owner.State.{Db, ResultRow, Event, Replay}
use zworkbench.Owner.Core.{
  transaction, require_text, run_row, append_event, append_event_as, record_result_tx,
  reject_raw_credentials, validate_evidence_source,
}

unfoldable pub record_result : String → String → Value → Option String → String → Exec ResultRow
record_result run_id kind value source_id evidence_source = do
  require_text kind
  reject_raw_credentials value
  validate_evidence_source evidence_source
  transaction (do run_row run_id; record_result_tx run_id kind value source_id evidence_source)

abbrev pub has_event_id : String → Event → Bool
has_event_id id e = e.event_id == id

-- The row is the one that the arguments describe.
unfoldable pub same_event : Event → String → String → Value → String → Bool
unfolding same canonical_json
same_event e run_id event_type payload evidence_source =
    e.run_id == run_id
    && (e.event_type == event_type
        && (same e.payload (canonical_json payload) && e.evidence_source == evidence_source))

unfoldable pub append_and_read :
    Option String → String → String → Value → String → Exec (Option Event)
append_and_read given run_id event_type payload evidence_source = do
  assigned_id ← append_event_as given run_id event_type payload evidence_source
  query (λ d. find (has_event_id assigned_id) d.events)

unfoldable pub replay_or_append :
    Option Event → Option String → String → String → Value → String → Exec (Option Event)
replay_or_append (some e) given run_id event_type payload evidence_source = do
  raise_if (not (same_event e run_id event_type payload evidence_source)) composition_error
  pure (some e)
replay_or_append none given run_id event_type payload evidence_source =
    append_and_read given run_id event_type payload evidence_source

unfoldable pub with_given_id :
    Option String → String → String → Value → String → Exec (Option Event)
with_given_id none run_id event_type payload evidence_source =
    append_and_read none run_id event_type payload evidence_source
with_given_id (some id) run_id event_type payload evidence_source = do
  existing ← query (λ d. find (has_event_id id) d.events)
  replay_or_append existing (some id) run_id event_type payload evidence_source

unfoldable pub require_given : Option String → Exec (Unit {0})
require_given none = pure tt
require_given (some id) = require_text id

unfoldable pub record_event :
    String → String → Fields → Option String → String → Exec (Option Event)
record_event run_id event_type payload event_id evidence_source = do
  require_text event_type
  reject_raw_credentials (obj payload)
  validate_evidence_source evidence_source
  require_given event_id
  transaction
      (do run_row run_id; with_given_id event_id run_id event_type (obj payload) evidence_source)

-- The arguments of `record_replay_metadata`; `metadata` is empty where none is given.
pub record ReplayRequest : Type 0 where
  pub run_id : String
  pub replay_id : String
  pub mode : String
  pub source_event_digest : String
  pub environment_digest : String
  pub provider_identity : Fields
  pub metadata : Fields

-- `REPLAY_MODES`
unfoldable pub is_replay_mode : String → Bool
is_replay_mode m = m == "recorded_view" || m == "simulated_replay" || m == "live_replay"

abbrev pub new_replay : ReplayRequest → ℕ → Replay
new_replay q timestamp = record {
  replay_id = q.replay_id;
  run_id = q.run_id;
  mode = q.mode;
  source_event_digest = q.source_event_digest;
  environment_digest = q.environment_digest;
  provider_identity = canonical_json (obj q.provider_identity);
  metadata = canonical_json (obj q.metadata);
  created_at = timestamp;
}

unfoldable pub same_replay : Replay → ReplayRequest → Bool
unfolding same canonical_json
same_replay r q =
    r.run_id == q.run_id
    && (r.mode == q.mode
        && (r.source_event_digest == q.source_event_digest
            && (r.environment_digest == q.environment_digest
                && (same r.provider_identity (canonical_json (obj q.provider_identity))
                    && same r.metadata (canonical_json (obj q.metadata))))))

unfoldable pub add_replay : Replay → Db → Db
add_replay r d = record d { replays = d.replays ++ r ∷ [] }

unfoldable pub replay_or_insert : Option Replay → ReplayRequest → ℕ → Exec Replay
replay_or_insert (some r) q timestamp = do
  raise_if (not (same_replay r q)) composition_error
  pure r
replay_or_insert none q timestamp = do
  write (add_replay (new_replay q timestamp))
  append_event q.run_id "replay.metadata.recorded" (
      field "replay_id" (text q.replay_id) (
        field "mode" (text q.mode) (
          field "source_event_digest" (text q.source_event_digest)
            (field "environment_digest" (text q.environment_digest) end))))
  pure (new_replay q timestamp)

unfoldable pub record_replay_metadata : ReplayRequest → Exec Replay
record_replay_metadata q = do
  require_text q.replay_id
  require_text q.source_event_digest
  require_text q.environment_digest
  raise_if (not (is_replay_mode q.mode)) value_error
  timestamp ← now
  reject_raw_credentials (obj q.provider_identity)
  reject_raw_credentials (obj q.metadata)
  transaction (do
    run_row q.run_id
    existing ← query (λ d. find (λ r. r.replay_id == q.replay_id) d.replays)
    replay_or_insert existing q timestamp)

-- Opens the code of this module, for a run of it.
unfoldable pub evidence_code : Unit {0}
unfolding core_code record_result same_event append_and_read replay_or_append with_given_id
    require_given record_event is_replay_mode same_replay add_replay replay_or_insert
    record_replay_metadata
evidence_code = tt
