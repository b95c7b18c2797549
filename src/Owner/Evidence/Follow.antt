-- ===== src/Owner/Evidence/Follow.antt =====
-- The recording of evidence keeps to the contract of Owner/Change.
use zworkbench.Common.Tables.{find}
use zworkbench.Owner.Core.{find_run}
use zworkbench.Owner.State.{Replay, Event, Db, Run}
use zworkbench.Json.{Fields, Value, obj}
use zworkbench.Owner.Core.Steps.{
  run_row-Does, record_result_tx-Obeys, append_event_as-Obeys, append_event-Obeys, run_row-Known,
  At,
}
use zworkbench.Common.{String, ℕ, some, Option, none, sym, ◌≡◌, ◌==◌}
use zworkbench.Owner.Rules.{
  Follows-source, Follows-transaction, Follows-credentials, Follows-pure, Follows-bind,
  Follows-text, Obeys, Follows-now, Follows-guard, Follows,
}
use zworkbench.Exec.Does.{
  does_read, does_bind, does_write, does_guard, does_with, does_return, does_weaken, Does,
  does_query,
}
use zworkbench.Owner.Evidence.{
  with_given_id, require_given, record_result, replay_or_append, append_and_read, replay_or_insert,
  record_replay_metadata, ReplayRequest, record_event,
}
use zworkbench.Owner.Aside.{Aside}
use zworkbench.Owner.Change.{Change, Changes, next}

pub record_result-Follows :
    (run_id kind : String) (value : Value) (source_id : Option String) (source : String)
    → Follows (record_result run_id kind value source_id source)
unfolding record_result
record_result-Follows run_id kind value source_id source = Follows-bind (Follows-text _) λ _.
    Follows-bind (Follows-credentials _) λ _. Follows-bind (Follows-source _) λ _.
      Follows-transaction λ d.
        does_bind (does_weaken (λ d' h. h) (run_row-Does run_id) (λ row d' h. h.0))
          λ row. record_result_tx-Obeys run_id kind value source_id source d

append_and_read-Obeys :
    (given : Option String) (run_id event_type : String) (payload : Value) (source : String)
    → Obeys (append_and_read given run_id event_type payload source)
unfolding append_and_read
append_and_read-Obeys given run_id event_type payload source d =
    does_bind (append_event_as-Obeys given run_id event_type payload source d) λ id. does_read _

replay_or_append-Obeys :
    (existing : Option Event) (given : Option String) (run_id event_type : String) (payload : Value)
    (source : String)
    → Obeys (replay_or_append existing given run_id event_type payload source)
unfolding replay_or_append
replay_or_append-Obeys none given run_id event_type payload source d =
    append_and_read-Obeys given run_id event_type payload source d
replay_or_append-Obeys (some e) given run_id event_type payload source d =
    does_with (does_guard _ _) λ _ equal. does_return _ (λ d' h. h)

with_given_id-Obeys :
    (given : Option String) (run_id event_type : String) (payload : Value) (source : String)
    → Obeys (with_given_id given run_id event_type payload source)
unfolding with_given_id
with_given_id-Obeys none run_id event_type payload source d =
    append_and_read-Obeys none run_id event_type payload source d
with_given_id-Obeys (some id) run_id event_type payload source d =
    does_bind (does_read _)
      λ existing. replay_or_append-Obeys existing (some id) run_id event_type payload source d

require_given-Follows : (given : Option String) → Follows (require_given given)
unfolding require_given
require_given-Follows none = Follows-pure tt
require_given-Follows (some id) = Follows-text id

pub record_event-Follows :
    (run_id event_type : String) (payload : Fields) (given : Option String) (source : String)
    → Follows (record_event run_id event_type payload given source)
unfolding record_event
record_event-Follows run_id event_type payload given source = Follows-bind (Follows-text _) λ _.
    Follows-bind (Follows-credentials _) λ _. Follows-bind (Follows-source _) λ _.
      Follows-bind (require_given-Follows given) λ _. Follows-transaction λ d.
        does_bind (does_weaken (λ d' h. h) (run_row-Does run_id) (λ row d' h. h.0))
          λ row. with_given_id-Obeys given run_id event_type (obj payload) source d

replay_or_insert-Does :
    (d₀ : Db) (existing : Option Replay) (q : ReplayRequest) (row : Run) (t : ℕ)
    → Does
        (λ d.
          At d₀ (λ k. find_run q.run_id k ≡ some row) d
          × (existing ≡ find (λ r. r.replay_id == q.replay_id) d.replays))
        (replay_or_insert existing q t)
        (λ _. Changes d₀)
unfolding replay_or_insert
replay_or_insert-Does d₀ (some r) q row t =
    does_with (does_guard _ _) λ _ equal. does_return _ (λ d h. h.0.0)
replay_or_insert-Does d₀ none q row t =
    does_bind
      (does_write {Q = Changes d₀} _
        λ d h. next h.0.0 (Change.other (Aside.replay _ (row, h.0.1) (sym h.1))))
      λ _.
        does_bind (append_event-Obeys q.run_id "replay.metadata.recorded" _ d₀)
          λ _. does_return _ (λ d h. h)

pub record_replay_metadata-Follows : (q : ReplayRequest) → Follows (record_replay_metadata q)
unfolding record_replay_metadata
record_replay_metadata-Follows q = Follows-bind (Follows-text _) λ _.
    Follows-bind (Follows-text _) λ _. Follows-bind (Follows-text _) λ _.
      Follows-bind (Follows-guard _ _) λ _. Follows-bind Follows-now λ t.
        Follows-bind (Follows-credentials _) λ _. Follows-bind (Follows-credentials _) λ _.
          Follows-transaction λ d.
            does_bind (run_row-Known q.run_id)
              λ row. does_bind (does_query _) λ existing. replay_or_insert-Does d existing q row t
