-- ===== src/Owner/Core/Steps.antt =====
-- What the helpers of Owner/Core do to the database, as changes of the contract, and what they
-- leave alone.
use zworkbench.Common.{
  String, ◌≡◌, refl, sym, ◌∙◌, subst, Bool, true, false, not, ◌||◌, Option, none, some, arith, ◌==◌,
  eq_iff, if◌then◌else◌,
}
use zworkbench.Common.Tables.{exists, find-holds}
use zworkbench.Json.{Value, Fields, obj}
use zworkbench.Exec.Does.{
  Does, does_return, does_query, does_write, does_guard, does_now, does_new_id, does_bind,
  does_with, does_weaken, does_or_raise, does_if, Post,
}
use zworkbench.Owner.State.{Db, Event, ResultRow, Owner}
use zworkbench.Owner.Core.{
  has_run_id, add_event, add_result, event_conflict, chosen_id, append_event_as,
  reject_raw_credentials, validate_evidence_source, find_run, find_effect, append_event,
  insert_result, unless_recorded, record_result_tx, run_row, effect_row, set_run_status, Run,
  Effect, raw_credential, Exec, is_evidence_source, RunStatus, require_connection, err,
  composition_error, ok,
}
use zworkbench.Owner.Change.{Change, Changes, next}
use zworkbench.Owner.Rules.{Obeys, Follows, Follows-bind, Follows-query, Follows-or_raise}

-- Reached from `d` by changes, and with `F`.
abbrev pub At : Db → (Db → Type 0) → Db → Type 0
At d₀ F d = Changes d₀ d × F d

abbrev pub True : Db → Type 0
True d = Unit

-- What new events and results do not touch.
abbrev pub Framed : (Db → Type 0) → Type 0
Framed F =
    ((d : Db) (e : Event) → F d → F (add_event e d))
    × ((d : Db) (r : ResultRow) → F d → F (add_result r d))

pub or_false : (a b : Bool) → (a || b) ≡ false → (a ≡ false) × (b ≡ false)
or_false a b h = ground arith

pub not-false : (b : Bool) → not b ≡ false → b ≡ true
not-false b h = ground arith

chosen-Does : {P : Db → Type 0} (given : Option String) → Does P (chosen_id given) (λ _ d. P d)
chosen-Does none = does_new_id
chosen-Does (some id) = does_return id (λ d h. h)

event_fits :
    (event_id run_id : String) (d : Db)
    → event_conflict event_id run_id d ≡ false
    → (exists (λ e. e.event_id == event_id) d.events ≡ false)
      × (exists (has_run_id run_id) d.runs ≡ true)
event_fits event_id run_id d h = let (fresh, known) = or_false _ _ h in (fresh, not-false _ known)

pub True-framed : Framed True
True-framed = (λ d e h. h, λ d r h. h)

pub run-framed : (row : Run) → Framed (λ d. find_run row.run_id d ≡ some row)
unfolding find_run add_event add_result
run-framed row = (λ d e h. h, λ d r h. h)

-- The identity of the row that a query by identity returns.
run_key :
    (id : String) (row : Run) (d : Db) → find_run id d ≡ some row → find_run row.run_id d ≡ some row
unfolding find_run
run_key id row d e =
    let same : row.run_id ≡ id = (eq_iff _ _).0 (find-holds _ d.runs row e) in
    subst (λ i. find_run i d ≡ some row) (sym same) e

effect_key :
    (id : String) (e : Effect) (d : Db)
    → find_effect id d ≡ some e
    → find_effect e.effect_id d ≡ some e
unfolding find_effect
effect_key id row d e =
    let same : row.effect_id ≡ id = (eq_iff _ _).0 (find-holds _ d.effects row e) in
    subst (λ i. find_effect i d ≡ some row) (sym same) e

module _ {F : Db → Type 0} (framed : Framed F) (d₀ : Db) where
  pub append_event_as-Does :
      (given : Option String) (run_id event_type : String) (payload : Value) (source : String)
      → Does (At d₀ F) (append_event_as given run_id event_type payload source) (λ _. At d₀ F)
  unfolding append_event_as reject_raw_credentials validate_evidence_source
  append_event_as-Does given run_id event_type payload source = does_bind (does_guard _ _) λ _.
      does_bind (does_guard _ _) λ _. does_bind (chosen-Does given) λ id. does_bind does_now λ t.
        does_bind (does_query _) λ conflict. does_bind (does_guard _ _) λ _.
          does_bind
            (does_write {Q = At d₀ F} _ λ d h.
              let (((((c, f), clean), source_known), asked), free) = h in
              let (fresh, known) = event_fits id run_id d (sym asked ∙ free) in
              (
                next c (
                    Change.log _ payload refl clean (not-false _ (or_false _ _ source_known).1)
                      fresh known),
                framed.0 d _ f,
              ))
            λ _. does_return id (λ d h. h)

  pub append_event-Does :
      (run_id event_type : String) (payload : Fields)
      → Does (At d₀ F) (append_event run_id event_type payload) (λ _. At d₀ F)
  unfolding append_event
  append_event-Does run_id event_type payload =
      append_event_as-Does none run_id event_type (obj payload) "native"

  insert_result-Does :
      (run_id kind : String) (value : Value) (source_id : Option String) (source : String)
      → raw_credential value ≡ false
      → is_evidence_source source ≡ true
      → Does (At d₀ F) (insert_result run_id kind value source_id source) (λ _. At d₀ F)
  unfolding insert_result
  insert_result-Does run_id kind value source_id source clean known = does_bind does_new_id λ id.
      does_bind does_now λ t. does_bind (does_query _) λ conflict. does_bind (does_guard _ _) λ _.
        does_bind
          (does_write {Q = At d₀ F} _
            λ d h. (next h.0.0.0 (Change.result _ value refl clean known), framed.1 d _ h.0.0.1))
          λ _.
            does_bind (append_event_as-Does none run_id "result.recorded" _ source)
              λ _. does_return _ (λ d h. h)

  unless_recorded-Does :
      (existing : Option ResultRow) {m : Exec ResultRow}
      → Does (At d₀ F) m (λ _. At d₀ F)
      → Does (At d₀ F) (unless_recorded existing m) (λ _. At d₀ F)
  unfolding unless_recorded
  unless_recorded-Does none m = m
  unless_recorded-Does (some row) m = does_return row (λ d h. h)

  pub record_result_tx-Does :
      (run_id kind : String) (value : Value) (source_id : Option String) (source : String)
      → Does (At d₀ F) (record_result_tx run_id kind value source_id source) (λ _. At d₀ F)
  unfolding record_result_tx reject_raw_credentials validate_evidence_source
  record_result_tx-Does run_id kind value source_id source = does_with (does_guard _ _) λ _ clean.
      does_with (does_guard _ _) λ _ known. does_bind (does_query _) λ existing.
        does_weaken (λ d h. h.0)
          (unless_recorded-Does existing (
            insert_result-Does run_id kind value source_id source clean
              (not-false _ (or_false _ _ known).1)))
          (λ a d h. h)

pub does_connection : {P : Db → Type 0} → Does P require_connection (λ _ d. P d)
unfolding require_connection
does_connection {P} = record { run = λ s h. connected s.closed s h }
  where
    connected :
        (b : Bool) (s : Owner)
        → P s.db
        → Post (λ _. P) (if b then err composition_error else ok tt) s.db
    connected true s h = tt
    connected false s h = h

pub run_row-Known :
    {P : Db → Type 0} (id : String)
    → Does P (run_row id) (λ row d. P d × (find_run id d ≡ some row))
unfolding run_row
run_row-Known id =
    does_bind (does_query _)
      λ found. does_weaken (λ d h. h) (does_or_raise found _) (λ row d h. (h.0.0, sym h.0.1 ∙ h.1))

pub run_row-Does :
    {P : Db → Type 0} (id : String)
    → Does P (run_row id) (λ row d. P d × (find_run row.run_id d ≡ some row))
unfolding run_row
run_row-Does id = does_bind (does_query _) λ found.
    does_weaken (λ d h. h) (does_or_raise found _)
      λ row d h. (h.0.0, run_key id row d (sym h.0.1 ∙ h.1))

pub effect_row-Does :
    {P : Db → Type 0} (id : String)
    → Does P (effect_row id) (λ e d. P d × (find_effect e.effect_id d ≡ some e))
unfolding effect_row
effect_row-Does id = does_bind (does_query _) λ found.
    does_weaken (λ d h. h) (does_or_raise found _)
      λ e d h. (h.0.0, effect_key id e d (sym h.0.1 ∙ h.1))

-- The run's status moves along an allowed edge, or the method raises.
pub set_run_status-Does :
    (d₀ : Db) (row : Run) (status : RunStatus) (event_type : String) (payload : Fields)
    → Does
        (At d₀ (λ d. find_run row.run_id d ≡ some row))
        (set_run_status row status event_type payload)
        (λ _. Changes d₀)
unfolding set_run_status
set_run_status-Does d₀ row status event_type payload =
    does_if _ (λ _. does_return tt (λ d h. h.0))
      (λ _. does_bind (does_guard _ _) λ _. does_bind does_now λ t.
        does_bind
          (does_write {Q = At d₀ True} _
            λ d h. (next h.0.0 (Change.move row.run_id row status t h.0.1 (not-false _ h.1)), tt))
          λ _.
            does_bind (append_event-Does True-framed d₀ row.run_id event_type _)
              λ _. does_return tt (λ d h. h.0))

pub append_event_as-Obeys :
    (given : Option String) (run_id event_type : String) (payload : Value) (source : String)
    → Obeys (append_event_as given run_id event_type payload source)
append_event_as-Obeys given run_id event_type payload source d =
    does_weaken (λ _ h. (h, tt))
      (append_event_as-Does True-framed d given run_id event_type payload source) (λ _ _ h. h.0)

pub append_event-Obeys :
    (run_id event_type : String) (payload : Fields) → Obeys (append_event run_id event_type payload)
append_event-Obeys run_id event_type payload d =
    does_weaken (λ _ h. (h, tt)) (append_event-Does True-framed d run_id event_type payload)
      (λ _ _ h. h.0)

pub record_result_tx-Obeys :
    (run_id kind : String) (value : Value) (source_id : Option String) (source : String)
    → Obeys (record_result_tx run_id kind value source_id source)
record_result_tx-Obeys run_id kind value source_id source d =
    does_weaken (λ _ h. (h, tt))
      (record_result_tx-Does True-framed d run_id kind value source_id source) (λ _ _ h. h.0)

pub run_row-Follows : (id : String) → Follows (run_row id)
unfolding run_row
run_row-Follows id = Follows-bind (Follows-query _) (λ found. Follows-or_raise found _)
