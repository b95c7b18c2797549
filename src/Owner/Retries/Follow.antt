-- ===== src/Owner/Retries/Follow.antt =====
-- The retry budgets keep to the contract of Owner/Change.
use mathlib.Core.Option.{none-ne-some, some-injective}
use zworkbench.Owner.Retries.Bounded.{charged}
use zworkbench.Common.Int.{ℤ}
use zworkbench.Owner.State.{Db, Budget}
use zworkbench.Owner.Core.Steps.{append_event-Obeys, run_row-Known}
use zworkbench.Exec.Does.{
  does_bind, does_write, does_with, does_return, does_guard, Does, does_query, does_fresh,
}
use zworkbench.Owner.Rules.{
  Obeys, Follows-transaction, Follows-positive, Follows-connection, Follows-query, Follows-text,
  Follows, Follows-credentials, Follows-or_raise, Follows-non_negative, Follows-pure, Follows-bind,
  Follows-now, Follows-new_id,
}
use zworkbench.Common.{refl, String, ℕ, some, none, Option, ◌≡◌, ◌∙◌, subst, ◌≤◌, ◌+◌}
use zworkbench.Owner.Retries.{
  RetryRequest, require_optional_text, record_retry_consumption, charge, consumption_event,
  consume_retry, declare_retry_budget, Layer,
}
use zworkbench.Owner.Aside.{Aside, Room}
use zworkbench.Owner.Change.{Change, Changes, next}

pub declare_retry_budget-Follows :
    (layer : Layer) (subject : String) (max_retries : ℤ) (declared_by : String)
    → Follows (declare_retry_budget layer subject max_retries declared_by)
unfolding declare_retry_budget
declare_retry_budget-Follows layer subject max_retries declared_by =
    Follows-bind (Follows-text _) λ _. Follows-bind (Follows-non_negative _) λ ceiling.
      Follows-bind (Follows-text _) λ _. Follows-bind (Follows-credentials _) λ _.
        Follows-bind Follows-now λ t.
          Follows-bind
            (Follows-transaction λ d.
              does_write {Q = Changes d} _
                λ d' h. next h (Change.other (Aside.declare_retries layer _)))
            λ _. Follows-bind Follows-connection λ _.
              Follows-bind (Follows-text _)
                λ _. Follows-bind (Follows-query _) λ found. Follows-or_raise found _

-- A charge that returns had room.
pub charge-Does :
    {P : Db → Type 0} (budget : Option Budget) (prior : ℕ)
    → Does P (charge budget prior) (λ _ d. P d × Room budget prior)
unfolding charge
charge-Does none prior = does_return _ (λ d h. (h, λ b e. absurd (none-ne-some b e)))
charge-Does (some c) prior = does_with (does_guard _ _) λ _ left.
    does_return _ (λ d h. (h, λ b e. charged c b prior prior (some-injective c b e) refl left))

-- The room for what was read is room for what is there.
pub Room-read :
    (budget found : Option Budget) (prior recorded : ℕ)
    → budget ≡ found
    → prior ≡ recorded
    → Room budget prior
    → Room found recorded
Room-read budget found prior recorded same equal room b e =
    subst (λ n. n + 1 ≤ b.max_retries) equal (room b (same ∙ e))

consume_retry-Obeys :
    (layer : Layer) (q : RetryRequest) (attempt t : ℕ) (id : String)
    → Obeys (consume_retry layer q attempt t id)
unfolding consume_retry
consume_retry-Obeys layer q attempt t id d = does_bind (run_row-Known q.run_id) λ row.
    does_bind (does_query _) λ budget. does_bind (does_query _) λ prior.
      does_with (charge-Does budget prior) λ bound room. does_fresh _ _ λ _.
        does_bind
          (does_write {Q = Changes d} _ λ d' h.
            let ((((c, found), same), equal), fresh) = h in
            next c (
              Change.other (
                Aside.consume_retry layer _ (row, found) (Room-read _ _ _ _ same equal room)
                  fresh)))
          λ _.
            does_bind (append_event-Obeys q.run_id (consumption_event layer) _ d)
              λ _. does_return tt (λ d' h. h)

pub optional_text-Follows : (s : Option String) → Follows (require_optional_text s)
optional_text-Follows none = Follows-pure tt
optional_text-Follows (some s) = Follows-text s

pub record_retry_consumption-Follows :
    (layer : Layer) (q : RetryRequest) → Follows (record_retry_consumption layer q)
unfolding record_retry_consumption
record_retry_consumption-Follows layer q = Follows-bind (Follows-text _) λ _.
    Follows-bind (Follows-text _) λ _. Follows-bind (Follows-text _) λ _.
      Follows-bind (Follows-positive _) λ attempt. Follows-bind (Follows-text _) λ _.
        Follows-bind (optional_text-Follows _) λ _. Follows-bind (Follows-text _) λ _.
          Follows-bind (Follows-credentials _) λ _. Follows-bind Follows-now λ t.
            Follows-bind Follows-new_id λ id.
              Follows-bind (Follows-transaction (consume_retry-Obeys layer q attempt t id)) λ _.
                Follows-bind Follows-connection
                  λ _. Follows-bind (Follows-query _) λ found. Follows-or_raise found _
