-- ===== src/Owner/Retries/Bounded.antt =====
-- The ceiling of a declared retry budget holds (src/zworkbench/composition.py).
use mathlib.Core.Option.{some-injective, none-ne-some}
use zworkbench.Exec.{ok}
use zworkbench.Common.Tables.{count, count-append}
use zworkbench.Owner.Core.Steps.{Framed, does_connection}
use zworkbench.Owner.Core.{add_result, add_event}
use zworkbench.Owner.State.{Db, Bound, Consumption, Budget, Event, Owner, ResultRow, RetryTables}
use zworkbench.Owner.Retries.{
  consumed_by, Layer, find_budget, consumed, new_consumption, add_consumption, RetryRequest,
  retry_tables, charge, record_retry_consumption, provider, consumption_event, consume_retry, dsh,
  worker,
}
use zworkbench.Common.{
  ℕ, ◌≡◌, refl, String, some, ◌≤◌, none, arith, ltb, Option, false, ◌+◌, ◌∙◌, [], subst, List, ◌∷◌,
  true, eq_iff, ◌==◌, ◌++◌, sym,
}
use zworkbench.Exec.Does.{
  Does, does_bind, does_weaken, does_query, does_guard, does_write, does_return, does_read,
  does_or_raise,
}
use zworkbench.Exec.Outcome.{does_any, does_ok}
use zworkbench.Owner.Core.Transactions.{does_transaction, append_event-Keeps}

event_tables :
    (layer : Layer) (e : Event) (d : Db) → retry_tables layer (add_event e d) ≡ retry_tables layer d
unfolding retry_tables add_event
event_tables provider e d = refl
event_tables dsh e d = refl
event_tables worker e d = refl

result_tables :
    (layer : Layer) (r : ResultRow) (d : Db)
    → retry_tables layer (add_result r d) ≡ retry_tables layer d
unfolding retry_tables add_result
result_tables provider r d = refl
result_tables dsh r d = refl
result_tables worker r d = refl

added_tables :
    (layer : Layer) (c : Consumption) (d : Db)
    → retry_tables layer (add_consumption layer c d)
      ≡ record (retry_tables layer d) { ledger = (retry_tables layer d).ledger ++ c ∷ [] }
unfolding retry_tables add_consumption
added_tables provider c d = refl
added_tables dsh c d = refl
added_tables worker c d = refl

pub charged :
    (c b : Budget) (prior n : ℕ)
    → c ≡ b
    → prior ≡ n
    → ltb c.max_retries (prior + 1) ≡ false
    → n + 1 ≤ b.max_retries
charged c b prior n equal p room =
    let bound : prior + 1 ≤ c.max_retries = ground arith in
    subst (λ z. n + 1 ≤ z.max_retries) equal (subst (λ k. k + 1 ≤ c.max_retries) p bound)

module _ (q : RetryRequest) where
  abbrev spent : RetryTables → ℕ
  spent t = count (consumed_by q.run_id q.subject) t.ledger

  -- What is recorded, and so many more, is within what is declared.
  abbrev Within : ℕ → RetryTables → Type 0
  Within n t = (b : Budget) → find_budget q.subject t.budgets ≡ some b → spent t + n ≤ b.max_retries

  one_more :
      (rows : List Consumption) (id : String) (attempt : ℕ) (bound : Bound) (t : ℕ)
      → count (consumed_by q.run_id q.subject) (rows ++ new_consumption q id attempt bound t ∷ [])
        ≡ count (consumed_by q.run_id q.subject) rows + 1
  one_more rows id attempt bound t =
      let own : (q.run_id == q.run_id) ≡ true = (eq_iff _ _).1 refl in
      let subject : (q.subject == q.subject) ≡ true = (eq_iff _ _).1 refl in
      count-append (consumed_by q.run_id q.subject) rows _ ∙ ground arith

  module _ (layer : Layer) where
    abbrev AtMost : ℕ → Db → Type 0
    AtMost n d = Within n (retry_tables layer d)

    charge-Room :
        (budget : Option Budget) (prior : ℕ)
        → Does
            (λ d.
              (budget ≡ find_budget q.subject (retry_tables layer d).budgets)
              × (prior ≡ spent (retry_tables layer d)))
            (charge budget prior)
            (λ _. AtMost 1)
    unfolding charge
    charge-Room none prior = does_return _ (λ d h b e. absurd (none-ne-some b (h.0 ∙ e)))
    charge-Room (some c) prior =
        does_bind (does_guard _ _) λ _.
          does_return _ λ d h b e. charged c b prior _ (some-injective c b (h.0.0 ∙ e)) h.0.1 h.1

    added :
        (id : String) (attempt : ℕ) (bound : Bound) (t : ℕ) (d : Db)
        → AtMost 1 d
        → AtMost 0 (add_consumption layer (new_consumption q id attempt bound t) d)
    added id attempt bound t d room = subst (Within 0) (sym (added_tables layer _ d)) λ b e.
        let left : spent (retry_tables layer d) + 1 ≤ b.max_retries = room b e in
        let more : count (consumed_by q.run_id q.subject)
              ((retry_tables layer d).ledger ++ new_consumption q id attempt bound t ∷ [])
            ≡ spent (retry_tables layer d) + 1 =
          one_more (retry_tables layer d).ledger id attempt bound t in
        omega arith

    within_framed : Framed (AtMost 0)
    within_framed = (
      λ d e h. subst (Within 0) (sym (event_tables layer e d)) h,
      λ d r h. subst (Within 0) (sym (result_tables layer r d)) h,
    )

    consume_retry-Within :
        (attempt t : ℕ) (id : String)
        → Does (λ _. Unit {0}) (consume_retry layer q attempt t id) (λ _. AtMost 0)
    unfolding consume_retry consumed
    consume_retry-Within attempt t id = does_bind (does_any _) λ row.
        does_bind (does_query _) λ budget. does_bind (does_query _) λ prior.
          does_bind (does_weaken (λ d h. (h.0.1, h.1)) (charge-Room budget prior) (λ a d h. h))
            λ bound. does_bind (does_read _) λ conflict.
              does_bind (does_weaken (λ d h. h) (does_guard _ _) (λ a d h. h.0)) λ _.
                does_bind (does_write {Q = AtMost 0} _ (added id attempt bound t)) λ _.
                  does_bind (append_event-Keeps within_framed q.run_id (consumption_event layer) _)
                    λ _. does_return tt (λ d h. h)

    record_retry_consumption-Within :
        Does (λ _. Unit {0}) (record_retry_consumption layer q) (λ _. AtMost 0)
    unfolding record_retry_consumption
    record_retry_consumption-Within = does_bind (does_any _) λ _. does_bind (does_any _) λ _.
        does_bind (does_any _) λ _. does_bind (does_any _) λ attempt. does_bind (does_any _) λ _.
          does_bind (does_any _) λ _. does_bind (does_any _) λ _. does_bind (does_any _) λ _.
            does_bind (does_any _) λ t. does_bind (does_any _) λ id.
              does_bind (does_transaction (consume_retry-Within attempt t id)) λ _.
                does_bind does_connection λ _.
                  does_bind (does_read _)
                    λ found. does_weaken (λ d h. h) (does_or_raise found _) (λ a d h. h.0)

-- When a layer's `record_*_retry_budget_consumption` has returned, and the subject has a declared
-- budget, then the run's consumptions for that subject are within its `max_retries`.
pub retries_bounded :
    (layer : Layer) (q : RetryRequest) (s s' : Owner) (c : Consumption) (b : Budget)
    → record_retry_consumption layer q s ≡ (ok c, s')
    → find_budget q.subject (retry_tables layer s'.db).budgets ≡ some b
    → consumed layer q.run_id q.subject s'.db ≤ b.max_retries
unfolding consumed
retries_bounded layer q s s' c b returned declared =
    let bound : count (consumed_by q.run_id q.subject) (retry_tables layer s'.db).ledger + 0
        ≤ b.max_retries =
      does_ok (record_retry_consumption-Within q layer) s s' c returned tt b declared in
    omega arith
