-- ===== src/Owner/Listings/Counts.antt =====
-- The listing of a run's retries against what its budget counts (src/zworkbench/composition.py).
use zworkbench.Exec.{ok}
use zworkbench.Owner.Core.Steps.{run_row-Does, does_connection}
use zworkbench.Exec.Outcome.{does_ok}
use zworkbench.Owner.Listings.{
  rows_of_run, retry_budget_ledger_for_run, ledger_of, consumption_before,
}
use zworkbench.Exec.Does.{Does, does_bind, does_weaken, does_query}
use zworkbench.Owner.Retries.{Layer, consumed}
use zworkbench.Owner.State.{Db, Consumption, Owner}
use zworkbench.Common.Tables.{count, insert_sorted, sort_by, select}
use zworkbench.Common.{
  [], ◌∙◌, suc, ◌∷◌, ap, Bool, if◌then◌else◌, List, refl, ◌≡◌, false, ℕ, true, ◌==◌, String, ◌&&◌,
}

swap :
    (a b : Bool) (n : ℕ)
    → (if b then suc (if a then suc n else n) else (if a then suc n else n))
      ≡ (if a then suc (if b then suc n else n) else (if b then suc n else n))
swap true true n = refl
swap true false n = refl
swap false true n = refl
swap false false n = refl

module _ {A : Type 0} (before : A → A → Bool) (p : A → Bool) where
  count-insert_sorted :
      (x : A) (xs : List A) → count p (insert_sorted before x xs) ≡ count p (x ∷ xs)
  unfolding insert_sorted
  count-insert_sorted x [] = refl
  count-insert_sorted x (y ∷ ys) = by_order (before x y) (count-insert_sorted x ys)
    where
      by_order :
          (b : Bool)
          → count p (insert_sorted before x ys) ≡ count p (x ∷ ys)
          → count p (if b then x ∷ y ∷ ys else y ∷ insert_sorted before x ys) ≡ count p (x ∷ y ∷ ys)
      by_order true h = refl
      by_order false h = ap (λ n. if p y then suc n else n) h ∙ swap (p x) (p y) (count p ys)

  count-sort_by : (xs : List A) → count p (sort_by before xs) ≡ count p xs
  unfolding sort_by
  count-sort_by [] = refl
  count-sort_by (x ∷ xs) =
      count-insert_sorted x (sort_by before xs)
      ∙ ap (λ n. if p x then suc n else n) (count-sort_by xs)

-- Rows that a test keeps, counted by a narrower one.
count-select :
    {A : Type 0} (q p : A → Bool) (xs : List A) → count p (select q xs) ≡ count (λ x. q x && p x) xs
count-select q p [] = refl
count-select q p (x ∷ xs) = by_test (q x) (count-select q p xs)
  where
    by_test :
        (b : Bool)
        → count p (select q xs) ≡ count (λ y. q y && p y) xs
        → count p (if b then x ∷ select q xs else select q xs)
          ≡ (if b && p x then suc (count (λ y. q y && p y) xs) else count (λ y. q y && p y) xs)
    by_test true h = ap (λ n. if p x then suc n else n) h
    by_test false h = h

listing-Does :
    (layer : Layer) (run_id : String) {P : Db → Type 0}
    → Does P (retry_budget_ledger_for_run layer run_id) (λ rows d.
      P d
      × (rows ≡ sort_by consumption_before (select (λ c. c.run_id == run_id) (ledger_of layer d))))
unfolding retry_budget_ledger_for_run rows_of_run
listing-Does layer run_id = does_bind does_connection λ _.
    does_bind (does_weaken (λ d h. h) (run_row-Does run_id) (λ row d h. h.0)) λ row. does_query _

-- When a layer's `*_retry_budget_ledger_for_run` returns, its rows for a subject are as many as the
-- check of the budget counts for that run and that subject.
pub listing_counted :
    (layer : Layer) (run_id subject : String) (s s' : Owner) (rows : List Consumption)
    → retry_budget_ledger_for_run layer run_id s ≡ (ok rows, s')
    → count (λ c. c.subject == subject) rows ≡ consumed layer run_id subject s'.db
unfolding consumed
listing_counted layer run_id subject s s' rows returned =
    ap (count (λ c. c.subject == subject))
      (does_ok (listing-Does layer run_id {P = λ d. Unit {0}}) s s' rows returned tt).1
    ∙ count-sort_by consumption_before (λ c. c.subject == subject) _
    ∙ count-select (λ c. c.run_id == run_id) (λ c. c.subject == subject) (ledger_of layer s'.db)
