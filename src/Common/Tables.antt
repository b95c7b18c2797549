-- ===== src/Common/Tables.antt =====
-- A table of the database as the list of its rows, in the order of their insertion.
use Prim.Native.Nat.{ℕ, suc, ◌+◌}
use mathlib.Core.Path.{◌≡◌, refl, sym, subst}
use mathlib.Core.Logic.{◌⊎◌, inl, inr}
use mathlib.Core.Bool.{Bool, true, false}
use mathlib.Core.Option.{Option, none, some, some-injective}
use mathlib.Core.List.{List, [], ◌∷◌, ◌++◌}
use native.Mathlib.Omega.{arith}
use zworkbench.Common.Tests.{if◌then◌else◌}

module _ {ℓ} {A : Type ℓ} where
  -- SELECT … WHERE p, the first row
  abbrev pub find : (A → Bool) → List A → Option A
  find p [] = none
  find p (x ∷ xs) = if p x then some x else find p xs

  -- UPDATE … SET f WHERE p
  abbrev pub update : (A → Bool) → (A → A) → List A → List A
  update p f [] = []
  update p f (x ∷ xs) = (if p x then f x else x) ∷ update p f xs

  -- SELECT … WHERE p, every row
  abbrev pub select : (A → Bool) → List A → List A
  select p [] = []
  select p (x ∷ xs) = let rest = select p xs in if p x then x ∷ rest else rest

  -- SELECT COUNT(*) … WHERE p
  abbrev pub count : (A → Bool) → List A → ℕ
  count p [] = 0
  count p (x ∷ xs) = let rest = count p xs in if p x then suc rest else rest

  -- SELECT 1 … WHERE p
  abbrev pub exists : (A → Bool) → List A → Bool
  exists p [] = false
  exists p (x ∷ xs) = if p x then true else exists p xs

  -- The library's `length`, over the native numbers.
  abbrev pub length : List A → ℕ
  length [] = 0
  length (x ∷ xs) = suc (length xs)

  abbrev pub All {κ} : (A → Type κ) → List A → Type κ
  All P [] = Unit
  All P (x ∷ xs) = P x × All P xs

module _ {ℓ} {A : Type ℓ} where
  pub count-append : (p : A → Bool) (xs ys : List A) → count p (xs ++ ys) ≡ count p xs + count p ys
  count-append p [] ys = omega arith
  count-append p (x ∷ xs) ys = ground (arith, count-append p xs ys)

  pub length-append : (xs ys : List A) → length (xs ++ ys) ≡ length xs + length ys
  length-append [] ys = omega arith
  length-append (x ∷ xs) ys = ground (arith, length-append xs ys)

  pub All-append {κ} :
      (P : A → Type κ) (xs : List A) (y : A) → All P xs → P y → All P (xs ++ y ∷ [])
  All-append P [] y h k = (k, tt)
  All-append P (x ∷ xs) y h k = (h.0, All-append P xs y h.1 k)

  pub All-update {κ} :
      (P : A → Type κ) (p : A → Bool) (f : A → A) (xs : List A)
      → ((x : A) → p x ≡ true → P x → P (f x))
      → All P xs
      → All P (update p f xs)
  All-update P p f [] keep h = tt
  All-update P p f (x ∷ xs) keep h = (pick (p x) refl, All-update P p f xs keep h.1)
    where
      pick : (b : Bool) → p x ≡ b → P (if b then f x else x)
      pick true e = keep x e h.0
      pick false e = h.0

  find-step :
      (p : A → Bool) (y : A) (xs : List A) (x : A) (b : Bool)
      → p y ≡ b
      → (if b then some y else find p xs) ≡ some x
      → ((y ≡ x) × (p y ≡ true)) ⊎ (find p xs ≡ some x)
  find-step p y xs x true t e = inl (some-injective y x e, t)
  find-step p y xs x false t e = inr e

  -- The row that a query returns satisfies the query's test and all that holds of every row.
  pub All-find {κ} :
      (P : A → Type κ) (p : A → Bool) (xs : List A) (x : A) → find p xs ≡ some x → All P xs → P x
  All-find P p [] x e h = cc
  All-find P p (y ∷ xs) x e h = elim (find-step p y xs x (p y) refl e) [
    | inl (same, t) ↦ subst P same h.0
    | inr rest ↦ All-find P p xs x rest h.1
  ]

  pub find-holds : (p : A → Bool) (xs : List A) (x : A) → find p xs ≡ some x → p x ≡ true
  find-holds p [] x e = cc
  find-holds p (y ∷ xs) x e = elim (find-step p y xs x (p y) refl e) [
    | inl (same, t) ↦ subst (λ z. p z ≡ true) same t
    | inr rest ↦ find-holds p xs x rest
  ]

module _ {ℓ} {A : Type ℓ} (before : A → A → Bool) where
  unfoldable pub insert_sorted : A → List A → List A
  insert_sorted x [] = x ∷ []
  insert_sorted x (y ∷ ys) = if before x y then x ∷ y ∷ ys else y ∷ insert_sorted x ys

  -- ORDER BY
  unfoldable pub sort_by : List A → List A
  unfolding insert_sorted
  sort_by [] = []
  sort_by (x ∷ xs) = insert_sorted x (sort_by xs)

module _ {A : Type 0} where
  -- The row stands in the table.
  abbrev pub In : A → List A → Type 0
  In x [] = ⊥
  In x (y ∷ ys) = (x ≡ y) ⊎ In x ys

  select-step :
      (p : A → Bool) (y : A) (ys rest : List A) (x : A) (b : Bool)
      → p y ≡ b
      → (In x rest → In x ys × (p x ≡ true))
      → In x (if b then y ∷ rest else rest)
      → ((x ≡ y) ⊎ In x ys) × (p x ≡ true)
  select-step p y ys rest x true e k (inl same) = (inl same, subst (λ z. p z ≡ true) (sym same) e)
  select-step p y ys rest x true e k (inr later) = let (i, t) = k later in (inr i, t)
  select-step p y ys rest x false e k later = let (i, t) = k later in (inr i, t)

  pub In-select : (p : A → Bool) (xs : List A) (x : A) → In x (select p xs) → In x xs × (p x ≡ true)
  In-select p [] x h = absurd h
  In-select p (y ∷ ys) x h = select-step p y ys (select p ys) x (p y) refl (In-select p ys x) h

  pub find-In : (p : A → Bool) (xs : List A) (x : A) → find p xs ≡ some x → In x xs
  find-In p [] x e = cc
  find-In p (y ∷ ys) x e = elim (find-step p y ys x (p y) refl e) [
    | inl (same, t) ↦ inl (sym same)
    | inr rest ↦ inr (find-In p ys x rest)
  ]

  pub All-In : (P : A → Type 0) (xs : List A) (x : A) → In x xs → All P xs → P x
  All-In P [] x i h = absurd i
  All-In P (y ∷ ys) x (inl same) h = subst P (sym same) h.0
  All-In P (y ∷ ys) x (inr later) h = All-In P ys x later h.1
