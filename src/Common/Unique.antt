-- ===== src/Common/Unique.antt =====
-- Tables in which no two rows stand in a given relation: unique keys.
use mathlib.Core.Option.{some, some-injective}
use Prim.Native.Nat.{suc, ◌≤◌}
use mathlib.Core.Path.{◌≡◌, refl, sym, subst, ◌∙◌, ap}
use mathlib.Core.Logic.{◌⊎◌, inl, inr}
use mathlib.Core.Bool.{Bool, true, false}
use mathlib.Core.List.{List, [], ◌∷◌, ◌++◌}
use native.Mathlib.Omega.{arith}
use zworkbench.Common.Tests.{if◌then◌else◌}
use zworkbench.Common.Tables.{All, In, update, exists, count, find}

exists-step :
    (b : Bool) (rest : Bool) → (if b then true else rest) ≡ false → (b ≡ false) × (rest ≡ false)
exists-step b rest h = ground arith

module _ {A : Type 0} where
  -- Each row is apart from every later one.
  abbrev pub Apart : (A → A → Type 0) → List A → Type 0
  Apart R [] = Unit
  Apart R (x ∷ xs) = All (R x) xs × Apart R xs

  pub exists-none : (p : A → Bool) (xs : List A) → exists p xs ≡ false → All (λ x. p x ≡ false) xs
  exists-none p [] h = tt
  exists-none p (x ∷ xs) h =
      let (first, rest) = exists-step (p x) (exists p xs) h in (first, exists-none p xs rest)

  All-snoc : (P : A → Type 0) (xs : List A) (y : A) → All P xs → P y → All P (xs ++ y ∷ [])
  All-snoc P [] y h k = (k, tt)
  All-snoc P (x ∷ xs) y h k = (h.0, All-snoc P xs y h.1 k)

  pub Apart-append :
      (R : A → A → Type 0) (xs : List A) (y : A)
      → Apart R xs
      → All (λ x. R x y) xs
      → Apart R (xs ++ y ∷ [])
  Apart-append R [] y h k = (tt, tt)
  Apart-append R (x ∷ xs) y h k = (All-snoc (R x) xs y h.0 k.0, Apart-append R xs y h.1 k.1)

  pick : (P : A → Type 0) (b : Bool) (x y : A) → P x → P y → P (if b then x else y)
  pick P true x y h k = h
  pick P false x y h k = k

  All-keep :
      (P : A → Type 0) (p : A → Bool) (f : A → A) (xs : List A)
      → ((x : A) → P x → P (f x))
      → All P xs
      → All P (update p f xs)
  All-keep P p f [] keep h = tt
  All-keep P p f (x ∷ xs) keep h =
      (pick P (p x) (f x) x (keep x h.0) h.0, All-keep P p f xs keep h.1)

  All-map : (P Q : A → Type 0) (xs : List A) → ((x : A) → P x → Q x) → All P xs → All Q xs
  All-map P Q [] f h = tt
  All-map P Q (x ∷ xs) f h = (f x h.0, All-map P Q xs f h.1)

  -- An update that leaves the keys alone.
  pub Apart-update :
      (R : A → A → Type 0) (p : A → Bool) (f : A → A) (xs : List A)
      → ((x y : A) → R x y → R (f x) y)
      → ((x y : A) → R x y → R x (f y))
      → Apart R xs
      → Apart R (update p f xs)
  Apart-update R p f [] left right h = tt
  Apart-update R p f (x ∷ xs) left right h = (
    All-keep (R (if p x then f x else x)) p f xs (λ y. right (if p x then f x else x) y)
        (pick (λ z. All (R z) xs) (p x) (f x) x (All-map (R x) (R (f x)) xs (λ y. left x y) h.0)
          h.0),
    Apart-update R p f xs left right h.1,
  )

  All-at : (P : A → Type 0) (xs : List A) (x : A) → In x xs → All P xs → P x
  All-at P [] x i h = absurd i
  All-at P (y ∷ ys) x (inl same) h = subst P (sym same) h.0
  All-at P (y ∷ ys) x (inr later) h = All-at P ys x later h.1

  -- Two rows are the same one, or apart.
  pub Apart-In :
      (R : A → A → Type 0) (xs : List A) (x y : A)
      → Apart R xs
      → In x xs
      → In y xs
      → (x ≡ y) ⊎ (R x y ⊎ R y x)
  Apart-In R [] x y h i j = absurd i
  Apart-In R (z ∷ zs) x y h (inl i) (inl j) = inl cc
  Apart-In R (z ∷ zs) x y h (inl i) (inr j) =
      inr (inl (subst (λ w. R w y) (sym i) (All-at (R z) zs y j h.0)))
  Apart-In R (z ∷ zs) x y h (inr i) (inl j) =
      inr (inr (subst (λ w. R w x) (sym j) (All-at (R z) zs x i h.0)))
  Apart-In R (z ∷ zs) x y h (inr i) (inr j) = Apart-In R zs x y h.1 i j

  -- The rows that an update touches are rows of the table.
  pub All-update-In :
      (P : A → Type 0) (p : A → Bool) (f : A → A) (xs : List A)
      → ((x : A) → In x xs → p x ≡ true → P x → P (f x))
      → All P xs
      → All P (update p f xs)
  All-update-In P p f [] keep h = tt
  All-update-In P p f (x ∷ xs) keep h =
      (touched (p x) refl, All-update-In P p f xs (λ y i. keep y (inr i)) h.1)
    where
      touched : (b : Bool) → p x ≡ b → P (if b then f x else x)
      touched true e = keep x (inl refl) e h.0
      touched false e = h.0

  -- A row that the update's test does not select stays.
  pub In-update :
      (p : A → Bool) (f : A → A) (xs : List A) (x : A)
      → In x xs
      → p x ≡ false
      → In x (update p f xs)
  In-update p f [] x i e = absurd i
  In-update p f (y ∷ ys) x (inl same) e = inl (untouched (p y) (subst (λ z. p z ≡ false) same e))
    where
      untouched : (b : Bool) → b ≡ false → x ≡ (if b then f y else y)
      untouched true t = cc
      untouched false t = same
  In-update p f (y ∷ ys) x (inr later) e = inr (In-update p f ys x later e)

  pub In-append : (xs ys : List A) (x : A) → In x xs → In x (xs ++ ys)
  In-append [] ys x i = absurd i
  In-append (z ∷ zs) ys x (inl same) = inl same
  In-append (z ∷ zs) ys x (inr later) = inr (In-append zs ys x later)

  count-none : (p : A → Bool) (xs : List A) → All (λ x. p x ≡ false) xs → count p xs ≡ 0
  count-none p [] h = refl
  count-none p (x ∷ xs) h = ground (arith, h.0, count-none p xs h.1)

  -- A key that apart rows do not share has at most one row.
  pub count-Apart :
      (R : A → A → Type 0) (p : A → Bool) (xs : List A)
      → ((x y : A) → R x y → p x ≡ true → p y ≡ false)
      → Apart R xs
      → count p xs ≤ 1
  count-Apart R p [] key h = omega arith
  count-Apart R p (x ∷ xs) key h = at_most (p x) refl (count-Apart R p xs key h.1)
    where
      at_most :
          (b : Bool) → p x ≡ b → count p xs ≤ 1 → (if b then suc (count p xs) else count p xs) ≤ 1
      at_most true e rest =
          let none_later : count p xs ≡ 0 =
            count-none p xs (All-map (R x) (λ y. p y ≡ false) xs (λ y r. key x y r e) h.0) in
          ground arith
      at_most false e rest = rest

module _ {A : Type 0} where
  -- The row that is found is found as it is updated.
  pub find-update :
      (p : A → Bool) (f : A → A) (rs : List A) (r : A)
      → ((x : A) → p (f x) ≡ p x)
      → find p rs ≡ some r
      → find p (update p f rs) ≡ some (f r)
  find-update p f [] r keep e = cc
  find-update p f (x ∷ rs) r keep e = found (p x) refl e (find-update p f rs r keep)
    where
      found :
          (b : Bool)
          → p x ≡ b
          → (if b then some x else find p rs) ≡ some r
          → (find p rs ≡ some r → find p (update p f rs) ≡ some (f r))
          → (if p (if b then f x else x)
              then some (if b then f x else x)
              else find p (update p f rs))
            ≡ some (f r)
      found true t e' rest =
          let here_p : p (f x) ≡ true = keep x ∙ t in
          subst (λ b. (if b then some (f x) else find p (update p f rs)) ≡ some (f r)) (sym here_p)
            (ap (λ z. some (f z)) (some-injective x r e'))
      found false t e' rest =
          subst (λ b. (if b then some x else find p (update p f rs)) ≡ some (f r)) (sym t) (rest e')
