-- ===== src/Worker/Facade/Sets.antt =====
-- What the tests of the capability facade say (src/zworkbench/worker_contract.py): of a name in a set,
-- of two sets, and of an entry of a policy.
use mathlib.Core.Bool.{true≢false}
use mathlib.Core.Option.{some-injective}
use zworkbench.Common.{
  String, Bool, true, false, ◌&&◌, ◌||◌, some, List, [], ◌∷◌, ◌==◌, ◌≡◌, ◌≢◌, ◌↔◌, inl, inr, refl,
  sym, ap, ◌∙◌, subst, eq_iff, if◌then◌else◌,
}
use zworkbench.Common.Tables.{All-In, In}
use zworkbench.Common.Unique.{Apart}
use zworkbench.Worker.Base.{one_of}
use zworkbench.Worker.Facade.{CapabilityEffect, effect_of, covers, same_set}

pub one_of-↔ : (xs : List String) (s : String) → (one_of xs s ≡ true) ↔ In s xs
one_of-↔ [] s = (λ h. cc, λ h. absurd h)
one_of-↔ (x ∷ xs) s = by_head (x == s) refl (one_of-↔ xs s)
  where
    by_head :
        (b : Bool)
        → (x == s) ≡ b
        → (one_of xs s ≡ true) ↔ In s xs
        → ((b || one_of xs s) ≡ true) ↔ In s (x ∷ xs)
    by_head true e (f, g) = (λ h. inl (sym ((eq_iff _ _).0 e)), λ h. refl)
    by_head false e (f, g) = (
      λ h. inr (f h),
      λ h. elim h [
        | inl same ↦ absurd (true≢false (sym ((eq_iff _ _).1 (sym same)) ∙ e))
        | inr later ↦ g later
      ],
    )

and-↔ : {P Q : Type 0} (a b : Bool) → (a ≡ true) ↔ P → (b ≡ true) ↔ Q → ((a && b) ≡ true) ↔ P × Q
and-↔ true b (f, g) (h, k) = (λ e. (f refl, h e), λ e. k e.1)
and-↔ false b (f, g) (h, k) = (λ e. cc, λ e. g e.0)

covers-↔ : (xs ys : List String) → (covers xs ys ≡ true) ↔ ((p : String) → In p ys → In p xs)
covers-↔ xs [] = (λ h p i. absurd i, λ h. refl)
covers-↔ xs (y ∷ ys) =
    let (f, g) = and-↔ (one_of xs y) (covers xs ys) (one_of-↔ xs y) (covers-↔ xs ys) in
    (λ h p i. each (f h) p i, λ h. g (h y (inl refl), λ p i. h p (inr i)))
  where
    each : In y xs × ((p : String) → In p ys → In p xs) → (p : String) → In p (y ∷ ys) → In p xs
    each (first, rest) p (inl same) = subst (λ q. In q xs) (sym same) first
    each (first, rest) p (inr later) = rest p later

-- Two lists of names are equal as sets just where they have the same members.
pub same_set-↔ :
    (xs ys : List String) → (same_set xs ys ≡ true) ↔ ((p : String) → In p xs ↔ In p ys)
unfolding same_set
same_set-↔ xs ys =
    let (f, g) = and-↔ (covers xs ys) (covers ys xs) (covers-↔ xs ys) (covers-↔ ys xs) in
    (λ h p. ((f h).1 p, (f h).0 p), λ h. g (λ p. (h p).1, λ p. (h p).0))

-- The entry that is found stands in the policy, under that name.
pub effect_of-In :
    (cs : List CapabilityEffect) (name : String) (c : CapabilityEffect)
    → effect_of cs name ≡ some c
    → In c cs × (c.capability ≡ name)
unfolding effect_of
effect_of-In [] name c h = cc
effect_of-In (k ∷ cs) name c h = by_head (k.capability == name) refl (effect_of-In cs name c) h
  where
    by_head :
        (b : Bool)
        → (k.capability == name) ≡ b
        → (effect_of cs name ≡ some c → In c cs × (c.capability ≡ name))
        → (if b then some k else effect_of cs name) ≡ some c
        → In c (k ∷ cs) × (c.capability ≡ name)
    by_head true e rest found =
        let same = some-injective k c found in
        (inl (sym same), ap (λ x. x.capability) (sym same) ∙ (eq_iff _ _).0 e)
    by_head false e rest found = let (i, same) = rest found in (inr i, same)

-- Each entry of a policy that names a capability once is found under its name.
pub In-effect_of :
    (cs : List CapabilityEffect) (c : CapabilityEffect)
    → Apart (λ x y. x.capability ≢ y.capability) cs
    → In c cs
    → effect_of cs c.capability ≡ some c
unfolding effect_of
In-effect_of [] c once i = absurd i
In-effect_of (k ∷ cs) c once (inl same) =
    rw ((eq_iff _ _).1 (ap (λ x. x.capability) (sym same))) (ap some (sym same))
In-effect_of (k ∷ cs) c once (inr later) =
    by_head (k.capability == c.capability) refl (In-effect_of cs c once.1 later)
  where
    by_head :
        (b : Bool)
        → (k.capability == c.capability) ≡ b
        → effect_of cs c.capability ≡ some c
        → (if b then some k else effect_of cs c.capability) ≡ some c
    by_head true e rest =
        absurd (All-In (λ y. k.capability ≢ y.capability) cs c later once.0 ((eq_iff _ _).0 e))
    by_head false e rest = rest
