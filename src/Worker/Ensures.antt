-- ===== src/Worker/Ensures.antt =====
-- Postconditions of checked reads (src/zworkbench/worker_contract.py): what is known of a value that
-- a check has let through.
use zworkbench.Common.{
  String, ◌≡◌, refl, subst, Bool, true, false, Option, none, some, if◌then◌else◌,
}
use zworkbench.Common.Text.{is_blank}
use zworkbench.Json.{Value, Fields, text, null, bool, int, literal, arr, obj, get}
use zworkbench.Worker.Base.{
  Checked, good, bad, Failure, ◌>>=◌, ◌>>◌, refuse_if, checked_text, text_at, reject_secrets,
  secret_named, refused, Code, member_or,
}

abbrev pub Holding : {A : Type 0} → (A → Type 0) → Checked A → Type 0
Holding P (good a) = P a
Holding P (bad e) = Unit

-- If the check lets a value through, then the value has `P`.
pub record Ensures {A : Type 0} (P : A → Type 0) (m : Checked A) : Type 0 where
  pub held : Holding P m

module _ {A : Type 0} {P : A → Type 0} where
  -- What holds of the value when the check has succeeded.
  pub ensured : (m : Checked A) (a : A) → Ensures P m → m ≡ good a → P a
  ensured m a h e = subst (Holding P) e h.held

  pub Ensures-good : (a : A) → P a → Ensures P (good a)
  Ensures-good a h = record { held = h }

  pub Ensures-bad : (e : Failure) → Ensures P (bad e)
  Ensures-bad e = record { held = tt }

module _ {A B : Type 0} {P : A → Type 0} {Q : B → Type 0} where
  pub Ensures-bind :
      (m : Checked A) {f : A → Checked B}
      → Ensures P m
      → ((a : A) → P a → Ensures Q (f a))
      → Ensures Q (m >>= f)
  unfolding ◌>>=◌
  Ensures-bind (good a) h k = k a h.held
  Ensures-bind (bad e) h k = Ensures-bad e

module _ {A B : Type 0} {Q : B → Type 0} where
  -- A step of which nothing is needed.
  pub Ensures-skip :
      (m : Checked A) {f : A → Checked B} → ((a : A) → Ensures Q (f a)) → Ensures Q (m >>= f)
  unfolding ◌>>=◌
  Ensures-skip (good a) k = k a
  Ensures-skip (bad e) k = Ensures-bad e

module _ {A B : Type 0} {P : A → Type 0} {Q : B → Type 0} where
  pub Ensures-guard :
      (m : Checked A) {n : Checked B}
      → Ensures P m
      → ((a : A) → P a → Ensures Q n)
      → Ensures Q (m >> n)
  unfolding ◌>>◌
  Ensures-guard (good a) h k = k a h.held
  Ensures-guard (bad e) h k = Ensures-bad e

module _ {A B : Type 0} {Q : B → Type 0} where
  -- A test of which nothing is needed.
  pub Ensures-then : (m : Checked A) {n : Checked B} → Ensures Q n → Ensures Q (m >> n)
  unfolding ◌>>◌
  Ensures-then (good a) k = k
  Ensures-then (bad e) k = Ensures-bad e

pub refuse_if-Ensures : (b : Bool) (e : Failure) → Ensures (λ _. b ≡ false) (refuse_if b e)
refuse_if-Ensures true e = Ensures-bad e
refuse_if-Ensures false e = Ensures-good tt refl

pub checked_text-Ensures : (v : Value) → Ensures (λ s. is_blank s ≡ false) (checked_text v)
unfolding checked_text
checked_text-Ensures (text s) = blank (is_blank s) refl
  where
    blank :
        (b : Bool)
        → is_blank s ≡ b
        → Ensures (λ t. is_blank t ≡ false) (if b then bad (refused Code.invalid_text) else good s)
    blank true h = Ensures-bad _
    blank false h = Ensures-good s h
checked_text-Ensures null = Ensures-bad _
checked_text-Ensures (bool b) = Ensures-bad _
checked_text-Ensures (int n) = Ensures-bad _
checked_text-Ensures (literal s) = Ensures-bad _
checked_text-Ensures (arr vs) = Ensures-bad _
checked_text-Ensures (obj fs) = Ensures-bad _

pub text_at-Ensures : (k : String) (fs : Fields) → Ensures (λ s. is_blank s ≡ false) (text_at k fs)
unfolding text_at
text_at-Ensures k fs = by_member (get k fs)
  where
    by_member :
        (o : Option Value)
        → Ensures (λ s. is_blank s ≡ false) (member_or (bad (refused Code.invalid_text)) o)
    by_member none = Ensures-bad _
    by_member (some v) = checked_text-Ensures v

pub reject_secrets-Ensures :
    (fs : Fields) → Ensures (λ _. secret_named (obj fs) ≡ false) (reject_secrets fs)
unfolding reject_secrets
reject_secrets-Ensures fs = refuse_if-Ensures _ _
