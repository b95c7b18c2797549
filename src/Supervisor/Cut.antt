-- ===== src/Supervisor/Cut.antt =====
-- How `LineStreamSupervisor.read` cuts its buffer into lines (src/zworkbench/subprocess_supervisor.py).
use zworkbench.Common.{
  ℕ, zero, suc, ◌+◌, ◌≤◌, ◌≡◌, refl, sym, ap, ◌∙◌, subst, Bool, true, false, Option, none, some,
  List, [], ◌∷◌, ◌++◌, nat_eq, arith, if◌then◌else◌,
}
use zworkbench.Common.Tables.{length, length-append, All, All-append}
use zworkbench.Supervisor.{
  Bytes, newline, Settings, Failure, Reading, Step, going, raised, is_over, with_head, partition,
  with_buffer, with_line, deliver_line, deliver, is_empty,
}

-- The lines as one text, each with its newline.
abbrev pub join_lines : List Bytes → Bytes
join_lines [] = []
join_lines (l ∷ ls) = l ++ newline ∷ join_lines ls

abbrev pub NotNewline : ℕ → Type 0
NotNewline b = nat_eq b newline ≡ false

abbrev pub Fits : Option ℕ → ℕ → Type 0
Fits none n = Unit
Fits (some cap) n = n ≤ cap

-- A line has a byte, no newline, and no more bytes than the cap allows.
abbrev pub GoodLine : Option ℕ → Bytes → Type 0
GoodLine cap l = (is_empty l ≡ false) × All NotNewline l × Fits cap (length l)

pub append_assoc : (xs ys zs : Bytes) → (xs ++ ys) ++ zs ≡ xs ++ (ys ++ zs)
append_assoc [] ys zs = refl
append_assoc (x ∷ xs) ys zs = ap (λ l. x ∷ l) (append_assoc xs ys zs)

pub append_nil : (xs : Bytes) → xs ++ [] ≡ xs
append_nil [] = refl
append_nil (x ∷ xs) = ap (λ l. x ∷ l) (append_nil xs)

join_lines-append :
    (ls : List Bytes) (l later : Bytes)
    → join_lines (ls ++ l ∷ []) ++ later ≡ join_lines ls ++ (l ++ newline ∷ later)
join_lines-append [] l later = append_assoc l (newline ∷ []) later
join_lines-append (k ∷ ls) l later =
    append_assoc k (newline ∷ join_lines (ls ++ l ∷ [])) later
    ∙ ap (λ rest. k ++ newline ∷ rest) (join_lines-append ls l later)
    ∙ sym (append_assoc k (newline ∷ join_lines ls) (l ++ newline ∷ later))

abbrev pub Splits : Bytes → Option (Bytes × Bytes) → Type 0
Splits bs none = All NotNewline bs
Splits bs (some (l, r)) = (bs ≡ l ++ newline ∷ r) × All NotNewline l

pub nat_eq-≡ : (a b : ℕ) → nat_eq a b ≡ true → a ≡ b
nat_eq-≡ a b h = ground arith

partition-Splits : (bs : Bytes) → Splits bs (partition bs)
unfolding partition
partition-Splits [] = tt
partition-Splits (b ∷ bs) = by_head (nat_eq b newline) refl (partition bs) (partition-Splits bs)
  where
    by_head :
        (t : Bool)
        → nat_eq b newline ≡ t
        → (o : Option (Bytes × Bytes)) → Splits bs o
        → Splits (b ∷ bs) (if t then some ([], bs) else with_head b o)
    by_head true e o h = (ap (λ c. c ∷ bs) (nat_eq-≡ b newline e), tt)
    by_head false e none h = (e, h)
    by_head false e (some (l, r)) h = (ap (λ k. b ∷ k) h.0, (e, h.1))

Fits-mono : (cap : Option ℕ) (m n : ℕ) → m ≤ n → Fits cap n → Fits cap m
Fits-mono none m n le h = tt
Fits-mono (some cap) m n le h = omega arith

pub is_over-Fits : (cap : Option ℕ) (n : ℕ) → is_over cap n ≡ false → Fits cap n
unfolding is_over
is_over-Fits none n h = tt
is_over-Fits (some cap) n h = ground arith

abbrev pub one : Bool → ℕ
one true = 1
one false = 0

-- A state whose lines, buffer and text to come make up `whole`.
pub record Loose (st : Settings) (whole later : Bytes) (s : Reading) : Type 0 where
  pub joined : join_lines s.lines ++ (s.stdout_buffer ++ later) ≡ whole
  pub are_good : All (GoodLine st.line_cap) s.lines
  pub fits : Fits st.line_cap (length s.stdout_buffer)
  pub is_open : s.stdout_open ≡ true
  pub counted : s.open_streams ≡ one s.stdout_open + one s.stderr_open

abbrev pub Going : (Reading → Type 0) → Step → Type 0
Going P (going s) = P s
Going P (raised f s) = Unit

with_line-Loose :
    (st : Settings) (whole later : Bytes) (b : ℕ) (bs rest : Bytes) (s : Reading)
    → Splits s.stdout_buffer (some (b ∷ bs, rest))
    → Loose st whole later s
    → Loose st whole later (with_line (b ∷ bs) (with_buffer rest s))
unfolding with_line with_buffer
with_line-Loose st whole later b bs rest s sp h =
    let line = b ∷ bs in
    let whole_length = ap length sp.0 ∙ length-append line (newline ∷ rest) in
    record {
      joined =
          join_lines-append s.lines line (rest ++ later)
          ∙ ap (λ l. join_lines s.lines ++ l)
              (sym (append_assoc line (newline ∷ rest) later) ∙ ap (λ l. l ++ later) (sym sp.0))
          ∙ h.joined;
      are_good = All-append (GoodLine st.line_cap) s.lines line h.are_good (
        refl,
        sp.1,
        Fits-mono st.line_cap (length line) (length s.stdout_buffer) (omega arith) h.fits,
      );
      fits = Fits-mono st.line_cap (length rest) (length s.stdout_buffer) (omega arith) h.fits;
      is_open = h.is_open;
      counted = h.counted;
    }

deliver_line-Loose :
    (st : Settings) (whole later : Bytes) (others : Reading → Step)
    → ((s : Reading) → Loose st whole later s → Going (Loose st whole later) (others s))
    → (o : Option (Bytes × Bytes)) (s : Reading) → Splits s.stdout_buffer o
    → Loose st whole later s
    → Going (Loose st whole later) (deliver_line st others o s)
unfolding deliver_line
deliver_line-Loose st whole later others ih none s sp h = h
deliver_line-Loose st whole later others ih (some ([], rest)) s sp h = tt
deliver_line-Loose st whole later others ih (some (b ∷ bs, rest)) s sp h =
    by_call (st.takes_line (b ∷ bs))
  where
    by_call :
        (t : Bool)
        → Going (Loose st whole later) (
            if t
            then others (with_line (b ∷ bs) (with_buffer rest s))
            else raised Failure.by_caller (with_line (b ∷ bs) (with_buffer rest s)))
    by_call true = ih _ (with_line-Loose st whole later b bs rest s sp h)
    by_call false = tt

pub deliver-Loose :
    (st : Settings) (whole later : Bytes) (n : ℕ) (s : Reading)
    → Loose st whole later s
    → Going (Loose st whole later) (deliver st n s)
unfolding deliver
deliver-Loose st whole later zero s h = h
deliver-Loose st whole later (suc n) s h =
    deliver_line-Loose st whole later (deliver st n) (deliver-Loose st whole later n)
      (partition s.stdout_buffer) s (partition-Splits s.stdout_buffer) h

deliver_line-Unbroken :
    (st : Settings) (others : Reading → Step) (n : ℕ)
    → ((s : Reading)
        → length s.stdout_buffer ≤ n
        → Going (λ after. All NotNewline after.stdout_buffer) (others s))
    → (o : Option (Bytes × Bytes)) (s : Reading) → Splits s.stdout_buffer o
    → length s.stdout_buffer ≤ suc n
    → Going (λ after. All NotNewline after.stdout_buffer) (deliver_line st others o s)
unfolding deliver_line with_line with_buffer
deliver_line-Unbroken st others n ih none s sp le = sp
deliver_line-Unbroken st others n ih (some ([], rest)) s sp le = tt
deliver_line-Unbroken st others n ih (some (b ∷ bs, rest)) s sp le =
    by_call (st.takes_line (b ∷ bs))
  where
    by_call :
        (t : Bool)
        → Going
            (λ after. All NotNewline after.stdout_buffer)
            (if t
              then others (with_line (b ∷ bs) (with_buffer rest s))
              else raised Failure.by_caller (with_line (b ∷ bs) (with_buffer rest s)))
    by_call true =
        let size = ap length sp.0 ∙ length-append (b ∷ bs) (newline ∷ rest) in
        ih (with_line (b ∷ bs) (with_buffer rest s)) (omega arith)
    by_call false = tt

deliver-Going :
    (st : Settings) (n : ℕ) (s : Reading)
    → length s.stdout_buffer ≤ n
    → Going (λ after. All NotNewline after.stdout_buffer) (deliver st n s)
unfolding deliver
deliver-Going st zero s le = by_buffer s.stdout_buffer le
  where
    by_buffer : (bs : Bytes) → length bs ≤ 0 → All NotNewline bs
    by_buffer [] h = tt
    by_buffer (b ∷ bs) h = absurd (omega arith)
deliver-Going st (suc n) s le =
    deliver_line-Unbroken st (deliver st n) n (deliver-Going st n) (partition s.stdout_buffer) s
      (partition-Splits s.stdout_buffer) le

-- When the loop over the lines of a buffer ends without an exception, no newline is left in the
-- buffer: as many rounds as the buffer has bytes are enough.
pub deliver-Unbroken :
    (st : Settings) (s after : Reading)
    → deliver st (length s.stdout_buffer) s ≡ going after
    → All NotNewline after.stdout_buffer
deliver-Unbroken st s after h =
    subst (Going (λ t. All NotNewline t.stdout_buffer)) h
      (deliver-Going st (length s.stdout_buffer) s (omega arith))
