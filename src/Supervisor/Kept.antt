-- ===== src/Supervisor/Kept.antt =====
-- What holds between two reads of `LineStreamSupervisor.read` (src/zworkbench/subprocess_supervisor.py).
use mathlib.Core.Bool.{true≢false}
use zworkbench.Supervisor.Cut.{
  append_assoc, is_over-Fits, deliver-Loose, Going, Loose, one, join_lines, GoodLine,
}
use zworkbench.Common.{
  ◌+◌, ◌≡◌, refl, sym, ap, ◌∙◌, Bool, true, false, List, [], ◌∷◌, ◌++◌, arith, if◌then◌else◌,
}
use zworkbench.Common.Tables.{length, All}
use zworkbench.Supervisor.{
  Bytes, Settings, Failure, Reading, Step, going, raised, Ready, stdout_ready, stderr_ready,
  is_over, with_buffer, deliver, close_stdout, close_stderr, with_stderr, is_empty, read_stdout,
  read_stderr, read_ready, Turn,
}

-- What the child wrote on stdout: everything up to the end of the stream.
abbrev pub stdout_text : List Ready → Bytes
stdout_text [] = []
stdout_text (stdout_ready [] ∷ rs) = []
stdout_text (stdout_ready (b ∷ bs) ∷ rs) = (b ∷ bs) ++ stdout_text rs
stdout_text (stderr_ready bs ∷ rs) = stdout_text rs

abbrev pub all_ready : List Turn → List Ready
all_ready [] = []
all_ready (t ∷ ts) = t.ready ++ all_ready ts

abbrev pub unread : Bool → Bytes → Bytes
unread true later = later
unread false later = []

unread-open : (o : Bool) (later : Bytes) → o ≡ true → unread o later ≡ later
unread-open true later e = refl
unread-open false later e = cc

unread-closed : (o : Bool) (later others : Bytes) → o ≡ false → unread o later ≡ unread o others
unread-closed true later others e = cc
unread-closed false later others e = refl

pub unread-none : (o : Bool) (later : Bytes) → o ≡ false → unread o later ≡ []
unread-none true later e = cc
unread-none false later e = refl

-- What holds between two reads: the same of the text to come as long as stdout is open, and when it
-- is closed nothing is left in the buffer.
pub record Kept (st : Settings) (whole later : Bytes) (s : Reading) : Type 0 where
  pub joined : join_lines s.lines ++ (s.stdout_buffer ++ unread s.stdout_open later) ≡ whole
  pub are_good : All (GoodLine st.line_cap) s.lines
  pub is_flushed : s.stdout_open ≡ false → s.stdout_buffer ≡ []
  pub counted : s.open_streams ≡ one s.stdout_open + one s.stderr_open

Loose-Kept :
    (st : Settings) (whole later : Bytes) (s : Reading)
    → Loose st whole later s
    → Kept st whole later s
Loose-Kept st whole later s h = record {
  joined =
      ap (λ l. join_lines s.lines ++ (s.stdout_buffer ++ l))
        (unread-open s.stdout_open later h.is_open)
      ∙ h.joined;
  are_good = h.are_good;
  is_flushed = λ e. absurd (true≢false (sym h.is_open ∙ e));
  counted = h.counted;
}

Going-map :
    (P Q : Reading → Type 0)
    → ((s : Reading) → P s → Q s)
    → (step : Step) → Going P step
    → Going Q step
Going-map P Q f (going s) h = f s h
Going-map P Q f (raised e s) h = tt

is_empty-[] : (bs : Bytes) → is_empty bs ≡ true → bs ≡ []
is_empty-[] [] h = refl
is_empty-[] (b ∷ bs) h = cc

module _ (st : Settings) (whole : Bytes) where
  read_stdout-Kept :
      (bs : Bytes) (rs : List Ready) (s : Reading)
      → s.stdout_open ≡ true
      → Kept st whole (stdout_text (stdout_ready bs ∷ rs)) s
      → Going (Kept st whole (stdout_text rs)) (read_stdout st bs s)
  unfolding read_stdout close_stdout with_buffer
  read_stdout-Kept [] rs s e h = by_empty (is_empty s.stdout_buffer) refl
    where
      by_empty :
          (t : Bool)
          → is_empty s.stdout_buffer ≡ t
          → Going (Kept st whole (stdout_text rs)) (
              if t then going (close_stdout s) else raised Failure.incomplete_line (close_stdout s))
      by_empty true empty = record {
        joined =
            ap (λ l. join_lines s.lines ++ (s.stdout_buffer ++ l))
              (sym (unread-open s.stdout_open [] e))
            ∙ h.joined;
        are_good = h.are_good;
        is_flushed = λ _. is_empty-[] s.stdout_buffer empty;
        counted = let k = h.counted in let o = ap one e in omega arith;
      }
      by_empty false empty = tt
  read_stdout-Kept (b ∷ bs) rs s e h =
      by_size (is_over st.line_cap (length (s.stdout_buffer ++ b ∷ bs))) refl
    where
      by_size :
          (t : Bool)
          → is_over st.line_cap (length (s.stdout_buffer ++ b ∷ bs)) ≡ t
          → Going (Kept st whole (stdout_text rs)) (
              if t
              then raised Failure.line_too_large (with_buffer (s.stdout_buffer ++ b ∷ bs) s)
              else deliver st
                  (length (s.stdout_buffer ++ b ∷ bs))
                  (with_buffer (s.stdout_buffer ++ b ∷ bs) s))
      by_size true over = tt
      by_size false over = Going-map _ _ (Loose-Kept st whole (stdout_text rs)) _ (
          deliver-Loose st whole (stdout_text rs) _ _ (record {
            joined =
                ap (λ l. join_lines s.lines ++ l)
                  (append_assoc s.stdout_buffer (b ∷ bs) (stdout_text rs)
                    ∙ ap (λ l. s.stdout_buffer ++ l)
                        (sym (unread-open s.stdout_open ((b ∷ bs) ++ stdout_text rs) e)))
                ∙ h.joined;
            are_good = h.are_good;
            fits = is_over-Fits st.line_cap _ over;
            is_open = e;
            counted = h.counted;
          }))

  read_stderr-Kept :
      (bs later : Bytes) (s : Reading)
      → s.stderr_open ≡ true
      → Kept st whole later s
      → Going (Kept st whole later) (read_stderr st bs s)
  unfolding read_stderr close_stderr with_stderr
  read_stderr-Kept [] later s e h = record {
    joined = h.joined;
    are_good = h.are_good;
    is_flushed = h.is_flushed;
    counted = let k = h.counted in let o = ap one e in omega arith;
  }
  read_stderr-Kept (b ∷ bs) later s e h =
      by_tests (is_over st.stderr_cap (s.stderr_bytes + length (b ∷ bs))) (st.takes_stderr (b ∷ bs))
    where
      by_tests :
          (t u : Bool)
          → Going (Kept st whole later) (
              if t
              then raised Failure.stderr_too_large
                  (with_stderr (s.stderr_bytes + length (b ∷ bs)) [] s)
              else if u
              then going (with_stderr (s.stderr_bytes + length (b ∷ bs)) (b ∷ bs) s)
              else raised Failure.by_caller
                  (with_stderr (s.stderr_bytes + length (b ∷ bs)) (b ∷ bs) s))
      by_tests true u = tt
      by_tests false true = record {
        joined = h.joined;
        are_good = h.are_good;
        is_flushed = h.is_flushed;
        counted = h.counted;
      }
      by_tests false false = tt

  pub read_ready-Kept :
      (r : Ready) (rs : List Ready) (s : Reading)
      → Kept st whole (stdout_text (r ∷ rs)) s
      → Going (Kept st whole (stdout_text rs)) (read_ready st r s)
  unfolding read_ready
  read_ready-Kept (stdout_ready bs) rs s h = by_open s.stdout_open refl
    where
      by_open :
          (o : Bool)
          → s.stdout_open ≡ o
          → Going (Kept st whole (stdout_text rs)) (if o then read_stdout st bs s else going s)
      by_open true e = read_stdout-Kept bs rs s e h
      by_open false e = record {
        joined =
            ap (λ l. join_lines s.lines ++ (s.stdout_buffer ++ l))
              (unread-closed s.stdout_open (stdout_text rs) (stdout_text (stdout_ready bs ∷ rs)) e)
            ∙ h.joined;
        are_good = h.are_good;
        is_flushed = h.is_flushed;
        counted = h.counted;
      }
  read_ready-Kept (stderr_ready bs) rs s h = by_open s.stderr_open refl
    where
      by_open :
          (o : Bool)
          → s.stderr_open ≡ o
          → Going (Kept st whole (stdout_text rs)) (if o then read_stderr st bs s else going s)
      by_open true e = read_stderr-Kept bs (stdout_text rs) s e h
      by_open false e = h
