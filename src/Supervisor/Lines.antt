-- ===== src/Supervisor/Lines.antt =====
-- The lines that `LineStreamSupervisor.read` hands on (src/zworkbench/subprocess_supervisor.py): they
-- are the child's output, however it is cut into chunks.
use zworkbench.Supervisor.Kept.{stdout_text, all_ready, Kept, unread-none, read_ready-Kept}
use zworkbench.Supervisor.Cut.{append_nil, nat_eq-≡, Going, one, join_lines, GoodLine}
use zworkbench.Common.{
  ℕ, ◌+◌, ◌≡◌, refl, sym, ap, ◌∙◌, subst, Bool, true, false, List, [], ◌∷◌, ◌++◌, nat_eq, arith,
  if◌then◌else◌,
}
use zworkbench.Common.Tables.{All}
use zworkbench.Supervisor.{
  Bytes, Settings, Failure, Reading, new_reading, Step, going, raised, Ready, read_ready, and_then,
  read_all, Turn, Outcome, finished, waiting, failed, read_on, read_turn, read,
}

module _ (st : Settings) (whole : Bytes) where
  read_all-Kept :
      (rs more : List Ready) (s : Reading)
      → Kept st whole (stdout_text (rs ++ more)) s
      → Going (Kept st whole (stdout_text more)) (read_all st rs s)
  unfolding read_all and_then
  read_all-Kept [] more s h = h
  read_all-Kept (r ∷ rs) more s h =
      by_step (read_all-Kept rs more) (read_ready st r s)
        (read_ready-Kept st whole r (rs ++ more) s h)
    where
      by_step :
          ((t : Reading)
            → Kept st whole (stdout_text (rs ++ more)) t
            → Going (Kept st whole (stdout_text more)) (read_all st rs t))
          → (step : Step) → Going (Kept st whole (stdout_text (rs ++ more))) step
          → Going (Kept st whole (stdout_text more)) (and_then step (read_all st rs))
      by_step others (going t) k = others t k
      by_step others (raised f t) k = tt

  -- What is claimed of a reading that has returned.
  abbrev Whole : Outcome → Type 0
  Whole (finished s) = (join_lines s.lines ≡ whole) × All (GoodLine st.line_cap) s.lines
  Whole (waiting s) = Unit
  Whole (failed f s) = Unit

  all_closed : (o e : Bool) (n : ℕ) → n ≡ one o + one e → nat_eq n 0 ≡ true → o ≡ false
  all_closed true e n h k = let z = nat_eq-≡ n 0 k in absurd (omega arith)
  all_closed false e n h k = refl

  closed-Whole :
      (later : Bytes) (s : Reading)
      → nat_eq s.open_streams 0 ≡ true
      → Kept st whole later s
      → Whole (finished s)
  closed-Whole later s zero_open h =
      let closed = all_closed s.stdout_open s.stderr_open s.open_streams h.counted zero_open in
      (
        sym (append_nil (join_lines s.lines))
            ∙ ap (λ l. join_lines s.lines ++ (l ++ [])) (sym (h.is_flushed closed))
            ∙ ap (λ l. join_lines s.lines ++ (s.stdout_buffer ++ l))
                (sym (unread-none s.stdout_open later closed))
            ∙ h.joined,
        h.are_good,
      )

  read-Whole :
      (ts : List Turn) (s : Reading)
      → Kept st whole (stdout_text (all_ready ts)) s
      → Whole (read st ts s)
  unfolding read read_turn read_on
  read-Whole [] s h = by_open (nat_eq s.open_streams 0) refl
    where
      by_open :
          (b : Bool) → nat_eq s.open_streams 0 ≡ b → Whole (if b then finished s else waiting s)
      by_open true e = closed-Whole [] s e h
      by_open false e = tt
  read-Whole (t ∷ ts) s h = by_open (nat_eq s.open_streams 0) refl (
      by_turn t.is_interrupted t.is_expired (
        by_step (read-Whole ts) (read_all st t.ready s) (read_all-Kept t.ready (all_ready ts) s h)))
    where
      by_step :
          ((after : Reading)
            → Kept st whole (stdout_text (all_ready ts)) after
            → Whole (read st ts after))
          → (step : Step) → Going (Kept st whole (stdout_text (all_ready ts))) step
          → Whole (read_on step (read st ts))
      by_step others (going after) k = others after k
      by_step others (raised f after) k = tt

      by_turn :
          (i x : Bool)
          → Whole (read_on (read_all st t.ready s) (read st ts))
          → Whole (
              if i
              then failed Failure.by_caller s
              else if x
              then failed Failure.timed_out s
              else read_on (read_all st t.ready s) (read st ts))
      by_turn true x k = tt
      by_turn false true k = tt
      by_turn false false k = k

      by_open :
          (b : Bool)
          → nat_eq s.open_streams 0 ≡ b
          → Whole (read_turn st t (read st ts) s)
          → Whole (if b then finished s else read_turn st t (read st ts) s)
      by_open true e k = closed-Whole (stdout_text (all_ready (t ∷ ts))) s e h
      by_open false e k = k

-- When `read` returns, the lines it has handed on, each with its newline, are all that the child
-- wrote on stdout, however it came in chunks; each line has a byte, has no newline, and is within the
-- cap.
pub read-lines :
    (st : Settings) (ts : List Turn) (s : Reading)
    → read st ts new_reading ≡ finished s
    → (join_lines s.lines ≡ stdout_text (all_ready ts)) × All (GoodLine st.line_cap) s.lines
unfolding new_reading
read-lines st ts s h = subst (Whole st (stdout_text (all_ready ts))) h (
    read-Whole st (stdout_text (all_ready ts)) ts new_reading
      (record { joined = refl; are_good = tt; is_flushed = λ _. refl; counted = refl }))
