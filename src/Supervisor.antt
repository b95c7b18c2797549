-- ===== src/Supervisor.antt =====
-- The reading of a child process's output, `LineStreamSupervisor` of
-- src/zworkbench/subprocess_supervisor.py. Bytes are numbers. The process, the clock and the caller's
-- callbacks are run on the list of the loop's turns: what each one finds.
pub mod Cut
pub mod Kept
pub mod Lines
pub mod Deadline
use zworkbench.Common.{
  ℕ, zero, suc, ◌+◌, ◌-◌, Bool, true, false, not, Option, none, some, List, [], ◌∷◌, ◌++◌, map, ltb,
  nat_eq, if◌then◌else◌,
}
use zworkbench.Common.Tables.{length}

abbrev pub Bytes : Type 0
Bytes = List ℕ

-- "\n"
abbrev pub newline : ℕ
newline = 10

-- `DEFAULT_LINE_CAP_BYTES` and `DEFAULT_STDERR_CAP_BYTES`
abbrev pub default_line_cap : Option ℕ
default_line_cap = some 65536

abbrev pub default_stderr_cap : Option ℕ
default_stderr_cap = some 65536

-- The caps, and whether the caller's `on_line` and `on_stderr_data` return.
pub record Settings : Type 0 where
  pub line_cap : Option ℕ
  pub stderr_cap : Option ℕ
  pub takes_line : Bytes → Bool
  pub takes_stderr : Bytes → Bool

-- What `read` raises; the first five have a factory of the caller's.
pub data Failure : Type 0 where
  timed_out line_too_large stderr_too_large incomplete_line empty_line by_caller : Failure

-- `lines` lists the calls of `on_line`, and `digested` what the digest was given.
pub record Reading : Type 0 where
  pub stdout_open : Bool
  pub stderr_open : Bool
  pub open_streams : ℕ
  pub stdout_buffer : Bytes
  pub stderr_bytes : ℕ
  pub digested : Bytes
  pub lines : List Bytes

-- A supervisor that has read nothing yet, at the start of `read`.
unfoldable pub new_reading : Reading
new_reading = record {
  stdout_open = true;
  stderr_open = true;
  open_streams = 2;
  stdout_buffer = [];
  stderr_bytes = 0;
  digested = [];
  lines = [];
}

pub data Step : Type 0 where
  going : Reading → Step
  raised : Failure → Reading → Step

-- A stream that `select` reports, with what `os.read` returns: no bytes at its end.
pub data Ready : Type 0 where
  stdout_ready stderr_ready : Bytes → Ready

unfoldable pub is_over : Option ℕ → ℕ → Bool
is_over none n = false
is_over (some cap) n = ltb cap n

abbrev pub with_head : ℕ → Option (Bytes × Bytes) → Option (Bytes × Bytes)
with_head b none = none
with_head b (some (line, rest)) = some (b ∷ line, rest)

-- `stdout_buffer.partition(b"\n")`: none when there is no newline in it.
unfoldable pub partition : Bytes → Option (Bytes × Bytes)
partition [] = none
partition (b ∷ bs) =
    let later = partition bs in if nat_eq b newline then some ([], bs) else with_head b later

unfoldable pub with_buffer : Bytes → Reading → Reading
with_buffer bs s = record {
  stdout_open = s.stdout_open;
  stderr_open = s.stderr_open;
  open_streams = s.open_streams;
  stdout_buffer = bs;
  stderr_bytes = s.stderr_bytes;
  digested = s.digested;
  lines = s.lines;
}

unfoldable pub with_line : Bytes → Reading → Reading
with_line line s = record {
  stdout_open = s.stdout_open;
  stderr_open = s.stderr_open;
  open_streams = s.open_streams;
  stdout_buffer = s.stdout_buffer;
  stderr_bytes = s.stderr_bytes;
  digested = s.digested;
  lines = s.lines ++ line ∷ [];
}

-- One round of the loop, with the rounds after it.
unfoldable pub deliver_line : Settings → (Reading → Step) → Option (Bytes × Bytes) → Reading → Step
deliver_line st others none s = going s
deliver_line st others (some ([], rest)) s = raised empty_line (with_buffer rest s)
deliver_line st others (some (b ∷ bs, rest)) s =
    let given = with_line (b ∷ bs) (with_buffer rest s) in
    if st.takes_line (b ∷ bs) then others given else raised by_caller given

-- The loop `while b"\n" in stdout_buffer`: at most as many rounds as there are bytes.
unfoldable pub deliver : Settings → ℕ → Reading → Step
deliver st zero s = going s
deliver st (suc n) s = deliver_line st (deliver st n) (partition s.stdout_buffer) s

unfoldable pub close_stdout : Reading → Reading
close_stdout s = record {
  stdout_open = false;
  stderr_open = s.stderr_open;
  open_streams = s.open_streams - 1;
  stdout_buffer = s.stdout_buffer;
  stderr_bytes = s.stderr_bytes;
  digested = s.digested;
  lines = s.lines;
}

unfoldable pub close_stderr : Reading → Reading
close_stderr s = record {
  stdout_open = s.stdout_open;
  stderr_open = false;
  open_streams = s.open_streams - 1;
  stdout_buffer = s.stdout_buffer;
  stderr_bytes = s.stderr_bytes;
  digested = s.digested;
  lines = s.lines;
}

unfoldable pub with_stderr : ℕ → Bytes → Reading → Reading
with_stderr n bs s = record {
  stdout_open = s.stdout_open;
  stderr_open = s.stderr_open;
  open_streams = s.open_streams;
  stdout_buffer = s.stdout_buffer;
  stderr_bytes = n;
  digested = s.digested ++ bs;
  lines = s.lines;
}

abbrev pub is_empty : Bytes → Bool
is_empty [] = true
is_empty (b ∷ bs) = false

unfoldable pub read_stdout : Settings → Bytes → Reading → Step
read_stdout st [] s =
    if is_empty s.stdout_buffer
    then going (close_stdout s)
    else raised incomplete_line (close_stdout s)
read_stdout st (b ∷ bs) s =
    let longer = s.stdout_buffer ++ b ∷ bs in
    if is_over st.line_cap (length longer)
    then raised line_too_large (with_buffer longer s)
    else deliver st (length longer) (with_buffer longer s)

unfoldable pub read_stderr : Settings → Bytes → Reading → Step
read_stderr st [] s = going (close_stderr s)
read_stderr st (b ∷ bs) s =
    let total = s.stderr_bytes + length (b ∷ bs) in
    if is_over st.stderr_cap total
    then raised stderr_too_large (with_stderr total [] s)
    else if st.takes_stderr (b ∷ bs)
    then going (with_stderr total (b ∷ bs) s)
    else raised by_caller (with_stderr total (b ∷ bs) s)

-- A selector reports a stream only while it is registered.
unfoldable pub read_ready : Settings → Ready → Reading → Step
read_ready st (stdout_ready bs) s = if s.stdout_open then read_stdout st bs s else going s
read_ready st (stderr_ready bs) s = if s.stderr_open then read_stderr st bs s else going s

unfoldable pub and_then : Step → (Reading → Step) → Step
and_then (going s) others = others s
and_then (raised f s) others = raised f s

unfoldable pub read_all : Settings → List Ready → Reading → Step
read_all st [] s = going s
read_all st (r ∷ rs) s = and_then (read_ready st r s) (read_all st rs)

-- What a turn of the loop finds: whether `on_iteration` raises, whether the deadline has passed, and
-- what is ready.
pub record Turn : Type 0 where
  pub is_interrupted : Bool
  pub is_expired : Bool
  pub ready : List Ready

-- `read` returned, raised, or is still in its loop when the turns end.
pub data Outcome : Type 0 where
  finished waiting : Reading → Outcome
  failed : Failure → Reading → Outcome

unfoldable pub read_on : Step → (Reading → Outcome) → Outcome
read_on (going s) others = others s
read_on (raised f s) others = failed f s

-- One turn of the loop, with the turns after it.
unfoldable pub read_turn : Settings → Turn → (Reading → Outcome) → Reading → Outcome
read_turn st t others s =
    if t.is_interrupted
    then failed by_caller s
    else if t.is_expired
    then failed timed_out s
    else read_on (read_all st t.ready s) others

-- `read` of a process that has both pipes.
unfoldable pub read : Settings → List Turn → Reading → Outcome
read st [] s = if nat_eq s.open_streams 0 then finished s else waiting s
read st (t ∷ ts) s =
    let turned = read_turn st t (read st ts) s in
    if nat_eq s.open_streams 0 then finished s else turned
