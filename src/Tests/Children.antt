-- ===== src/Tests/Children.antt =====
-- The reading of a child's output (src/zworkbench/subprocess_supervisor.py) on small inputs, and the
-- theorems at them.
use zworkbench.Common.{true, false, some, List, [], ◌∷◌, ◌≡◌, refl}
use zworkbench.Common.Tables.{All}
use zworkbench.Supervisor.{
  Settings, Reading, new_reading, going, Ready, stdout_ready, stderr_ready, is_over, partition,
  with_buffer, with_line, deliver_line, deliver, close_stdout, close_stderr, with_stderr,
  read_stdout, read_stderr, read_ready, and_then, read_all, Turn, finished, failed, read_on,
  read_turn, read, line_too_large,
}
use zworkbench.Supervisor.Cut.{join_lines, NotNewline, GoodLine, deliver-Unbroken}
use zworkbench.Supervisor.Kept.{stdout_text, all_ready}
use zworkbench.Supervisor.Lines.{read-lines}
use zworkbench.Supervisor.Deadline.{is_waiting, read-ends}

abbrev settings : Settings
settings = record {
  line_cap = some 4;
  stderr_cap = some 4;
  takes_line = λ line. true;
  takes_stderr = λ bytes. true;
}

abbrev turn : List Ready → Turn
turn ready = record { is_interrupted = false; is_expired = false; ready = ready }

abbrev late_turn : Turn
late_turn = record { is_interrupted = false; is_expired = true; ready = [] }

-- "ab\nc" and "\n", with a byte on stderr, and then the ends.
abbrev two_lines : List Turn
two_lines =
    turn (stdout_ready (97 ∷ 98 ∷ 10 ∷ 99 ∷ []) ∷ stderr_ready (33 ∷ []) ∷ [])
    ∷ turn (stdout_ready (10 ∷ []) ∷ stderr_ready [] ∷ [])
    ∷ turn []
    ∷ turn (stdout_ready [] ∷ [])
    ∷ []

abbrev two_lines_read : Reading
two_lines_read = record {
  stdout_open = false;
  stderr_open = false;
  open_streams = 0;
  stdout_buffer = [];
  stderr_bytes = 1;
  digested = 33 ∷ [];
  lines = (97 ∷ 98 ∷ []) ∷ (99 ∷ []) ∷ [];
}

two_lines-finished : read settings two_lines new_reading ≡ finished two_lines_read
unfolding read read_turn read_on read_all and_then read_ready read_stdout read_stderr close_stdout
    close_stderr with_stderr deliver deliver_line with_line with_buffer partition is_over
    new_reading
two_lines-finished = refl

-- The same lines in one chunk are over the cap together.
abbrev one_chunk : List Turn
one_chunk = turn (stdout_ready (97 ∷ 98 ∷ 10 ∷ 99 ∷ 10 ∷ []) ∷ []) ∷ []

one_chunk_refused :
    read settings one_chunk new_reading
    ≡ failed line_too_large (with_buffer (97 ∷ 98 ∷ 10 ∷ 99 ∷ 10 ∷ []) new_reading)
unfolding read read_turn read_on read_all and_then read_ready read_stdout with_buffer is_over
    new_reading
one_chunk_refused = refl

read-lines_example :
    (join_lines two_lines_read.lines ≡ stdout_text (all_ready two_lines))
    × All (GoodLine (some 4)) two_lines_read.lines
read-lines_example = read-lines settings two_lines two_lines_read two_lines-finished

read-ends_example : is_waiting (read settings (turn [] ∷ late_turn ∷ []) new_reading) ≡ false
read-ends_example = read-ends settings (turn [] ∷ late_turn ∷ []) new_reading refl

abbrev buffered : Reading
buffered = record {
  stdout_open = true;
  stderr_open = true;
  open_streams = 2;
  stdout_buffer = 97 ∷ 10 ∷ 98 ∷ 10 ∷ 99 ∷ [];
  stderr_bytes = 0;
  digested = [];
  lines = [];
}

abbrev delivered : Reading
delivered = record {
  stdout_open = true;
  stderr_open = true;
  open_streams = 2;
  stdout_buffer = 99 ∷ [];
  stderr_bytes = 0;
  digested = [];
  lines = (97 ∷ []) ∷ (98 ∷ []) ∷ [];
}

buffered-delivered : deliver settings 5 buffered ≡ going delivered
unfolding deliver deliver_line with_line with_buffer partition
buffered-delivered = refl

deliver-Unbroken_example : All NotNewline (99 ∷ [])
deliver-Unbroken_example = deliver-Unbroken settings buffered delivered buffered-delivered
