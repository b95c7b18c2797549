-- ===== src/Supervisor/Deadline.antt =====
-- The end of `LineStreamSupervisor.read` (src/zworkbench/subprocess_supervisor.py).
use zworkbench.Common.{Bool, true, false, ◌||◌, List, [], ◌∷◌, ◌≡◌, refl, nat_eq, if◌then◌else◌}
use zworkbench.Supervisor.{
  Settings, Failure, Reading, Step, going, raised, Turn, Outcome, finished, waiting, failed,
  read_all, read_on, read_turn, read,
}

abbrev pub is_waiting : Outcome → Bool
is_waiting (waiting s) = true
is_waiting (finished s) = false
is_waiting (failed f s) = false

-- The deadline has passed at one of the turns.
abbrev pub runs_out : List Turn → Bool
runs_out [] = false
runs_out (t ∷ ts) = t.is_expired || runs_out ts

-- Whatever the child does, and from whatever state, `read` returns or raises no later than the first
-- turn at which the deadline has passed.
pub read-ends :
    (st : Settings) (ts : List Turn) (s : Reading)
    → runs_out ts ≡ true
    → is_waiting (read st ts s) ≡ false
unfolding read read_turn read_on
read-ends st [] s h = cc
read-ends st (t ∷ ts) s h =
    by_open (nat_eq s.open_streams 0)
      (by_turn t.is_interrupted t.is_expired h (by_step (read-ends st ts) (read_all st t.ready s)))
  where
    by_step :
        ((after : Reading) → runs_out ts ≡ true → is_waiting (read st ts after) ≡ false)
        → (step : Step) → runs_out ts ≡ true
        → is_waiting (read_on step (read st ts)) ≡ false
    by_step others (going after) k = others after k
    by_step others (raised f after) k = refl

    by_turn :
        (i x : Bool)
        → (x || runs_out ts) ≡ true
        → (runs_out ts ≡ true → is_waiting (read_on (read_all st t.ready s) (read st ts)) ≡ false)
        → is_waiting (
            if i
            then failed Failure.by_caller s
            else if x
            then failed Failure.timed_out s
            else read_on (read_all st t.ready s) (read st ts))
          ≡ false
    by_turn true x k f = refl
    by_turn false true k f = refl
    by_turn false false k f = f k

    by_open :
        (b : Bool)
        → is_waiting (read_turn st t (read st ts) s) ≡ false
        → is_waiting (if b then finished s else read_turn st t (read st ts) s) ≡ false
    by_open true k = refl
    by_open false k = k
