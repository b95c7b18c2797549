-- ===== src/Heartbeat.antt =====
-- The liveness of a Worker's connection, src/zworkbench/worker_heartbeat.py. Readings of the monotonic
-- clock are whole numbers of ticks. The thread is run on the list of its polls: what each one finds.
pub mod Alarm
pub mod Silence
use zworkbench.Common.{
  ℕ, zero, suc, ◌+◌, Bool, true, false, Option, none, some, List, [], ◌∷◌, ◌++◌, ltb, if◌then◌else◌,
}
use zworkbench.Common.Int.{ℤ, pos, negsuc}

-- `heartbeat_lost`: none is the ValueError.
unfoldable pub heartbeat_lost : ℕ → ℕ → ℤ → Option Bool
heartbeat_lost now last_activity (negsuc n) = none
heartbeat_lost now last_activity (pos zero) = none
heartbeat_lost now last_activity (pos (suc t)) = some (ltb (last_activity + suc t) now)

-- `WORKER_HEARTBEAT_INTERVAL_SEC` and `WORKER_HEARTBEAT_TIMEOUT_SEC`, in seconds
abbrev pub default_interval : ℕ
default_interval = 30

abbrev pub default_timeout : ℕ
default_timeout = 90

-- `HeartbeatMonitor`: `reported` lists the calls of `on_lost`, and `ticked` those of `on_tick`.
pub record Monitor : Type 0 where
  pub interval : ℕ
  pub timeout : ℤ
  pub has_tick : Bool
  pub is_lost : Bool
  pub tick_count : ℕ
  pub reported : List ℕ
  pub ticked : List ℕ

-- `HeartbeatMonitor.__init__`: none is the ValueError.
unfoldable pub new_monitor : ℤ → ℤ → Bool → Option Monitor
new_monitor (negsuc n) timeout has_tick = none
new_monitor (pos zero) timeout has_tick = none
new_monitor (pos (suc n)) timeout has_tick = some (record {
  interval = suc n;
  timeout = timeout;
  has_tick = has_tick;
  is_lost = false;
  tick_count = 0;
  reported = [];
  ticked = [];
})

-- What a round of the loop finds: whether `stop` has been called when the wait ends, the clock, and
-- the last activity.
pub record Poll : Type 0 where
  pub is_stopped : Bool
  pub at : ℕ
  pub last_activity : ℕ

-- How the thread stands: waiting, stopped, ended with a report, or ended by the ValueError.
pub data Standing : Type 0 where
  waiting stopped gave_alarm failed : Standing

unfoldable pub tick : ℕ → Monitor → Monitor
tick now m =
    if m.has_tick
    then record {
      interval = m.interval;
      timeout = m.timeout;
      has_tick = m.has_tick;
      is_lost = m.is_lost;
      tick_count = m.tick_count + 1;
      reported = m.reported;
      ticked = m.ticked ++ now ∷ [];
    }
    else m

unfoldable pub report : ℕ → Monitor → Monitor
report now m = record {
  interval = m.interval;
  timeout = m.timeout;
  has_tick = m.has_tick;
  is_lost = true;
  tick_count = m.tick_count;
  reported = m.reported ++ now ∷ [];
  ticked = m.ticked;
}

-- What a round does with the answer of `heartbeat_lost`: the tick has come first.
unfoldable pub heard : Option Bool → Poll → Monitor → Monitor × Standing
unfolding tick report
heard none p m = (tick p.at m, failed)
heard (some true) p m = (report p.at (tick p.at m), gave_alarm)
heard (some false) p m = (tick p.at m, waiting)

-- One round of `_loop`
unfoldable pub round : Poll → Monitor → Monitor × Standing
unfolding heartbeat_lost heard
round p m =
    if p.is_stopped then (m, stopped) else heard (heartbeat_lost p.at p.last_activity m.timeout) p m

-- `_loop`: a thread that has ended polls no more.
unfoldable pub watch : List Poll → Monitor × Standing → Monitor × Standing
unfolding round
watch [] s = s
watch (p ∷ ps) (m, waiting) = watch ps (round p m)
watch (p ∷ ps) (m, stopped) = (m, stopped)
watch (p ∷ ps) (m, gave_alarm) = (m, gave_alarm)
watch (p ∷ ps) (m, failed) = (m, failed)
