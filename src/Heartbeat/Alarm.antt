-- ===== src/Heartbeat/Alarm.antt =====
-- The alarm of a heartbeat monitor (src/zworkbench/worker_heartbeat.py): given once, and never
-- without a silence.
use mathlib.Core.Option.{some-injective}
use zworkbench.Common.Int.{negsuc, pos, ℤ}
use zworkbench.Common.Tables.{length, All}
use zworkbench.Exec.{now}
use zworkbench.Heartbeat.{
  watch, gave_alarm, tick, Standing, heartbeat_lost, round, report, Poll, Monitor, waiting, failed,
  stopped, new_monitor, heard,
}
use zworkbench.Common.{
  some, ◌++◌, Bool, ℕ, ◌+◌, false, ◌≡◌, if◌then◌else◌, [], true, Option, ◌∷◌, List, ap, none, refl,
  subst, suc, zero, ltb, ◌≤◌, arith, ◌<◌, sym, ◌∙◌,
}

-- A monitor that has given its alarm has given it once, and is marked as lost; any other has given
-- none.
abbrev pub Reported : Monitor × Standing → Type 0
Reported (m, gave_alarm) = (m.is_lost ≡ true) × (length m.reported ≡ 1)
Reported (m, waiting) = (m.is_lost ≡ false) × (m.reported ≡ [])
Reported (m, stopped) = (m.is_lost ≡ false) × (m.reported ≡ [])
Reported (m, failed) = (m.is_lost ≡ false) × (m.reported ≡ [])

tick-Reported : (now : ℕ) (m : Monitor) → Reported (m, waiting) → Reported (tick now m, waiting)
unfolding tick
tick-Reported now m h = by_tick m.has_tick
  where
    by_tick :
        (b : Bool)
        → Reported (
          (if b
              then record {
                interval = m.interval;
                timeout = m.timeout;
                has_tick = m.has_tick;
                is_lost = m.is_lost;
                tick_count = m.tick_count + 1;
                reported = m.reported;
                ticked = m.ticked ++ now ∷ [];
              }
              else m),
          waiting,
        )
    by_tick true = h
    by_tick false = h

heard-Reported :
    (answer : Option Bool) (p : Poll) (m : Monitor)
    → Reported (m, waiting)
    → Reported (heard answer p m)
unfolding heard report
heard-Reported none p m h = tick-Reported p.at m h
heard-Reported (some true) p m h =
    let (_, unreported) = tick-Reported p.at m h in
    (refl, ap (λ calls. length (calls ++ p.at ∷ [])) unreported)
heard-Reported (some false) p m h = tick-Reported p.at m h

round-Reported : (p : Poll) (m : Monitor) → Reported (m, waiting) → Reported (round p m)
unfolding round
round-Reported p m h =
    by_stop p.is_stopped _ (heard-Reported (heartbeat_lost p.at p.last_activity m.timeout) p m h)
  where
    by_stop :
        (b : Bool) (s : Monitor × Standing) → Reported s → Reported (if b then (m, stopped) else s)
    by_stop true s k = h
    by_stop false s k = k

watch-Reported : (ps : List Poll) (s : Monitor × Standing) → Reported s → Reported (watch ps s)
unfolding watch
watch-Reported [] s h = h
watch-Reported (p ∷ ps) (m, waiting) h = watch-Reported ps (round p m) (round-Reported p m h)
watch-Reported (p ∷ ps) (m, stopped) h = h
watch-Reported (p ∷ ps) (m, gave_alarm) h = h
watch-Reported (p ∷ ps) (m, failed) h = h

new_monitor-Reported :
    (interval timeout : ℤ) (has_tick : Bool) (m : Monitor)
    → new_monitor interval timeout has_tick ≡ some m
    → Reported (m, waiting)
unfolding new_monitor
new_monitor-Reported (negsuc n) timeout has_tick m h = cc
new_monitor-Reported (pos zero) timeout has_tick m h = cc
new_monitor-Reported (pos (suc n)) timeout has_tick m h =
    subst (λ k. Reported (k, waiting)) (some-injective _ m h) (refl, refl)

-- Whatever a new monitor polls, `on_lost` is called at most once: exactly once when the thread ends by
-- its alarm, with `lost` set, and never, with `lost` clear, while it waits or when it ends otherwise.
pub monitor-Reported :
    (interval timeout : ℤ) (has_tick : Bool) (m : Monitor) (ps : List Poll)
    → new_monitor interval timeout has_tick ≡ some m
    → Reported (watch ps (m, waiting))
monitor-Reported interval timeout has_tick m ps h =
    watch-Reported ps (m, waiting) (new_monitor-Reported interval timeout has_tick m h)

-- A monitor that is no alarm: it waits, or it has been stopped.
abbrev pub Calm : Monitor × Standing → Type 0
Calm (m, waiting) = Unit
Calm (m, stopped) = Unit
Calm (m, gave_alarm) = ⊥
Calm (m, failed) = ⊥

pub tick-timeout : (now : ℕ) (m : Monitor) → (tick now m).timeout ≡ m.timeout
unfolding tick
tick-timeout now m = by_tick m.has_tick
  where
    by_tick :
        (b : Bool)
        → (if b
            then record {
              interval = m.interval;
              timeout = m.timeout;
              has_tick = m.has_tick;
              is_lost = m.is_lost;
              tick_count = m.tick_count + 1;
              reported = m.reported;
              ticked = m.ticked ++ now ∷ [];
            }
            else m).timeout
          ≡ m.timeout
    by_tick true = refl
    by_tick false = refl

pub ltb-< : (a b : ℕ) → a < b → ltb a b ≡ true
ltb-< a b h = ground (arith, h)

pub ltb-≤ : (a b : ℕ) → b ≤ a → ltb a b ≡ false
ltb-≤ a b h = ground (arith, h)

lost_test :
    (now last : ℕ) (timeout : ℤ) (t : ℕ)
    → timeout ≡ pos (suc t)
    → heartbeat_lost now last timeout ≡ some (ltb (last + suc t) now)
unfolding heartbeat_lost
lost_test now last timeout t h = ap (heartbeat_lost now last) h

pub round-heard :
    (p : Poll) (m : Monitor) (t : ℕ) (b : Bool)
    → m.timeout ≡ pos (suc t)
    → p.is_stopped ≡ false
    → ltb (p.last_activity + suc t) p.at ≡ b
    → round p m ≡ heard (some b) p m
unfolding round
round-heard p m t b h k e =
    ap (λ c. if c then (m, stopped) else heard (heartbeat_lost p.at p.last_activity m.timeout) p m)
      k
    ∙ ap (λ answer. heard answer p m) (lost_test p.at p.last_activity m.timeout t h ∙ ap some e)

pub heard-waiting : (p : Poll) (m : Monitor) → heard (some false) p m ≡ (tick p.at m, waiting)
unfolding heard
heard-waiting p m = refl

round-stopped : (p : Poll) (m : Monitor) → p.is_stopped ≡ true → round p m ≡ (m, stopped)
unfolding round
round-stopped p m k =
    ap (λ c. if c then (m, stopped) else heard (heartbeat_lost p.at p.last_activity m.timeout) p m)
      k

watch-stopped : (ps : List Poll) (m : Monitor) → Calm (watch ps (m, stopped))
unfolding watch
watch-stopped [] m = tt
watch-stopped (p ∷ ps) m = tt

watch-Calm :
    (ps : List Poll) (m : Monitor) (t : ℕ)
    → m.timeout ≡ pos (suc t)
    → All (λ p. p.at ≤ p.last_activity + suc t) ps
    → Calm (watch ps (m, waiting))
unfolding watch
watch-Calm [] m t h all = tt
watch-Calm (p ∷ ps) m t h (timely, all) =
    by_stop p.is_stopped refl (watch-Calm ps (tick p.at m) t (tick-timeout p.at m ∙ h) all)
  where
    by_stop :
        (b : Bool)
        → p.is_stopped ≡ b
        → Calm (watch ps (tick p.at m, waiting))
        → Calm (watch ps (round p m))
    by_stop true e later =
        subst (λ s. Calm (watch ps s)) (sym (round-stopped p m e)) (watch-stopped ps m)
    by_stop false e later =
        subst (λ s. Calm (watch ps s))
          (sym (
            round-heard p m t false h e (ltb-≤ (p.last_activity + suc t) p.at timely)
            ∙ heard-waiting p m))
          later

pub new_monitor-timeout :
    (interval timeout : ℤ) (has_tick : Bool) (m : Monitor)
    → new_monitor interval timeout has_tick ≡ some m
    → m.timeout ≡ timeout
unfolding new_monitor
new_monitor-timeout (negsuc n) timeout has_tick m h = cc
new_monitor-timeout (pos zero) timeout has_tick m h = cc
new_monitor-timeout (pos (suc n)) timeout has_tick m h =
    ap (λ k. k.timeout) (sym (some-injective _ m h))

-- No false alarm: while every poll finds activity within the timeout, the monitor waits until it is
-- stopped, and gives no alarm.
pub monitor-Calm :
    (interval : ℤ) (t : ℕ) (has_tick : Bool) (m : Monitor) (ps : List Poll)
    → new_monitor interval (pos (suc t)) has_tick ≡ some m
    → All (λ p. p.at ≤ p.last_activity + suc t) ps
    → Calm (watch ps (m, waiting))
monitor-Calm interval t has_tick m ps h all =
    watch-Calm ps m t (new_monitor-timeout interval (pos (suc t)) has_tick m h) all
