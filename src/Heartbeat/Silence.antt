-- ===== src/Heartbeat/Silence.antt =====
-- A silent Worker is found out (src/zworkbench/worker_heartbeat.py).
use native.Mathlib.Nat.{mul-suc, mul-zero}
use zworkbench.Heartbeat.Alarm.{
  ltb-≤, round-heard, heard-waiting, ltb-<, tick-timeout, new_monitor-timeout,
}
use zworkbench.Common.Tables.{length}
use zworkbench.Common.Int.{pos}
use zworkbench.Common.{
  ltb, List, suc, ◌+◌, [], ◌≤◌, refl, ◌⊎◌, ℕ, Bool, ◌≡◌, false, ◌<◌, ◌∷◌, inr, inl, Bool-cases,
  arith, ◌*◌, ◌∙◌, subst, ap, some, true,
}
use zworkbench.Heartbeat.{gave_alarm, watch, waiting, Poll, tick, Monitor, heard, new_monitor}

-- The polls come at least an interval apart, from time `t` on, no one stops the monitor, and the
-- Worker has been silent since `last`.
abbrev pub Silent : ℕ → ℕ → ℕ → List Poll → Type 0
Silent interval last t [] = Unit
Silent interval last t (p ∷ ps) =
    (p.is_stopped ≡ false)
    × (p.last_activity ≡ last)
    × (t + interval ≤ p.at)
    × Silent interval last p.at ps

watch-gave_alarm : (ps : List Poll) (m : Monitor) → (watch ps (m, gave_alarm)).1 ≡ gave_alarm
unfolding watch
watch-gave_alarm [] m = refl
watch-gave_alarm (p ∷ ps) m = refl

watch-heard :
    (ps : List Poll) (p : Poll) (m : Monitor) → (watch ps (heard (some true) p m)).1 ≡ gave_alarm
unfolding heard
watch-heard ps p m = watch-gave_alarm ps _

order : (a b : ℕ) → (a < b) ⊎ (b ≤ a)
order a b = elim (Bool-cases (ltb a b)) [ inl h ↦ inl (ground arith) | inr h ↦ inr (ground arith) ]

late_enough :
    (i n then_at last t at : ℕ)
    → last + suc t < then_at + i * suc n
    → then_at + i ≤ at
    → last + suc t < at + i * n
late_enough i n then_at last t at h k = let step = mul-suc i n in ground (arith, step)

watch-Silent :
    (ps : List Poll) (m : Monitor) (t interval last then_at : ℕ)
    → m.timeout ≡ pos (suc t)
    → then_at ≤ last + suc t
    → Silent interval last then_at ps
    → last + suc t < then_at + interval * length ps
    → (watch ps (m, waiting)).1 ≡ gave_alarm
unfolding watch
watch-Silent [] m t interval last then_at h heard_at silent enough =
    absurd (over (mul-zero interval))
  where
    over : interval * 0 ≡ 0 → ⊥
    over e = ground (arith, e)
watch-Silent (p ∷ ps) m t interval last then_at h heard_at (going, quiet, paced, silent) enough =
    elim (order (p.last_activity + suc t) p.at) [
      | inl late ↦
          ap (λ s. (watch ps s).1) (round-heard p m t true h going (ltb-< _ _ late))
          ∙ watch-heard ps p m
      | inr timely ↦
          ap (λ s. (watch ps s).1)
            (round-heard p m t false h going (ltb-≤ _ _ timely) ∙ heard-waiting p m)
          ∙ watch-Silent ps (tick p.at m) t interval last p.at (tick-timeout p.at m ∙ h)
              (subst (λ l. p.at ≤ l + suc t) quiet timely) silent
              (late_enough interval (length ps) then_at last t p.at enough paced)
    ]

-- A silent Worker is found out: if no one stops the monitor, its polls come at least an interval apart
-- and find no activity since `last`, then there is a report as soon as there are so many polls that
-- their intervals reach beyond the timeout.
pub monitor-gave_alarm :
    (interval t : ℕ) (has_tick : Bool) (m : Monitor) (last : ℕ) (ps : List Poll)
    → new_monitor (pos interval) (pos (suc t)) has_tick ≡ some m
    → Silent interval last last ps
    → suc t < interval * length ps
    → (watch ps (m, waiting)).1 ≡ gave_alarm
monitor-gave_alarm interval t has_tick m last ps h silent enough =
    watch-Silent ps m t interval last last
      (new_monitor-timeout (pos interval) (pos (suc t)) has_tick m h) (omega arith) silent
      (ground arith)
