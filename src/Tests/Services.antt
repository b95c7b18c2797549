-- ===== src/Tests/Services.antt =====
-- The registry of resident services, a heartbeat and the scan of values (src/zworkbench) on small
-- inputs, and the theorems at them.
use zworkbench.Scan.Owner.{secret_shaped-none}
use zworkbench.Common.Int.{pos}
use zworkbench.Scan.Clean.{redacted-clean}
use zworkbench.Heartbeat.Silence.{monitor-gave_alarm}
use zworkbench.Resident.Lookup.{acquire-lookup, release-lookup}
use zworkbench.Resident.Capacity.{release-acquire, registry-WellFormed, WellFormed}
use zworkbench.Heartbeat.Alarm.{monitor-Calm, Reported, Calm, monitor-Reported}
use zworkbench.Json.{text, Value, end, field, obj}
use zworkbench.Scan.{
  alternative_at, credential_shaped, redact_from, contains_credential_shape, goes_on, begins,
  match_at, search_shape, redact_text, redacted, is_body,
}
use zworkbench.Credentials.{run_of, after, is_key_char, secret_shaped, is_id_char}
use zworkbench.Common.Text.{is_digit, is_alnum, is_upper, is_prefix}
use zworkbench.Resident.{
  Registry, given, active_count, lookup, acquire, acquire_call, release, acquire_slot, Lease,
  release_call, perform_call, RegistryCall, perform_calls, Refusal, active_names, new_registry,
  is_full, refused,
}
use zworkbench.Heartbeat.{
  report, round, tick, watch, heartbeat_lost, Poll, Monitor, new_monitor, waiting, gave_alarm,
  heard,
}
use zworkbench.Common.{
  ◌∷◌, ap, ◌≡◌, refl, List, true, ◌==◌, [], arith, ℕ, false, some, if◌then◌else◌, none,
}

abbrev registry : Registry
registry = record { capacity = 1; leases = [] }

abbrev dsh_lease : Lease
dsh_lease = record { lease_id = "run"; kind = "dsh-runtime"; acquired_at = 5 }

abbrev full_registry : Registry
full_registry = record { capacity = 1; leases = dsh_lease ∷ [] }

acquire_given : acquire 5 "run" "dsh-runtime" registry ≡ (given dsh_lease, full_registry)
unfolding acquire lookup acquire_slot is_full active_count
acquire_given = refl

-- Over its capacity, the names in use are reported in order.
acquire_over :
    (acquire 9 "other" "dsh-runtime" full_registry).0
    ≡ refused (Refusal.capacity_exceeded ("run" ∷ []))
unfolding acquire lookup acquire_slot is_full active_count active_names
acquire_over = refl

abbrev services : List RegistryCall
services =
    acquire_call 5 "run" "dsh-runtime"
    ∷ acquire_call 6 "other" "dsh-runtime"
    ∷ release_call "run"
    ∷ acquire_call 7 "other" "dsh-runtime"
    ∷ []

services_left : perform_calls services registry ≡ record {
  capacity = 1;
  leases = record { lease_id = "other"; kind = "dsh-runtime"; acquired_at = 7 } ∷ [];
}
unfolding perform_calls perform_call acquire release lookup acquire_slot is_full active_count
services_left = refl

new_one : new_registry (pos 1) ≡ given registry
unfolding new_registry
new_one = refl

registry-WellFormed_example : WellFormed (perform_calls services registry)
registry-WellFormed_example = registry-WellFormed (pos 1) registry services new_one

dsh_given : (acquire 5 "run" "dsh-runtime" registry).0 ≡ given dsh_lease
dsh_given = ap (λ x. x.0) acquire_given

acquire-lookup_example :
    lookup "run" (acquire 5 "run" "dsh-runtime" registry).1
    ≡ (if "run" == "run" then some dsh_lease else lookup "run" registry)
acquire-lookup_example = acquire-lookup 5 "run" "dsh-runtime" registry dsh_lease dsh_given "run"

release-lookup_example :
    lookup "run" (release "run" full_registry)
    ≡ (if "run" == "run" then none else lookup "run" full_registry)
release-lookup_example = release-lookup "run" full_registry "run"

full-WellFormed : WellFormed full_registry
unfolding active_count
full-WellFormed = record { has_room = omega arith; is_within = omega arith; names_apart = (tt, tt) }

run_held : lookup "run" full_registry ≡ some dsh_lease
unfolding lookup
run_held = refl

release-acquire_example :
    (lease : Lease) × ((acquire 9 "other" "codex-app-server" (release "run" full_registry)).0
      ≡ given lease)
release-acquire_example =
    release-acquire "run" full_registry dsh_lease 9 "other" "codex-app-server" full-WellFormed
      run_held refl refl

abbrev monitor : Monitor
monitor = record {
  interval = 30;
  timeout = pos 90;
  has_tick = true;
  is_lost = false;
  tick_count = 0;
  reported = [];
  ticked = [];
}

monitor_made : new_monitor (pos 30) (pos 90) true ≡ some monitor
unfolding new_monitor
monitor_made = refl

abbrev poll : ℕ → Poll
poll t = record { is_stopped = false; at = t; last_activity = 100 }

-- A Worker that is silent from 100 on, polled every 30 seconds.
abbrev silence : List Poll
silence = poll 130 ∷ poll 160 ∷ poll 190 ∷ poll 220 ∷ []

-- The fourth poll is the first beyond the timeout.
silence_reported : (watch silence (monitor, waiting)).0.reported ≡ 220 ∷ []
unfolding watch round heard heartbeat_lost tick report
silence_reported = refl

monitor-Reported_example : Reported (watch silence (monitor, waiting))
monitor-Reported_example = monitor-Reported (pos 30) (pos 90) true monitor silence monitor_made

monitor-Calm_example : Calm (watch (poll 130 ∷ poll 190 ∷ []) (monitor, waiting))
monitor-Calm_example =
    monitor-Calm (pos 30) 89 true monitor (poll 130 ∷ poll 190 ∷ []) monitor_made
      (omega arith, (omega arith, tt))

monitor-gave_alarm_example : (watch silence (monitor, waiting)).1 ≡ gave_alarm
monitor-gave_alarm_example =
    monitor-gave_alarm 30 89 true monitor 100 silence monitor_made
      (
        refl,
        refl,
        omega arith,
        (refl, refl, omega arith, (refl, refl, omega arith, (refl, refl, omega arith, tt))),
      )
      (omega arith)

abbrev plain_value : Value
plain_value = obj (field "text" (text "disk-full-read-access") end)

plain-clean : credential_shaped plain_value ≡ false
unfolding credential_shaped contains_credential_shape search_shape match_at alternative_at begins
    is_body run_of after is_key_char is_id_char is_alnum is_digit is_upper is_prefix
plain-clean = refl

redacted-clean_example : redacted plain_value ≡ plain_value
redacted-clean_example = redacted-clean plain_value plain-clean

secret_shaped-none_example : secret_shaped plain_value ≡ false
secret_shaped-none_example = secret_shaped-none plain_value plain-clean

-- What follows a redacted match is read without the character that hid it, so that the redacted text
-- can still hold a shape.
redaction_leaves_shape :
    contains_credential_shape (redact_text "AKIA123456789012sk-abcdefghijkl") ≡ true
unfolding redact_text redact_from goes_on contains_credential_shape search_shape match_at
    alternative_at begins is_body run_of after is_key_char is_id_char is_alnum is_digit is_upper
    is_prefix
redaction_leaves_shape = refl
