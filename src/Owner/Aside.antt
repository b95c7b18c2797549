-- ===== src/Owner/Aside.antt =====
-- What one statement of the owner may do to the tables beside runs, approvals, effects, events and
-- results (src/zworkbench/composition.py), and the guard that each of them stands under.
use zworkbench.Common.{
  ℕ, ◌+◌, ◌≤◌, String, List, [], ◌∷◌, ◌++◌, false, ◌≡◌, refl, true, Option, some, none, ◌⊎◌, ◌==◌,
  ◌||◌, ◌≢◌,
}
use zworkbench.Common.Tables.{exists, find}
use zworkbench.Common.Text.{is_blank}
use zworkbench.Json.{Value}
use zworkbench.Owner.State.{
  Db, Run, SessionRow, Caller, Exposure, Replay, ProviderExit, ProviderFallback, ProviderAttempt,
  Budget, Consumption, Restart, AccessGate, AttemptStatus, Effect, EffectStatus,
}
use zworkbench.Owner.Core.{find_run, find_effect}
use zworkbench.Owner.Auth.{has_caller_id, put_session, put_caller, add_caller}
use zworkbench.Owner.Exposures.{upsert_exposure}
use zworkbench.Owner.Claim.Existing.{attempt_conflict, new_attempt, add_attempt}
use zworkbench.Owner.Effects.{finish_attempt, close_attempt}
use zworkbench.Owner.Evidence.{add_replay}
use zworkbench.Owner.Retries.{
  Layer, provider, dsh, worker, retry_tables, put_retry_tables, find_budget, put_budget, consumed,
  add_consumption,
}
use zworkbench.Owner.Ledgers.{
  put_restart_budget, restarts_of, add_restart, add_provider_attempt, add_access_gate,
}
use zworkbench.Owner.Exits.{delegated, unknown_statuses, add_exit}
use zworkbench.Owner.Fallbacks.{is_degradation, add_fallback}

-- What a table has become: nothing else, or one more row with `P`.
pub data Appended {A : Type 0} (P : A → Type 0) (xs : List A) : List A → Type 0 where
  kept : Appended P xs xs
  appended : (x : A) → P x → Appended P xs (xs ++ x ∷ [])

-- What an exit's row accounts for: never that nothing is left at the Provider, and of the local
-- inventory nothing at all.
pub record Accounted (x : ProviderExit) : Type 0 where
  pub is_delegated : x.provider_remote_zero_residue ≡ delegated
  pub has_evidence :
      ((x.evidence_class ≡ "local-inventory")
        × (x.exit_status ≡ "unknown/safe-stop")
        × (x.statuses ≡ unknown_statuses))
      ⊎ (x.evidence_class ≡ "owner-backed")

-- A fallback has a reason, and is one of the two degradations.
abbrev pub Reasoned : ProviderFallback → Type 0
Reasoned x = (is_blank x.reason ≡ false) × (is_degradation x.degradation_mode ≡ true)

-- A change of the tables that the invariants of runs, approvals, effects and evidence do not read.
pub record SameCore (d d' : Db) : Type 0 where
  pub runs : d'.runs ≡ d.runs
  pub approvals : d'.approvals ≡ d.approvals
  pub effects : d'.effects ≡ d.effects
  pub events : d'.events ≡ d.events
  pub results : d'.results ≡ d.results
  pub exits : Appended Accounted d.provider_exits d'.provider_exits
  pub fallbacks : Appended Reasoned d.provider_fallbacks d'.provider_fallbacks

-- One more than is recorded stays within the budget, where one is declared.
abbrev pub Room : Option Budget → ℕ → Type 0
Room budget recorded = (b : Budget) → budget ≡ some b → recorded + 1 ≤ b.max_retries

-- The guards of an insertion: the run is known, and the key is new.
abbrev pub Known : String → Db → Type 0
Known run_id d = (row : Run) × (find_run run_id d ≡ some row)

-- The effect is at its `n`-th attempt, and its status is one with `P`.
abbrev pub Standing : (EffectStatus → Type 0) → String → ℕ → Db → Type 0
Standing P id n d =
    (row : Effect) × ((find_effect id d ≡ some row) × ((row.attempt ≡ n) × P row.status))

pub data Aside : Db → Db → Type 0 where
  session :
      {d : Db} (r : SessionRow)
      → exists (λ k. k.session_id == r.session_id) d.sessions ≡ false
      → exists (has_caller_id r.caller_id) d.callers ≡ true
      → Aside d (put_session r d)
  enable : {d : Db} (c : Caller) → Aside d (put_caller c d)
  register :
      {d : Db} (c : Caller)
      → exists (has_caller_id c.caller_id) d.callers ≡ false
      → Aside d (add_caller c d)
  declare_exposure : {d : Db} (x : Exposure) → Known x.run_id d → Aside d (upsert_exposure x d)
  begin_attempt :
      {d : Db} (id : String) (n t : ℕ)
      → attempt_conflict id n d ≡ false
      → Aside d (add_attempt (new_attempt id n t) d)
  finish :
      {d : Db} (id : String) (n t : ℕ) (value : Value)
      → Standing (λ s. s ≡ EffectStatus.completed) id n d
      → Aside d (finish_attempt id n t value d)
  close :
      {d : Db} (id : String) (n : ℕ) (status : AttemptStatus) (t : ℕ) (error : Value)
      → Standing (λ s. s ≢ EffectStatus.claimed) id n d
      → Aside d (close_attempt id n status t error d)
  replay :
      {d : Db} (r : Replay)
      → Known r.run_id d
      → find (λ k. k.replay_id == r.replay_id) d.replays ≡ none
      → Aside d (add_replay r d)
  declare_retries : {d : Db} (layer : Layer) (b : Budget) → Aside d (put_budget layer b d)
  consume_retry :
      {d : Db} (layer : Layer) (c : Consumption)
      → Known c.run_id d
      → Room
          (find_budget c.subject (retry_tables layer d).budgets)
          (consumed layer c.run_id c.subject d)
      → exists (λ k. k.ledger_id == c.ledger_id) (retry_tables layer d).ledger ≡ false
      → Aside d (add_consumption layer c d)
  declare_restarts : {d : Db} (b : Budget) → Known b.subject d → Aside d (put_restart_budget b d)
  consume_restart :
      {d : Db} (r : Restart)
      → Known r.run_id d
      → Room (find_budget r.run_id d.restart_budgets) (restarts_of r.run_id d)
      → exists (λ k. k.ledger_id == r.ledger_id) d.restarts ≡ false
      → Aside d (add_restart r d)
  report_attempt :
      {d : Db} (a : ProviderAttempt)
      → (a.status == "failed" || a.status == "succeeded") ≡ true
      → Known a.run_id d
      → exists (λ k. k.ledger_id == a.ledger_id) d.provider_attempts ≡ false
      → Aside d (add_provider_attempt a d)
  report_gate :
      {d : Db} (g : AccessGate)
      → (g.classification == "real" || g.classification == "baseline") ≡ true
      → is_blank g.reason ≡ false
      → exists (λ k. k.ledger_id == g.ledger_id) d.access_gates ≡ false
      → Aside d (add_access_gate g d)
  report_exit :
      {d : Db} (x : ProviderExit)
      → Accounted x
      → Known x.run_id d
      → exists (λ k. k.ledger_id == x.ledger_id) d.provider_exits ≡ false
      → Aside d (add_exit x d)
  report_fallback :
      {d : Db} (x : ProviderFallback)
      → Reasoned x
      → Known x.run_id d
      → exists (λ k. k.ledger_id == x.ledger_id) d.provider_fallbacks ≡ false
      → Aside d (add_fallback x d)

besides :
    {d d' : Db}
    → d'.runs ≡ d.runs
    → d'.approvals ≡ d.approvals
    → d'.effects ≡ d.effects
    → d'.events ≡ d.events
    → d'.results ≡ d.results
    → Appended Accounted d.provider_exits d'.provider_exits
    → Appended Reasoned d.provider_fallbacks d'.provider_fallbacks
    → SameCore d d'
besides a b c e f exits fallbacks = record {
  runs = a;
  approvals = b;
  effects = c;
  events = e;
  results = f;
  exits = exits;
  fallbacks = fallbacks;
}

retries-SameCore : (layer : Layer) (t : _) (d : Db) → SameCore d (put_retry_tables layer t d)
unfolding put_retry_tables
retries-SameCore provider t d = besides refl refl refl refl refl kept kept
retries-SameCore dsh t d = besides refl refl refl refl refl kept kept
retries-SameCore worker t d = besides refl refl refl refl refl kept kept

-- None of these statements touches the core tables, and of the two ledgers of exits and fallbacks each
-- at most appends a row.
pub Aside-SameCore : (d d' : Db) → Aside d d' → SameCore d d'
unfolding put_session put_caller add_caller upsert_exposure add_attempt finish_attempt close_attempt
    add_replay put_budget add_consumption put_restart_budget add_restart add_provider_attempt
    add_access_gate add_exit add_fallback
Aside-SameCore d d' (Aside.session r _ _) = besides refl refl refl refl refl kept kept
Aside-SameCore d d' (Aside.enable c) = besides refl refl refl refl refl kept kept
Aside-SameCore d d' (Aside.register c _) = besides refl refl refl refl refl kept kept
Aside-SameCore d d' (Aside.declare_exposure x _) = besides refl refl refl refl refl kept kept
Aside-SameCore d d' (Aside.begin_attempt id n t _) = besides refl refl refl refl refl kept kept
Aside-SameCore d d' (Aside.finish id n t value _) = besides refl refl refl refl refl kept kept
Aside-SameCore d d' (Aside.close id n status t error _) = besides refl refl refl refl refl kept kept
Aside-SameCore d d' (Aside.replay r _ _) = besides refl refl refl refl refl kept kept
Aside-SameCore d d' (Aside.declare_retries layer b) = retries-SameCore layer _ d
Aside-SameCore d d' (Aside.consume_retry layer c _ _ _) = retries-SameCore layer _ d
Aside-SameCore d d' (Aside.declare_restarts b _) = besides refl refl refl refl refl kept kept
Aside-SameCore d d' (Aside.consume_restart r _ _ _) = besides refl refl refl refl refl kept kept
Aside-SameCore d d' (Aside.report_attempt a _ _ _) = besides refl refl refl refl refl kept kept
Aside-SameCore d d' (Aside.report_gate g _ _ _) = besides refl refl refl refl refl kept kept
Aside-SameCore d d' (Aside.report_exit x accounted _ _) =
    besides refl refl refl refl refl (appended x accounted) kept
Aside-SameCore d d' (Aside.report_fallback x reasoned _ _) =
    besides refl refl refl refl refl kept (appended x reasoned)
