-- ===== src/Owner/Auth/Follow.antt =====
-- Caller authentication keeps to the contract of Owner/Change.
use zworkbench.Owner.Core.Steps.{or_false, not-false}
use zworkbench.Common.{String}
use zworkbench.Exec.Does.{does_now, does_write, does_bind, does_fresh}
use zworkbench.Owner.Auth.{
  set_session, register_caller, enable_caller_auth, set_required, authenticate_caller,
  establish_session,
}
use zworkbench.Owner.State.{CallerSession}
use zworkbench.Owner.Rules.{
  Follows-new_id, Follows-now, Follows-guard, Follows-transaction, Follows-connection,
  Follows-exempt, Follows-ask, Follows-bind, Follows-pure, Follows-text, Follows-caller,
  Follows-query, Follows,
}
use zworkbench.Owner.Aside.{Aside}
use zworkbench.Owner.Change.{Change, Changes, next, here}

set_session-Follows : (c : CallerSession) → Follows (set_session c)
unfolding set_session
set_session-Follows c = record { at = λ s. here }

set_required-Follows : Follows set_required
unfolding set_required
set_required-Follows = record { at = λ s. here }

establish_session-Follows : (id hash : String) → Follows (establish_session id hash)
unfolding establish_session
establish_session-Follows id hash = Follows-bind Follows-new_id λ session.
    Follows-bind Follows-now λ t. Follows-bind Follows-now λ issued.
      Follows-bind (set_session-Follows _) λ _.
        Follows-bind
          (Follows-exempt λ d. does_fresh _ _ λ _. does_write {Q = Changes d} _ λ d' h.
            let (free, known) = or_false _ _ h.1 in
            next h.0 (Change.other (Aside.session _ free (not-false _ known))))
          λ _. Follows-pure session

pub enable_caller_auth-Follows : (id token : String) → Follows (enable_caller_auth id token)
unfolding enable_caller_auth
enable_caller_auth-Follows id token = Follows-bind (Follows-text _) λ _.
    Follows-bind (Follows-text _) λ _. Follows-bind (Follows-ask _) λ hash.
      Follows-bind
        (Follows-exempt λ d.
          does_bind does_now
            λ t. does_write {Q = Changes d} _ λ d' h. next h (Change.other (Aside.enable _)))
        λ _.
          Follows-bind set_required-Follows
            λ _. Follows-bind (establish_session-Follows id hash) λ _. Follows-pure tt

pub register_caller-Follows : (id token : String) → Follows (register_caller id token)
unfolding register_caller
register_caller-Follows id token = Follows-bind Follows-caller λ _.
    Follows-bind (Follows-text _) λ _. Follows-bind (Follows-text _) λ _.
      Follows-bind (Follows-ask _) λ hash. Follows-transaction λ d. does_bind does_now λ t.
        does_fresh _ _
          λ _. does_write {Q = Changes d} _ λ d' h. next h.0 (Change.other (Aside.register _ h.1))

pub authenticate_caller-Follows : (id token : String) → Follows (authenticate_caller id token)
unfolding authenticate_caller
authenticate_caller-Follows id token = Follows-bind (Follows-text _) λ _.
    Follows-bind (Follows-text _) λ _. Follows-bind (Follows-ask _) λ hash.
      Follows-bind Follows-connection λ _.
        Follows-bind (Follows-query _)
          λ found. Follows-bind (Follows-guard _ _) λ _. establish_session-Follows id hash
