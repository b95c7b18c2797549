-- ===== src/Owner/Exposures/Follow.antt =====
-- The declaration of an exposure keeps to the contract of Owner/Change.
use zworkbench.Json.{Fields}
use zworkbench.Owner.Core.Steps.{append_event-Obeys, run_row-Known}
use zworkbench.Owner.Rules.{Follows-text, Follows-now, Follows-bind, Follows, Follows-transaction}
use zworkbench.Owner.Exposures.{get_declared_exposure, declare_exposure}
use zworkbench.Common.{String, List}
use zworkbench.Exec.Does.{does_bind, does_write, does_read}
use zworkbench.Owner.Aside.{Aside}
use zworkbench.Owner.Change.{Change, Changes, next}

pub get_declared_exposure-Follows : (run_id : String) → Follows (get_declared_exposure run_id)
unfolding get_declared_exposure
get_declared_exposure-Follows run_id = Follows-transaction λ d. does_read _

pub declare_exposure-Follows :
    (run_id : String) (classes : List String) (exposure : Fields)
    → Follows (declare_exposure run_id classes exposure)
unfolding declare_exposure
declare_exposure-Follows run_id classes exposure = Follows-bind (Follows-text _) λ _.
    Follows-bind Follows-now λ t.
      Follows-bind
        (Follows-transaction λ d. does_bind (run_row-Known run_id) λ row.
          does_bind
            (does_write {Q = Changes d} _
              λ d' h. next h.0 (Change.other (Aside.declare_exposure _ (row, h.1))))
            λ _. append_event-Obeys run_id "exposure.declared" _ d)
        λ _. get_declared_exposure-Follows run_id
