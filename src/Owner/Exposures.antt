-- ===== src/Owner/Exposures.antt =====
-- `declare_exposure` and `get_declared_exposure` of src/zworkbench/composition.py.
pub mod Follow
use zworkbench.Owner.Core.{core_code}
use zworkbench.Owner.Claim.{claim_code}
use zworkbench.Common.{String, Bool, not, Option, List, [], ◌∷◌, ◌++◌, ◌==◌, if◌then◌else◌}
use zworkbench.Common.Tables.{update, exists, sort_by}
use zworkbench.Common.Text.{text_lt}
use zworkbench.Json.{text, arr, obj, Items, nil, cons, Fields, end, field, canonical_fields}
use zworkbench.Exec.{Exec, query, write, ◌>>=◌, ◌>>◌, now}
use zworkbench.Owner.State.{Db, Exposure}
use zworkbench.Owner.Core.{transaction, require_text, run_row, append_event}
use zworkbench.Owner.Claim.{declared_exposure_row}
use zworkbench.Owner.Claim.Bounds.{member}

-- `sorted(set(texts))`
unfoldable pub distinct : List String → List String
unfolding member
distinct [] = []
distinct (s ∷ ss) = let rest = distinct ss in if member s ss then rest else s ∷ rest

abbrev pub text_before : String → String → Bool
text_before s t = not (text_lt t s)

unfoldable pub sorted_set : List String → List String
unfolding distinct sort_by text_lt
sorted_set ss = sort_by text_before (distinct ss)

unfoldable pub text_items : List String → Items
text_items [] = nil
text_items (s ∷ ss) = cons (text s) (text_items ss)

abbrev pub of_run : String → Exposure → Bool
of_run run_id x = x.run_id == run_id

-- INSERT … ON CONFLICT(run_id) DO UPDATE
unfoldable pub upsert_exposure : Exposure → Db → Db
upsert_exposure x d = record d {
  exposures =
      if exists (of_run x.run_id) d.exposures
      then update (of_run x.run_id) (λ _. x) d.exposures
      else d.exposures ++ x ∷ [];
}

unfoldable pub get_declared_exposure : String → Exec (Option Exposure)
get_declared_exposure run_id = transaction (query (declared_exposure_row run_id))

unfoldable pub declare_exposure : String → List String → Fields → Exec (Option Exposure)
declare_exposure run_id declared_side_effects exposure = do
  require_text run_id
  let classes : List String = sorted_set declared_side_effects
  timestamp ← now
  transaction (do
    run_row run_id
    write (
        upsert_exposure (record {
          run_id = run_id;
          declared_side_effects = classes;
          exposure = canonical_fields exposure;
          declared_at = timestamp;
        }))
    append_event run_id "exposure.declared" (
        field "declared_side_effects" (arr (text_items classes))
          (field "exposure" (obj exposure) end)))
  get_declared_exposure run_id

-- Opens the code of this module, for a run of it.
unfoldable pub exposures_code : Unit {0}
unfolding core_code claim_code distinct sorted_set text_items upsert_exposure get_declared_exposure
    declare_exposure
exposures_code = tt
