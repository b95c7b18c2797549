-- ===== src/Owner/Identity.antt =====
-- `detect_identity_violations` of src/zworkbench/composition.py: the scan of the references
-- between the rows.
use Prim.Native.String.{◌++◌ as append}
use zworkbench.Owner.Core.{core_code}
use zworkbench.Common.{
  String, Bool, true, false, not, ◌&&◌, ◌||◌, Option, none, some, List, [], ◌∷◌, ◌++◌, map, ◌==◌,
  if◌then◌else◌,
}
use zworkbench.Common.Tables.{exists}
use zworkbench.Json.{Value, null, text, arr, obj, Items, nil, cons, end, field, get, truthy}
use zworkbench.Exec.{Exec, type_error, query, ask, or_raise, ◌>>=◌, ◌>>◌}
use zworkbench.Owner.State.{Db, Run, Effect, Attempt}
use zworkbench.Owner.Core.{has_run_id, has_effect_id, require_connection}

pub record Finding : Type 0 where
  pub kind : String
  pub run_id : String
  pub ref_table : String
  pub ref_id : Value
  pub detail : String

-- `run_id is not None and other != run_id`
abbrev out_of_scope : Option String → String → Bool
out_of_scope none other = false
out_of_scope (some id) other = not (other == id)

module _ (repr : Value → String) (scope : Option String) (d : Db) where
  orphan_rows : String → List String → List Finding
  orphan_rows table [] = []
  orphan_rows table (child_run ∷ rest) =
      let others = orphan_rows table rest in
      if exists (has_run_id child_run) d.runs || out_of_scope scope child_run
      then others
      else record {
        kind = append (append "orphan_" table) "_run";
        run_id = child_run;
        ref_table = table;
        ref_id = text child_run;
        detail = append (append table ".run_id references missing run ") (repr (text child_run));
      }
        ∷ others

  orphan_attempts : List Attempt → List Finding
  orphan_attempts [] = []
  orphan_attempts (a ∷ rest) =
      let others = orphan_attempts rest in
      elim scope [
        | some id ↦ others
        | none ↦
            if exists (has_effect_id a.effect_id) d.effects
            then others
            else record {
              kind = "orphan_effect_attempt_effect";
              run_id = "unknown";
              ref_table = "effect_attempts";
              ref_id = text a.effect_id;
              detail =
                  append "effect_attempts.effect_id references missing effect "
                    (repr (text a.effect_id));
            }
              ∷ others
      ]

  -- An effect with no approval passes.
  approval_resolves : Option String → Bool
  approval_resolves none = true
  approval_resolves (some id) = exists (λ a. a.approval_id == id) d.approvals

  abbrev approval_value : Option String → Value
  approval_value none = null
  approval_value (some id) = text id

  orphan_approvals : List Effect → List Finding
  unfolding approval_resolves
  orphan_approvals [] = []
  orphan_approvals (e ∷ rest) =
      let others = orphan_approvals rest in
      if approval_resolves e.approval_id || out_of_scope scope e.run_id
      then others
      else record {
        kind = "orphan_effect_approval";
        run_id = e.run_id;
        ref_table = "effects";
        ref_id = approval_value e.approval_id;
        detail =
            append "effects.approval_id references missing approval "
              (repr (approval_value e.approval_id));
      }
        ∷ others

  -- `target and target not in valid_runs`, where a list or an object cannot be hashed
  unresolved : Option Value → Option Bool
  unfolding truthy
  unresolved none = some false
  unresolved (some (text id)) = some (truthy (text id) && not (exists (has_run_id id) d.runs))
  unresolved (some (arr (cons v vs))) = none
  unresolved (some (obj (field k v fs))) = none
  unresolved (some v) = some (truthy v)

  abbrev link_target : Option Value → Value
  link_target none = null
  link_target (some v) = v

  broken_link : Run → String → List Finding → Option (List Finding)
  unfolding unresolved get
  broken_link r link others = elim (unresolved (get link r.metadata)) [
    | none ↦ none
    | some false ↦ some others
    | some true ↦
        let target = link_target (get link r.metadata) in
        some (
          record {
            kind = append "broken_" link;
            run_id = r.run_id;
            ref_table = "runs.metadata";
            ref_id = target;
            detail =
                append
                  (append (append r.run_id (append ".metadata." link)) " references missing run ")
                  (repr target);
          }
          ∷ others)
  ]

  broken_links : List Run → Option (List Finding)
  unfolding broken_link
  broken_links [] = some []
  broken_links (r ∷ rest) =
      let others = broken_links rest in
      if out_of_scope scope r.run_id then others else elim others [
        | none ↦ none
        | some found ↦ elim (broken_link r "child_run_id" found) [
          | none ↦ none
          | some more ↦ broken_link r "parent_run_id" more
        ]
      ]

  -- `none` where Python raises a TypeError
  unfoldable pub identity_violations : Option (List Finding)
  unfolding orphan_rows orphan_attempts orphan_approvals broken_links
  identity_violations = elim (broken_links d.runs) [
    | none ↦ none
    | some broken ↦ some (
        orphan_rows "effects" (map (λ r. r.run_id) d.effects)
        ++ (orphan_rows "approvals" (map (λ r. r.run_id) d.approvals)
            ++ (orphan_rows "results" (map (λ r. r.run_id) d.results)
                ++ (orphan_rows "replays" (map (λ r. r.run_id) d.replays)
                    ++ (orphan_rows "events" (map (λ r. r.run_id) d.events)
                        ++ (orphan_rows "provider_exit_ledger"
                              (map (λ r. r.run_id) d.provider_exits)
                            ++ (orphan_attempts d.attempts
                                ++ (orphan_approvals d.effects ++ broken))))))))
  ]

unfoldable pub detect_identity_violations : Option String → Exec (List Finding)
detect_identity_violations scope = do
  require_connection
  repr ← ask (λ env. env.repr)
  found ← query (identity_violations repr scope)
  or_raise found type_error

unfoldable pub finding_value : Finding → Value
finding_value f = obj (
    field "kind" (text f.kind) (
      field "run_id" (text f.run_id) (
        field "ref_table" (text f.ref_table)
          (field "ref_id" f.ref_id (field "detail" (text f.detail) end)))))

unfoldable pub findings_value : List Finding → Items
unfolding finding_value
findings_value [] = nil
findings_value (f ∷ fs) = cons (finding_value f) (findings_value fs)

-- Opens the code of this module, for a run of it.
unfoldable pub identity_code : Unit {0}
unfolding core_code orphan_rows orphan_attempts approval_resolves orphan_approvals unresolved
    broken_link broken_links identity_violations detect_identity_violations finding_value
    findings_value
identity_code = tt
