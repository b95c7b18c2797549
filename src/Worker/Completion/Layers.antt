-- ===== src/Worker/Completion/Layers.antt =====
-- When a Worker's result completes (src/zworkbench/worker_contract.py).
use zworkbench.Worker.Provider.{ProviderIdentity, provider_is_complete}
use zworkbench.Common.Tables.{All}
use zworkbench.Worker.Envelope.{WorkerEnvelope}
use zworkbench.Worker.Base.{names_where, is_missing, ◌>>◌, Failure, Checked, refuse_if, good}
use zworkbench.Worker.Identity.{
  required_fields, is_none, conditional_fields, fabricated_codex_fields, missing_conditional_fields,
  present_of, missing_required_fields,
}
use zworkbench.Worker.Completion.{
  codex_identity_required, digest_fields, provider_fields, prefixed, reports_completed, is_unknown,
  unknown_of, provider_gaps, validate_worker_completion, missing_completion_fields, codex_gaps,
}
use zworkbench.Common.{
  ◌++◌, ◌≡◌, ◌∷◌, List, [], if◌then◌else◌, ◌==◌, refl, false, not, String, true, Bool, ◌↔◌, ◌&&◌,
  sym, ◌||◌,
}
use zworkbench.Worker.Component.{component_fields, component_missing_fields}

-- Every value of the fields has `p`, or none has.
abbrev pub Each : (String → Bool) → Bool → List (String × String) → Type 0
Each p b fields = All (λ field. p field.1 ≡ b) fields

-- What the two layers of completion ask for: the result says that it completed; no required identity
-- field is missing; the Codex fields are there just where the Worker declares itself to be Codex; and
-- the components, the route and the digests are known.
abbrev pub CompletionAllowed : WorkerEnvelope → Type 0
CompletionAllowed e =
    ((e.message_type == "result") ≡ true)
    × ((reports_completed e.payload ≡ true)
        × (Each is_missing (not (codex_identity_required e.worker_schema_identity))
              (conditional_fields e.identity)
            × Each is_missing false (required_fields e.identity)
            × (Each is_missing false (component_fields e.worker_artifact_identity)
                × (Each is_missing false (component_fields e.worker_schema_identity)
                    × (Each is_unknown false (provider_fields e.provider_identity)
                        × Each is_unknown false (digest_fields e))))))

pub names_where-Each :
    (p : String → Bool) (fields : List (String × String))
    → (is_none (names_where p fields) ≡ true) ↔ Each p false fields
unfolding names_where
names_where-Each p [] = (λ h. tt, λ h. refl)
names_where-Each p ((name, value) ∷ rest) = by_head (p value) (names_where-Each p rest)
  where
    by_head :
        (b : Bool)
        → (is_none (names_where p rest) ≡ true) ↔ Each p false rest
        → (is_none (if b then name ∷ names_where p rest else names_where p rest) ≡ true)
          ↔ (b ≡ false) × Each p false rest
    by_head true (f, g) = (λ h. (sym h, f cc), λ h. cc)
    by_head false (f, g) = (λ h. (refl, f h), λ h. g h.1)

-- A list of gaps joined with another is empty just where both are.
append-↔ :
    {P Q : Type 0} (xs ys : List String)
    → (is_none xs ≡ true) ↔ P
    → (is_none ys ≡ true) ↔ Q
    → (is_none (xs ++ ys) ≡ true) ↔ P × Q
append-↔ [] ys (f, g) (h, k) = (λ e. (f refl, h e), λ e. k e.1)
append-↔ (x ∷ xs) ys (f, g) (h, k) = (λ e. (f e, h cc), λ e. g e.0)

prefixed-↔ :
    {P : Type 0} (prefix : String) (xs : List String)
    → (is_none xs ≡ true) ↔ P
    → (is_none (prefixed prefix xs) ≡ true) ↔ P
unfolding prefixed
prefixed-↔ prefix [] h = h
prefixed-↔ prefix (x ∷ xs) h = h

-- A test that raises on `not b`, before the rest.
unless-↔ :
    {P : Type 0} (b : Bool) (e : Failure) (m : Checked (Unit {0}))
    → (m ≡ good tt) ↔ P
    → ((refuse_if (not b) e >> m) ≡ good tt) ↔ (b ≡ true) × P
unfolding ◌>>◌
unless-↔ true e m (f, g) = (λ h. (refl, f h), λ h. g h.1)
unless-↔ false e m (f, g) = (λ h. cc, λ h. cc)

last-↔ :
    {P : Type 0} (b : Bool) (e : Failure) → (b ≡ true) ↔ P → (refuse_if (not b) e ≡ good tt) ↔ P
last-↔ true e (f, g) = (λ h. f refl, λ h. refl)
last-↔ false e (f, g) = (λ h. f cc, λ h. cc (g h))

present-↔ :
    (fields : List (String × String))
    → (is_none (present_of fields) ≡ true) ↔ Each is_missing true fields
unfolding names_where
present-↔ [] = (λ h. tt, λ h. refl)
present-↔ ((name, value) ∷ rest) = by_head (is_missing value) (present-↔ rest)
  where
    by_head :
        (b : Bool)
        → (is_none (present_of rest) ≡ true) ↔ Each is_missing true rest
        → (is_none (if not b then name ∷ present_of rest else present_of rest) ≡ true)
          ↔ (b ≡ true) × Each is_missing true rest
    by_head true (f, g) = (λ h. (refl, f h), λ h. g h.1)
    by_head false (f, g) = (λ h. (h, f cc), λ h. h.0)

known_part : (a b c : Bool) → (not (a || b) && c) ≡ true → (a ≡ false) × (c ≡ true)
known_part false false c h = (refl, h)
known_part false true c h = (refl, cc)
known_part true b c h = (sym h, cc)

not-false : (a b : Bool) → not (a || b) ≡ true → a ≡ false
not-false false b h = refl
not-false true b h = sym h

provider_gaps-↔ :
    (p : ProviderIdentity)
    → (is_none (provider_gaps p) ≡ true) ↔ Each is_unknown false (provider_fields p)
unfolding provider_gaps provider_is_complete is_missing
provider_gaps-↔ p = by_complete (provider_is_complete p) refl
  where
    by_complete :
        (b : Bool)
        → provider_is_complete p ≡ b
        → (is_none
              (if b then [] else prefixed "provider_identity." (unknown_of (provider_fields p)))
            ≡ true)
          ↔ Each is_unknown false (provider_fields p)
    by_complete true complete =
        let (a, f) = known_part _ _ _ complete in
        let (b, g) = known_part _ _ _ f in
        let (c, i) = known_part _ _ _ g in
        let d = not-false _ _ i in (λ h. (a, (b, (c, (d, tt)))), λ h. refl)
    by_complete false h = prefixed-↔ _ _ (names_where-Each is_unknown (provider_fields p))

-- The two tests that look at the Codex layer.
codex-↔ :
    {P R : Type 0} (Q : Bool → Type 0) (declared : Bool)
    (fabricated conditional required rest : List String) (e f : Failure)
    → (is_none fabricated ≡ true) ↔ Q true
    → (is_none conditional ≡ true) ↔ Q false
    → (is_none required ≡ true) ↔ P
    → (is_none rest ≡ true) ↔ R
    → ((refuse_if (not declared && not (is_none fabricated)) e
          >> refuse_if
              (not (is_none (required ++ ((if declared then conditional else []) ++ rest))))
              f)
        ≡ good tt)
      ↔ Q (not declared) × P × R
unfolding ◌>>◌
codex-↔ Q true fabricated conditional required rest e f fab cond req others =
    let (there, back) =
      last-↔ _ f (append-↔ required _ req (append-↔ conditional rest cond others)) in
    (λ h. ((there h).1.0, (there h).0, (there h).1.1), λ h. back (h.1, (h.0, h.2)))
codex-↔ Q false fabricated conditional required rest e f fab cond req others =
    let (there, back) =
      unless-↔ (is_none fabricated) e (refuse_if (not (is_none (required ++ ([] ++ rest)))) f)
        (last-↔ _ f (append-↔ required ([] ++ rest) req others)) in
    (λ h. (fab.0 (there h).0, (there h).1.0, (there h).1.1), λ h. back (fab.1 h.0, (h.1, h.2)))

-- A result completes just where both layers allow it: the required identity fields are always
-- needed; the Codex fields are needed of a Worker that declares itself to be Codex, and refused from
-- any other.
pub validate_worker_completion-↔ :
    (e : WorkerEnvelope) → (validate_worker_completion e ≡ good tt) ↔ CompletionAllowed e
unfolding validate_worker_completion missing_completion_fields missing_required_fields
    missing_conditional_fields fabricated_codex_fields component_missing_fields codex_gaps
validate_worker_completion-↔ e = unless-↔ _ _ _ (
    unless-↔ _ _ _ (
      codex-↔ (λ b. Each is_missing b (conditional_fields e.identity))
        (codex_identity_required e.worker_schema_identity) _ _ _ _ _ _
        (present-↔ (conditional_fields e.identity))
        (names_where-Each is_missing (conditional_fields e.identity))
        (names_where-Each is_missing (required_fields e.identity))
        (append-↔ _ _
          (prefixed-↔ _ _
            (names_where-Each is_missing (component_fields e.worker_artifact_identity)))
          (append-↔ _ _
            (prefixed-↔ _ _
              (names_where-Each is_missing (component_fields e.worker_schema_identity)))
            (append-↔ _ _ (provider_gaps-↔ e.provider_identity)
              (names_where-Each is_unknown (digest_fields e)))))))
