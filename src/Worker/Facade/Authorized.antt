-- ===== src/Worker/Facade/Authorized.antt =====
-- What the capability facade lets through (src/zworkbench/worker_contract.py).
use mathlib.Core.Bool.{true≢false}
use zworkbench.Common.Tables.{In}
use zworkbench.Common.Unique.{Apart}
use zworkbench.Worker.Facade.Sets.{one_of-↔, same_set-↔, effect_of-In, In-effect_of}
use zworkbench.Worker.Completion.Layers.{Each, names_where-Each}
use zworkbench.Worker.Base.{is_missing}
use zworkbench.Worker.Identity.{is_complete, identity_fields, IdentityChain}
use zworkbench.Worker.Capability.{CapabilityRequest}
use zworkbench.Worker.Facade.{
  allow, CapabilityDecision, CapabilityEffect, same_set, effect_of, asked, effect_classes,
  authorize, or_refuse,
}
use zworkbench.Worker.Envelope.{WorkerEnvelope}
use zworkbench.Owner.Core.{allowed}
use zworkbench.Worker.Ensures.{
  ensured, Ensures-bad, Ensures-bind, Ensures, Ensures-guard, Ensures-good,
}
use zworkbench.Worker.Base.{good, bad, refuse_if, Failure, one_of, ◌>>=◌, ◌>>◌}
use zworkbench.Common.{
  if◌then◌else◌, eq_iff, sym, ap, subst, ◌≢◌, ◌∙◌, String, true, refl, not, Option, Bool, false,
  List, some, ◌≡◌, none, ◌==◌, ◌↔◌,
}

-- A policy names each capability once, as the keys of a dict are.
abbrev pub NamedOnce : List CapabilityEffect → Type 0
NamedOnce effects = Apart (λ c k. c.capability ≢ k.capability) effects

-- The grounds of a decision: the message asks for a capability, outside every replay, and no field of
-- its identity is missing; an entry of the policy has that capability, its effect, which is a known
-- class, is the one that the request declares, and its permissions are just those that the request
-- declares, whatever their order and however often they are named.
pub record Grounds (effects : List CapabilityEffect) (e : WorkerEnvelope) (d : CapabilityDecision)
    : Type 0 where
  pub request : CapabilityRequest
  pub expected : CapabilityEffect
  pub is_request : e.message_type ≡ "capability.request"
  pub has_request : e.capability_request ≡ some request
  pub is_normal : e.replay_mode ≡ "normal"
  pub has_identity : Each is_missing false (identity_fields e.identity)
  pub is_listed : In expected effects
  pub is_asked : expected.capability ≡ request.capability
  pub is_known : In request.effect_class effect_classes
  pub declares_effect : request.effect_class ≡ expected.effect
  pub declares_permissions :
      (p : String) → In p request.declared_permissions ↔ In p expected.permissions
  pub names_request : d.request_id ≡ request.request_id
  pub is_allowed : d.decision ≡ "allow"
  pub has_reason : d.reason ≡ "allowlisted capability and declared permission"
  pub goes_on : d.safe_stop ≡ false

-- The guards of `authorize`, all passed.
record Passed (effects : List CapabilityEffect) (e : WorkerEnvelope) (d : CapabilityDecision)
    : Type 0 where
  request : CapabilityRequest
  expected : CapabilityEffect
  is_request : asked e ≡ some request
  is_normal : (e.replay_mode == "normal") ≡ true
  has_identity : is_complete e.identity ≡ true
  is_listed : effect_of effects request.capability ≡ some expected
  is_known : one_of effect_classes request.effect_class ≡ true
  declares_effect : (request.effect_class == expected.effect) ≡ true
  declares_permissions : same_set request.declared_permissions expected.permissions ≡ true
  is_allowed : d ≡ allow request

or_refuse-Ensures :
    {A : Type 0} (o : Option A) (f : Failure) → Ensures (λ a. o ≡ some a) (or_refuse o (bad f))
or_refuse-Ensures none f = Ensures-bad f
or_refuse-Ensures (some a) f = Ensures-good a refl

unless-Ensures : (b : Bool) (f : Failure) → Ensures (λ _. b ≡ true) (refuse_if (not b) f)
unless-Ensures true f = Ensures-good tt refl
unless-Ensures false f = Ensures-bad f

authorize-Ensures :
    (effects : List CapabilityEffect) (e : WorkerEnvelope)
    → Ensures (Passed effects e) (authorize effects e)
unfolding authorize
authorize-Ensures effects e = Ensures-bind _ (or_refuse-Ensures (asked e) _) λ request a.
    Ensures-guard _ (unless-Ensures _ _) λ _ b. Ensures-guard _ (unless-Ensures _ _) λ _ c.
      Ensures-bind _ (or_refuse-Ensures (effect_of effects request.capability) _) λ expected d.
        Ensures-guard _ (unless-Ensures _ _) λ _ f. Ensures-guard _ (unless-Ensures _ _) λ _ g.
          Ensures-guard _ (unless-Ensures _ _) λ _ h. Ensures-good _ (record {
            request = request;
            expected = expected;
            is_request = a;
            is_normal = b;
            has_identity = c;
            is_listed = d;
            is_known = f;
            declares_effect = g;
            declares_permissions = h;
            is_allowed = refl;
          })

authorize-Passed :
    (effects : List CapabilityEffect) (e : WorkerEnvelope) (d : CapabilityDecision)
    → authorize effects e ≡ good d
    → Passed effects e d
authorize-Passed effects e d allowed =
    ensured (authorize effects e) d (authorize-Ensures effects e) allowed

Passed-authorize :
    (effects : List CapabilityEffect) (e : WorkerEnvelope) (d : CapabilityDecision)
    → Passed effects e d
    → authorize effects e ≡ good d
unfolding authorize ◌>>=◌ ◌>>◌
Passed-authorize effects e d g = simp (
  g.is_request, g.is_normal, g.has_identity, g.is_listed, g.is_known, g.declares_effect,
  g.declares_permissions, g.is_allowed,
)

is_complete-↔ :
    (c : IdentityChain) → (is_complete c ≡ true) ↔ Each is_missing false (identity_fields c)
unfolding is_complete
is_complete-↔ c = names_where-Each is_missing (identity_fields c)

asked-↔ :
    (e : WorkerEnvelope) (request : CapabilityRequest)
    → (asked e ≡ some request)
      ↔ (e.message_type ≡ "capability.request") × (e.capability_request ≡ some request)
asked-↔ e request = by_type (e.message_type == "capability.request") refl
  where
    by_type :
        (b : Bool)
        → (e.message_type == "capability.request") ≡ b
        → ((if b then e.capability_request else none) ≡ some request)
          ↔ (e.message_type ≡ "capability.request") × (e.capability_request ≡ some request)
    by_type true t = (λ h. ((eq_iff _ _).0 t, h), λ h. h.1)
    by_type false t = (λ h. cc, λ h. absurd (true≢false (sym ((eq_iff _ _).1 h.0) ∙ t)))

decided :
    (d : CapabilityDecision) (request : CapabilityRequest)
    → d.request_id ≡ request.request_id
    → d.decision ≡ "allow"
    → d.reason ≡ "allowlisted capability and declared permission"
    → d.safe_stop ≡ false
    → d ≡ allow request
decided d request a b c s i = record {
  request_id = a i;
  decision = b i;
  reason = c i;
  safe_stop = s i;
}

-- For a policy that names each capability once, `CapabilityFacade.authorize` allows a capability just
-- where there are grounds for it: the message asks for it, is no replay, and no field of its identity
-- is missing; and an entry of the policy has that capability, the effect that the request declares,
-- which is a known class, and the permissions that the request declares, as a set.
pub authorize-↔ :
    (effects : List CapabilityEffect) (e : WorkerEnvelope) (d : CapabilityDecision)
    → NamedOnce effects
    → (authorize effects e ≡ good d) ↔ Grounds effects e d
authorize-↔ effects e d once = (
  λ h. to_grounds (authorize-Passed effects e d h),
  λ g. Passed-authorize effects e d (from_grounds g),
)
  where
    to_grounds : Passed effects e d → Grounds effects e d
    to_grounds p =
        let (t, r) = (asked-↔ e p.request).0 p.is_request in
        let (i, same) = effect_of-In effects p.request.capability p.expected p.is_listed in
        record {
          request = p.request;
          expected = p.expected;
          is_request = t;
          has_request = r;
          is_normal = (eq_iff _ _).0 p.is_normal;
          has_identity = (is_complete-↔ e.identity).0 p.has_identity;
          is_listed = i;
          is_asked = same;
          is_known = (one_of-↔ effect_classes p.request.effect_class).0 p.is_known;
          declares_effect = (eq_iff _ _).0 p.declares_effect;
          declares_permissions = (same_set-↔ _ _).0 p.declares_permissions;
          names_request = ap (λ k. k.request_id) p.is_allowed;
          is_allowed = ap (λ k. k.decision) p.is_allowed;
          has_reason = ap (λ k. k.reason) p.is_allowed;
          goes_on = ap (λ k. k.safe_stop) p.is_allowed;
        }

    from_grounds : Grounds effects e d → Passed effects e d
    from_grounds g = record {
      request = g.request;
      expected = g.expected;
      is_request = (asked-↔ e g.request).1 (g.is_request, g.has_request);
      is_normal = (eq_iff _ _).1 g.is_normal;
      has_identity = (is_complete-↔ e.identity).1 g.has_identity;
      is_listed =
          subst (λ name. effect_of effects name ≡ some g.expected) g.is_asked
            (In-effect_of effects g.expected once g.is_listed);
      is_known = (one_of-↔ effect_classes g.request.effect_class).1 g.is_known;
      declares_effect = (eq_iff _ _).1 g.declares_effect;
      declares_permissions = (same_set-↔ _ _).1 g.declares_permissions;
      is_allowed = decided d g.request g.names_request g.is_allowed g.has_reason g.goes_on;
    }
