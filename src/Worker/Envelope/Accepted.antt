-- ===== src/Worker/Envelope/Accepted.antt =====
-- An envelope that has been read is valid (src/zworkbench/worker_contract.py).
use zworkbench.Worker.Identity.{identity_from_dict}
use zworkbench.Worker.Provider.{provider_from_dict}
use zworkbench.Worker.Identity.RoundTrip.{IdentityValid}
use zworkbench.Worker.Capability.{checked_texts, CapabilityRequest, request_from_dict}
use zworkbench.Worker.Component.{component_from_dict}
use zworkbench.Worker.Envelope.{
  WorkerEnvelope, replay_modes, optional_from_dict, known_text, envelope_from_dict, check_request,
  message_types,
}
use zworkbench.Common.{
  String, ◌≡◌, refl, Bool, true, false, Option, none, some, List, [], ◌==◌, is_some, ◌&&◌, not,
  if◌then◌else◌,
}
use zworkbench.Common.Tables.{All}
use zworkbench.Common.Text.{is_blank}
use zworkbench.Json.{Value, text, obj, bool, nil, arr, Items, int, literal, cons, null}
use zworkbench.Worker.Base.{
  ◌>>=◌, ◌>>◌, good, bad, mapping, refused, Code, Failure, refuse_if, one_of,
}
use zworkbench.Worker.Ensures.{
  Ensures, ensured, Ensures-bind, Ensures-skip, Ensures-then, Ensures-guard, Ensures-good,
  Ensures-bad, text_at-Ensures, refuse_if-Ensures, reject_secrets-Ensures, checked_text-Ensures,
}
use zworkbench.Worker.Envelope.RoundTrip.{
  ProviderValid, ComponentValid, RequestValid, RequestFits, EnvelopeValid,
}

identity-Ensures : (v : Value) → Ensures IdentityValid (identity_from_dict v)
unfolding identity_from_dict
identity-Ensures v = Ensures-skip (mapping v) λ fs. Ensures-then _ (
    Ensures-then _ (
      Ensures-bind _ (text_at-Ensures _ fs) λ _ a. Ensures-bind _ (text_at-Ensures _ fs) λ _ b.
        Ensures-bind _ (text_at-Ensures _ fs) λ _ c. Ensures-bind _ (text_at-Ensures _ fs) λ _ d.
          Ensures-bind _ (text_at-Ensures _ fs) λ _ e. Ensures-bind _ (text_at-Ensures _ fs) λ _ f.
            Ensures-bind _ (text_at-Ensures _ fs) λ _ g.
              Ensures-bind _ (text_at-Ensures _ fs) λ _ h.
                Ensures-bind _ (text_at-Ensures _ fs) λ _ i.
                  Ensures-bind _ (text_at-Ensures _ fs)
                    λ _ j. Ensures-good _ (a, (b, (c, (d, (e, (f, (g, (h, (i, (j, tt))))))))))))

provider-Ensures : (v : Value) → Ensures ProviderValid (provider_from_dict v)
unfolding provider_from_dict
provider-Ensures v = Ensures-skip (mapping v) λ fs. Ensures-then _ (
    Ensures-then _ (
      Ensures-bind _ (text_at-Ensures _ fs) λ _ a. Ensures-bind _ (text_at-Ensures _ fs) λ _ b.
        Ensures-bind _ (text_at-Ensures _ fs) λ _ c. Ensures-bind _ (text_at-Ensures _ fs) λ _ d.
          Ensures-skip _ λ metadata.
            Ensures-guard _ (reject_secrets-Ensures metadata)
              λ _ e. Ensures-good _ (a, b, c, d, e)))

component-Ensures : (v : Value) → Ensures ComponentValid (component_from_dict v)
unfolding component_from_dict
component-Ensures v = Ensures-skip (mapping v) λ fs. Ensures-then _ (
    Ensures-bind _ (text_at-Ensures _ fs) λ _ a. Ensures-bind _ (text_at-Ensures _ fs) λ _ b.
      Ensures-bind _ (text_at-Ensures _ fs)
        λ _ c. Ensures-bind _ (text_at-Ensures _ fs) λ _ d. Ensures-good _ (a, b, c, d))

texts-Ensures : (vs : Items) → Ensures (All (λ s. is_blank s ≡ false)) (checked_texts vs)
unfolding checked_texts
texts-Ensures nil = Ensures-good [] tt
texts-Ensures (cons v vs) =
    Ensures-bind _ (checked_text-Ensures v)
      λ s h. Ensures-bind _ (texts-Ensures vs) λ ss k. Ensures-good _ (h, k)

request-Ensures : (v : Value) → Ensures RequestValid (request_from_dict v)
unfolding request_from_dict
request-Ensures v = Ensures-skip (mapping v) λ fs. Ensures-then _ (
    Ensures-skip _ λ items. Ensures-bind _ (text_at-Ensures _ fs) λ _ a.
      Ensures-bind _ (text_at-Ensures _ fs) λ _ b. Ensures-bind _ (text_at-Ensures _ fs) λ _ c.
        Ensures-bind _ (text_at-Ensures _ fs) λ _ d. Ensures-bind _ (text_at-Ensures _ fs) λ _ e.
          Ensures-bind _ (texts-Ensures items) λ permissions f.
            Ensures-guard _ (refuse_if-Ensures _ _) λ _ g. Ensures-skip _ λ arguments.
              Ensures-guard _ (reject_secrets-Ensures arguments)
                λ _ h. Ensures-good _ (a, b, c, d, e, f, g, h))

-- The request, if there is one, is valid.
abbrev OptionalValid : Option CapabilityRequest → Type 0
OptionalValid none = Unit
OptionalValid (some r) = RequestValid r

present-Ensures : (v : Value) → Ensures OptionalValid (request_from_dict v >>= λ r. good (some r))
present-Ensures v = Ensures-bind _ (request-Ensures v) λ r h. Ensures-good _ h

optional-Ensures : (v : Value) → Ensures OptionalValid (optional_from_dict v)
unfolding optional_from_dict
optional-Ensures null = Ensures-good none tt
optional-Ensures (bool b) = present-Ensures (bool b)
optional-Ensures (int n) = present-Ensures (int n)
optional-Ensures (literal s) = present-Ensures (literal s)
optional-Ensures (text s) = present-Ensures (text s)
optional-Ensures (arr vs) = present-Ensures (arr vs)
optional-Ensures (obj fs) = present-Ensures (obj fs)

known_text-Ensures :
    (names : List String) (e : Failure) (v : Value)
    → Ensures (λ s. one_of names s ≡ true) (known_text names e v)
unfolding known_text
known_text-Ensures names e (text s) = listed (one_of names s) refl
  where
    listed :
        (b : Bool)
        → one_of names s ≡ b
        → Ensures (λ t. one_of names t ≡ true) (if b then good s else bad e)
    listed true h = Ensures-good s h
    listed false h = Ensures-bad e
known_text-Ensures names e null = Ensures-bad _
known_text-Ensures names e (bool b) = Ensures-bad _
known_text-Ensures names e (int n) = Ensures-bad _
known_text-Ensures names e (literal s) = Ensures-bad _
known_text-Ensures names e (arr vs) = Ensures-bad _
known_text-Ensures names e (obj fs) = Ensures-bad _

both-Ensures :
    (kind : Bool) (request : Option CapabilityRequest)
    → Ensures
        (λ _. kind ≡ is_some request)
        (refuse_if (kind && not (is_some request)) (refused Code.capability_request_required)
          >> refuse_if (not kind && is_some request) (refused Code.capability_request_unexpected))
unfolding ◌>>◌
both-Ensures true none = Ensures-bad _
both-Ensures true (some r) = Ensures-good tt refl
both-Ensures false none = Ensures-good tt refl
both-Ensures false (some r) = Ensures-bad _

check_request-Ensures :
    (message_type : String) (request : Option CapabilityRequest)
    → Ensures
        (λ _. (message_type == "capability.request") ≡ is_some request)
        (check_request message_type request)
unfolding check_request
check_request-Ensures message_type request = both-Ensures _ request

fits :
    (message_type : String) (request : Option CapabilityRequest)
    → OptionalValid request
    → (message_type == "capability.request") ≡ is_some request
    → RequestFits message_type request
fits message_type none valid h = h
fits message_type (some r) valid h = (h, valid)

envelope-Ensures : (v : Value) → Ensures EnvelopeValid (envelope_from_dict v)
unfolding envelope_from_dict
envelope-Ensures v = Ensures-skip (mapping v) λ fs. Ensures-then _ (
    Ensures-then _ (
      Ensures-bind _ (identity-Ensures _) λ identity a.
        Ensures-bind _ (provider-Ensures _) λ route b.
          Ensures-bind _ (component-Ensures _) λ artifact c.
            Ensures-bind _ (component-Ensures _) λ schema d.
              Ensures-bind _ (optional-Ensures _) λ request e. Ensures-then _ (
                Ensures-bind _ (known_text-Ensures message_types _ _) λ message_type f.
                  Ensures-bind _ (known_text-Ensures replay_modes _ _) λ replay_mode g.
                    Ensures-bind _ (text_at-Ensures _ fs) λ _ h.
                      Ensures-bind _ (text_at-Ensures _ fs) λ _ i.
                        Ensures-bind _ (text_at-Ensures _ fs) λ _ j. Ensures-skip _ λ payload.
                          Ensures-guard _ (reject_secrets-Ensures payload) λ _ k.
                            Ensures-guard _ (check_request-Ensures message_type request) λ _ l.
                              Ensures-good _
                                (f, a, b, g, h, i, j, c, d, fits message_type request e l, k))))

-- Whatever the JSON value, an envelope that `from_dict` accepts passes every check: it has a known
-- message type and replay mode, no blank text, no secret in its metadata, arguments or payload, no
-- repeated permission, and a capability request just where its type asks for one.
pub envelope_accepted :
    (v : Value) (e : WorkerEnvelope) → envelope_from_dict v ≡ good e → EnvelopeValid e
envelope_accepted v e accepted = ensured (envelope_from_dict v) e (envelope-Ensures v) accepted
