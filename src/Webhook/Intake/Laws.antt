-- ===== src/Webhook/Intake/Laws.antt =====
-- When app/webhook-intake.ts accepts.
use admissorium.Prelude.{
  String, ◌≡◌, refl, ◌↔◌, Bool, true, false, Option, none, some, eq_iff, eq_refl, arith, includes,
  Bool-cases, inl, inr,
}
use admissorium.Text.{◌⧺◌, is_empty}
use admissorium.Text.Laws.{starts_with-append, drop_chars-append, is_empty-append}
use admissorium.Js.{Value, or_else, RawBody, Platform}
use admissorium.Webhook.Intake.{
  valid, SignatureVerdict, SignatureVerification, is_valid, rejected, accepted, compute_signature,
  is_hex_digest, verify_present, filled, verify_signature, EnvelopeInput, default_allowed_events,
  body_text, parse_present, allows, parse_envelope,
}

-- `x` is a text that is not empty
abbrev pub Holds : Option String → String → Type 0
Holds o s = filled o ≡ some s

-- `hmac.digest("hex")` of SHA-256 is 64 hexadecimal digits.
abbrev pub HasHexDigests : Platform → Type 0
HasHexDigests node =
    (secret : String) (body : RawBody) → is_hex_digest (node.hmac_sha256_hex secret body) ≡ true

-- a verdict of its own behind the signature
parse_present-accepted_iff :
    (allowed : Bool) (signature : SignatureVerification) (e d : Option String) (p : Option Value)
    (event delivery : String) (payload : Value)
    → (let envelope = parse_present allowed signature e d p in
        (envelope.verdict ≡ accepted)
        × (envelope.event ≡ some event)
        × (envelope.delivery ≡ some delivery)
        × (envelope.payload ≡ some payload))
      ↔ ((allowed ≡ true) × (e ≡ some event) × (d ≡ some delivery) × (p ≡ some payload))
unfolding parse_present
parse_present-accepted_iff allowed signature none d p event delivery payload = ground arith
parse_present-accepted_iff allowed signature (some e) none p event delivery payload = ground arith
parse_present-accepted_iff false signature (some e) (some d) p event delivery payload = ground arith
parse_present-accepted_iff true signature (some e) (some d) none event delivery payload =
    ground arith
parse_present-accepted_iff true signature (some e) (some d) (some p) event delivery payload =
    ground arith

is_valid_iff : (v : SignatureVerdict) → (is_valid v ≡ true) ↔ (v ≡ valid)
is_valid_iff valid = ground arith
is_valid_iff _ = ground arith

module _ (node : Platform) where
  verify_present-valid :
      (body : RawBody) (secret received : String)
      → (verify_present node body secret received).verdict ≡ valid
      → received ≡ compute_signature node body secret
  unfolding verify_present
  verify_present-valid body secret received e =
      ground (arith, eq_iff (compute_signature node body secret) received)

  computed-valid :
      (body : RawBody) (secret : String)
      → HasHexDigests node
      → (verify_present node body secret (compute_signature node body secret)).verdict ≡ valid
  unfolding verify_present compute_signature
  computed-valid body secret h = rw (
    starts_with-append,
    drop_chars-append "sha256=" (node.hmac_sha256_hex secret body),
    h secret body,
    eq_refl ("sha256=" ⧺ node.hmac_sha256_hex secret body),
  )

  is_empty-computed :
      (body : RawBody) (secret : String) → is_empty (compute_signature node body secret) ≡ false
  unfolding compute_signature
  is_empty-computed body secret = is_empty-append "sha256=" _ refl

  -- Where digests have 64 hexadecimal digits, a signature is valid exactly when it is the one that
  -- is computed from the body and the secret.
  pub verify_signature-valid_iff :
      (body : RawBody) (secret : String) (received : Option String)
      → HasHexDigests node
      → ((verify_signature node body secret received).verdict ≡ valid)
        ↔ (received ≡ some (compute_signature node body secret))
  unfolding verify_signature
  verify_signature-valid_iff body secret none h = ground arith
  verify_signature-valid_iff body secret (some s) h = (
    λ e. ground (arith, verify_present-valid body secret s),
    λ e.
        let same : s ≡ compute_signature node body secret = cc in
        rw same (ground (arith, is_empty-computed body secret, computed-valid body secret h)),
  )

  module _ (input : EnvelopeInput) where
    -- The conditions under which an envelope is accepted, and what it then holds.
    pub record IsIntake (event delivery : String) (payload : Value) : Type 0 where
      pub signed :
          (verify_signature node input.raw_body input.webhook_secret
            input.headers.signature).verdict
          ≡ valid
      pub event_present : Holds input.headers.event event
      pub delivery_present : Holds input.headers.delivery delivery
      pub event_allowed :
          includes (or_else input.allowed_events default_allowed_events) event ≡ true
      pub body_parsed : node.parse_json (body_text node input.raw_body) ≡ some payload

    abbrev signature : SignatureVerification
    signature = verify_signature node input.raw_body input.webhook_secret input.headers.signature

    abbrev parsed : Option Value
    parsed = node.parse_json (body_text node input.raw_body)

    -- An envelope is accepted exactly under these conditions, with the event, the delivery and the
    -- payload that they speak of.
    pub parse_envelope-accepted_iff :
        (event delivery : String) (payload : Value)
        → (let envelope = parse_envelope node input in
            (envelope.verdict ≡ accepted)
            × (envelope.event ≡ some event)
            × (envelope.delivery ≡ some delivery)
            × (envelope.payload ≡ some payload))
          ↔ IsIntake event delivery payload
    unfolding parse_envelope
    parse_envelope-accepted_iff event delivery payload =
        let (to, from) =
          parse_present-accepted_iff (allows input (filled input.headers.event)) signature
            (filled input.headers.event) (filled input.headers.delivery) parsed event delivery
            payload in
        let (to_valid, from_valid) = is_valid_iff signature.verdict in
        elim (Bool-cases (is_valid signature.verdict)) [
          | inl ok ↦ rw ok (
            λ h.
                let (allowed, e, d, p) = to h in
                record {
                  signed = to_valid ok;
                  event_present = e;
                  delivery_present = d;
                  event_allowed = rw e at allowed;
                  body_parsed = p;
                },
            λ k. from (
              rw k.event_present k.event_allowed,
              k.event_present,
              k.delivery_present,
              k.body_parsed,
            ),
          )
          | inr bad ↦ rw bad (
            λ h. absurd (unfold rejected in ground arith),
            λ k. absurd (cc (bad, from_valid k.signed)),
          )
        ]
