-- ===== src/Webhook/Intake.antt =====
-- app/webhook-intake.ts: checking the signature of a delivery and reading its envelope.
pub mod Laws
use admissorium.Prelude.{
  ℕ, Char, code, String, Bool, true, false, not, ◌&&◌, ◌||◌, Option, none, some, List, [], ◌∷◌,
  ◌==◌, starts_with, leb, nat_eq, includes, if◌then◌else◌,
}
use admissorium.Text.{is_empty, ◌⧺◌, drop_chars, to_lower_case}
use admissorium.Js.{Value, str, obj, Fields, get, or_else, RawBody, text, buffer, Platform}
use Prim.Native.String.{count}

pub data SignatureVerdict : Type 0 where
  valid missing_signature unsupported_signature malformed_signature invalid : SignatureVerdict

pub data EnvelopeVerdict : Type 0 where
  accepted : EnvelopeVerdict
  rejected_signature : EnvelopeVerdict
  rejected_missing_event : EnvelopeVerdict
  rejected_missing_delivery : EnvelopeVerdict
  rejected_invalid_json : EnvelopeVerdict
  rejected_unsupported_event : EnvelopeVerdict

pub record Headers : Type 0 where
  pub event : Option String
  pub delivery : Option String
  pub signature : Option String
  pub user_agent : Option String

-- a header's value in Node: a text, several, or none
pub data HeaderValue : Type 0 where
  absent : HeaderValue
  single : String → HeaderValue
  several : List String → HeaderValue

abbrev pub first_of_value : HeaderValue → Option String
first_of_value absent = none
first_of_value (single v) = some v
first_of_value (several []) = none
first_of_value (several (v ∷ vs)) = some v

no_headers : Headers
no_headers = record { event = none; delivery = none; signature = none; user_agent = none }

-- one round of the loop of `normalizeGitHubWebhookHeaders`
set_header : String → Option String → Headers → Headers
set_header key none h = h
set_header key (some v) h =
    if key == "x-github-event"
    then record h { event = some v }
    else if key == "x-github-delivery"
    then record h { delivery = some v }
    else if key == "x-hub-signature-256"
    then record h { signature = some v }
    else if key == "user-agent"
    then record h { user_agent = some v }
    else h

normalize_from : (Char → String) → List (String × HeaderValue) → Headers → Headers
normalize_from small [] h = h
normalize_from small ((key, value) ∷ rest) h =
    normalize_from small rest (set_header (to_lower_case small key) (first_of_value value) h)

-- `normalizeGitHubWebhookHeaders`: a later entry of the same name wins
unfoldable pub normalize_headers : (Char → String) → List (String × HeaderValue) → Headers
unfolding normalize_from set_header no_headers
normalize_headers small entries = normalize_from small entries no_headers

-- `computeGitHubWebhookSignature`
unfoldable pub compute_signature : Platform → RawBody → (secret : String) → String
compute_signature node body secret = "sha256=" ⧺ node.hmac_sha256_hex secret body

is_hex_digit : ℕ → Bool
is_hex_digit c = leb b'0' c && leb c b'9' || leb b'a' c && leb c b'f' || leb b'A' c && leb c b'F'

all_hex : String → Bool
all_hex String.[] = true
all_hex (String.◌∷◌ c s) = is_hex_digit (code c) && all_hex s

-- /^[0-9a-f]{64}$/i
unfoldable pub is_hex_digest : String → Bool
unfolding all_hex is_hex_digit
is_hex_digest s = nat_eq (count s) 64 && all_hex s

-- `safeEqualUtf8`: the bytes agree exactly when the texts do
abbrev pub safe_equal : String → String → Bool
safe_equal left right = left == right

pub record SignatureVerification : Type 0 where
  pub verdict : SignatureVerdict
  pub reason : String

-- what follows once a signature that is not empty is there
unfoldable pub verify_present :
    Platform → RawBody → (secret received : String) → SignatureVerification
verify_present node body secret received =
    if not (starts_with received "sha256=")
    then record {
      verdict = unsupported_signature;
      reason = "Only GitHub sha256 webhook signatures are accepted.";
    }
    else if not (is_hex_digest (drop_chars 7 received))
    then record {
      verdict = malformed_signature;
      reason = "Webhook signature is not a valid sha256 hex digest.";
    }
    else if not (safe_equal (compute_signature node body secret) received)
    then record { verdict = invalid; reason = "Webhook signature does not match payload body." }
    else record { verdict = valid; reason = "Webhook signature matches payload body." }

-- a missing header and an empty one are alike
abbrev pub filled : Option String → Option String
filled none = none
filled (some s) = if is_empty s then none else some s

-- `verifyGitHubWebhookSignature`
unfoldable pub verify_signature :
    Platform → RawBody → (secret : String) → Option String → SignatureVerification
verify_signature node body secret received = elim (filled received) [
  | none ↦ record { verdict = missing_signature; reason = "Missing x-hub-signature-256 header." }
  | some s ↦ verify_present node body secret s
]

pub record Envelope : Type 0 where
  pub verdict : EnvelopeVerdict
  pub event : Option String
  pub delivery : Option String
  pub action : Option String
  pub repository_full_name : Option String
  pub sender_login : Option String
  pub payload : Option Value
  pub signature : SignatureVerification
  pub reason : String

pub record EnvelopeInput : Type 0 where
  pub headers : Headers
  pub raw_body : RawBody
  pub webhook_secret : String
  pub allowed_events : Option (List String)

abbrev pub default_allowed_events : List String
default_allowed_events =
    "pull_request" ∷ "push" ∷ "check_suite" ∷ "check_run" ∷ "workflow_run" ∷ "issues"
    ∷ "issue_comment" ∷ "repository" ∷ "release" ∷ []

abbrev object_record : Value → Option Fields
object_record (obj fs) = some fs
object_record _ = none

abbrev string_of : Value → Option String
string_of (str s) = some s
string_of _ = none

abbrev string_field : Option Fields → String → Option String
string_field none key = none
string_field (some fs) key = string_of (get fs key)

abbrev object_field : Option Fields → String → Option Fields
object_field none key = none
object_field (some fs) key = object_record (get fs key)

unfoldable pub rejected :
    EnvelopeVerdict → (event delivery : Option String) → SignatureVerification → String → Envelope
rejected verdict event delivery signature reason = record {
  verdict = verdict;
  event = event;
  delivery = delivery;
  action = none;
  repository_full_name = none;
  sender_login = none;
  payload = none;
  signature = signature;
  reason = reason;
}

unfoldable pub accept : (event delivery : String) → Value → SignatureVerification → Envelope
accept event delivery payload signature =
    let fields = object_record payload in
    record {
      verdict = accepted;
      event = some event;
      delivery = some delivery;
      action = filled (string_field fields "action");
      repository_full_name = filled (string_field (object_field fields "repository") "full_name");
      sender_login = filled (string_field (object_field fields "sender") "login");
      payload = some payload;
      signature = signature;
      reason = "Webhook envelope accepted for read-only intake.";
    }

-- the text that `JSON.parse` is given
abbrev pub body_text : Platform → RawBody → String
body_text node (text s) = s
body_text node (buffer bytes) = node.decode_utf8 bytes

-- the rest, by what the two headers and the parser gave
unfoldable pub parse_present :
    (allowed : Bool)
    → SignatureVerification
    → (event delivery : Option String) → Option Value
    → Envelope
unfolding rejected accept
parse_present allowed signature none delivery payload =
    rejected rejected_missing_event none none signature "Missing x-github-event header."
parse_present allowed signature (some event) none payload =
    rejected rejected_missing_delivery (some event) none signature
      "Missing x-github-delivery header."
parse_present false signature (some event) (some delivery) payload =
    rejected rejected_unsupported_event (some event) (some delivery) signature
      ("Unsupported GitHub webhook event: " ⧺ event)
parse_present true signature (some event) (some delivery) none =
    rejected rejected_invalid_json (some event) (some delivery) signature
      "Webhook body is not valid JSON."
parse_present true signature (some event) (some delivery) (some payload) =
    accept event delivery payload signature

abbrev pub is_valid : SignatureVerdict → Bool
is_valid valid = true
is_valid _ = false

-- `allowedEvents.includes(event)`
abbrev pub allows : EnvelopeInput → Option String → Bool
allows input none = false
allows input (some event) = includes (or_else input.allowed_events default_allowed_events) event

-- `parseGitHubWebhookEnvelope`
unfoldable pub parse_envelope : Platform → EnvelopeInput → Envelope
unfolding rejected parse_present
parse_envelope node input =
    let signature =
      verify_signature node input.raw_body input.webhook_secret input.headers.signature in
    let event = filled input.headers.event in
    let delivery = filled input.headers.delivery in
    let payload = node.parse_json (body_text node input.raw_body) in
    if is_valid signature.verdict
    then parse_present (allows input event) signature event delivery payload
    else rejected rejected_signature none none signature signature.reason
