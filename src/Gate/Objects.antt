-- ===== src/Gate/Objects.antt =====
-- When the gates src/admission/assert-recognition-object-required.ts,
-- assert-verification-result-required.ts and assert-continuity-transfer-required.ts are green.
use admissorium.Prelude.{◌≡◌, ◌↔◌}
use admissorium.Gate.{green}
use admissorium.Gate.Laws.{Bound, WhenPresent, AddsNone, Exposes}
use admissorium.Gate.Demands.{Fulfilled}
use admissorium.Gate.Recognition.{
  RecognitionInput, recognition_projection_keys, assert_recognition_object_required,
}
use admissorium.Gate.Recognition.Laws.{
  recognition_demands, recognition_bindings, assert_recognition_object_required-green_iff,
}
use admissorium.Gate.Verification.{
  VerificationInput, verification_projection_keys, assert_verification_result_required,
}
use admissorium.Gate.Verification.Laws.{
  verification_demands, verification_bindings, assert_verification_result_required-green_iff,
}
use admissorium.Gate.Continuity.{
  ContinuityInput, continuity_projection_keys, assert_continuity_transfer_required,
}
use admissorium.Gate.Continuity.Laws.{
  continuity_demands, continuity_bindings, assert_continuity_transfer_required-green_iff,
}

-- The recognition object is there and meets its demands, the bindings are met, the projection adds
-- none of the keys, and the chain lock, if it has a chain, exposes the claim class.
abbrev pub IsRecognised : RecognitionInput → Type 0
IsRecognised input =
    Bound input.recognition_object (λ recognition. Fulfilled (recognition_demands recognition))
    × Fulfilled (recognition_bindings input)
    × WhenPresent input.projection (AddsNone recognition_projection_keys)
    × WhenPresent input.chain_lock (Exposes "recognition-object")

-- The same of the verification result.
abbrev pub IsVerified : VerificationInput → Type 0
IsVerified input =
    Bound input.verification_result (λ result. Fulfilled (verification_demands result))
    × Fulfilled (verification_bindings input)
    × WhenPresent input.projection (AddsNone verification_projection_keys)
    × WhenPresent input.chain_lock (Exposes "verification-result")

-- The same of the transfer object.
abbrev pub IsContinued : ContinuityInput → Type 0
IsContinued input =
    Bound input.continuity_transfer_object (λ continuity. Fulfilled (continuity_demands continuity))
    × Fulfilled (continuity_bindings input)
    × WhenPresent input.projection (AddsNone continuity_projection_keys)
    × WhenPresent input.chain_lock (Exposes "continuity-transfer")

-- Each of the gates of recognition, verification and continuity is green exactly if its object is there
-- and meets its demands, the bindings are met, the projection adds none of the keys, and the chain
-- lock, if it has a chain, exposes the claim class.
pub required_objects-green_iff :
    (recognition : RecognitionInput) (verification : VerificationInput)
    (continuity : ContinuityInput)
    → (((assert_recognition_object_required recognition).status ≡ green) ↔ IsRecognised recognition)
      × (((assert_verification_result_required verification).status ≡ green)
          ↔ IsVerified verification)
      × (((assert_continuity_transfer_required continuity).status ≡ green) ↔ IsContinued continuity)
required_objects-green_iff recognition verification continuity = (
  assert_recognition_object_required-green_iff recognition,
  assert_verification_result_required-green_iff verification,
  assert_continuity_transfer_required-green_iff continuity,
)
