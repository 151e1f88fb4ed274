-- ===== src/Examples/Gate/Objects.antt =====
-- The gates of recognition, verification and continuity at inputs that they pass.
use admissorium.Prelude.{◌≡◌, ◌↔◌}
use admissorium.Gate.{green}
use admissorium.Gate.Recognition.{assert_recognition_object_required}
use admissorium.Gate.Verification.{assert_verification_result_required}
use admissorium.Gate.Continuity.{assert_continuity_transfer_required}
use admissorium.Gate.Objects.{IsRecognised, IsVerified, IsContinued, required_objects-green_iff}
use admissorium.Examples.Gate.Recognition.{recognition_input}
use admissorium.Examples.Gate.Verification.{verification_input}
use admissorium.Examples.Gate.Continuity.{continuity_input}

required_objects-green_iff_example :
    (((assert_recognition_object_required recognition_input).status ≡ green)
      ↔ IsRecognised recognition_input)
    × (((assert_verification_result_required verification_input).status ≡ green)
        ↔ IsVerified verification_input)
    × (((assert_continuity_transfer_required continuity_input).status ≡ green)
        ↔ IsContinued continuity_input)
required_objects-green_iff_example =
    required_objects-green_iff recognition_input verification_input continuity_input
