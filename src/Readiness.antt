-- ===== src/Readiness.antt =====
-- reports/actuator-readiness.ts: criteria that pass or fail, and how many do.
pub mod Laws
pub mod Actuator
use admissorium.Prelude.{ℕ, ◌-◌, Bool, true, false, List, length, select, if◌then◌else◌}

pub data Outcome : Type 0 where
  pass fail : Outcome

abbrev pub outcome : Bool → Outcome
outcome passes = if passes then pass else fail

abbrev pub passes : Outcome → Bool
passes pass = true
passes fail = false

abbrev pub fails : Outcome → Bool
fails pass = false
fails fail = true

-- how many of these have the status
module _ {A : Type 0} (status : A → Outcome) (items : List A) where
  abbrev pub passed_count : ℕ
  passed_count = length (select (λ item. passes (status item)) items)

  abbrev pub failed_count : ℕ
  failed_count = length (select (λ item. fails (status item)) items)
