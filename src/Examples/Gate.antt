-- ===== src/Examples/Gate.antt =====
-- The gates at inputs that they pass: an object from its entries, and a chain lock with one class.
mod Recourse
mod Recognition
mod Verification
mod Continuity
mod Cognition
mod ClaimClass
mod Objects
mod TruthTyping
mod Convergence
mod Freeze
use admissorium.Prelude.{String, List, [], ◌∷◌}
use admissorium.Js.{Fields, Value, end, field, str, arr, obj, item, no_items}

-- an object with these entries
abbrev pub entries : List (String × Value) → Fields
entries [] = end
entries ((key, value) ∷ rest) = field key value (entries rest)

abbrev pub lock : String → Fields
lock claim_class =
    entries
      (("chain", arr (item (obj (entries (("claim_class", str claim_class) ∷ []))) no_items)) ∷ [])
