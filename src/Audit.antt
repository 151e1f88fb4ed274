-- ===== src/Audit.antt =====
-- The audit of cli/admissorium.ts: the invariants of invariants/ over the registries and the
-- repositories that are checked out.
--
-- What a finding expects and observes is a `Value`; the order of an object's entries is that of the
-- source.
pub mod Perimeter
pub mod RepoClass
pub mod Package
pub mod License
pub mod Inventory
pub mod Local
pub mod Run
use admissorium.Prelude.{ℕ, false, String, List, [], ◌∷◌}
use admissorium.Js.{number, finite, Value, Items, Fields, arr, str, item, no_items, field, end, obj}

abbrev pub array_of : List String → Items
array_of [] = no_items
array_of (s ∷ ss) = item (str s) (array_of ss)

-- `{ missing, extra }`
abbrev pub difference : (missing extra : List String) → Value
difference missing extra =
    obj (field "missing" (arr (array_of missing)) (field "extra" (arr (array_of extra)) end))

-- a count, which is a natural number
abbrev pub count_value : ℕ → Value
count_value n = number (finite false n 0)
