-- ===== src/Grouping.antt =====
-- A `Map` from texts to lists, filled by `map.get(key) ?? []`, `push` and `set`: buckets in the order
-- in which their keys came.
pub mod Laws
use admissorium.Prelude.{String, ◌==◌, List, [], ◌∷◌, ◌++◌, map, includes, if◌then◌else◌}

module _ {A : Type 0} where
  unfoldable pub put : String → A → List (String × List A) → List (String × List A)
  put key a [] = (key, a ∷ []) ∷ []
  put key a ((k, bucket) ∷ buckets) =
      let rest = put key a buckets in
      if k == key then (k, bucket ++ a ∷ []) ∷ buckets else (k, bucket) ∷ rest

  unfoldable pub group_from : List (String × List A) → List (String × A) → List (String × List A)
  group_from buckets [] = buckets
  group_from buckets ((key, a) ∷ entries) = group_from (put key a buckets) entries

  unfoldable pub group : List (String × A) → List (String × List A)
  group entries = group_from [] entries

-- The elements of a `Set` in the order in which they came.
unfoldable pub unique_from : List String → List String → List String
unique_from seen [] = seen
unique_from seen (x ∷ xs) = unique_from (if includes seen x then seen else seen ++ x ∷ []) xs

-- `[...new Set(xs)]`
unfoldable pub unique : List String → List String
unique xs = unique_from [] xs
