-- ===== src/Permissions/Paths.antt =====
-- Which changed paths count as protected.
use admissorium.Prelude.{
  String, ◌≡◌, refl, sym, ◌⊎◌, inl, inr, Bool, true, false, Option, none, some, List, [], ◌∷◌,
  arith, All, All-mem, Bool-cases,
}
use admissorium.Js.{or_else}
use admissorium.Permissions.Policy.{
  ProtectedPathClass, ProtectedPathsPolicy, with_protected_path_defaults,
}
use admissorium.Permissions.Decision.{
  some_glob, first_class, protected_path_class_for, PathDecision, protected_path_decision,
}
use mathlib.Core.List.{Memᴰ}

abbrev pub classes_of : ProtectedPathsPolicy → List ProtectedPathClass
classes_of policy = or_else (with_protected_path_defaults policy).protected_classes []

hit_cases : (o : Option Bool) → (o ≡ none) ⊎ ((o ≡ some true) ⊎ (o ≡ some false))
hit_cases none = inl refl
hit_cases (some true) = inr (inl refl)
hit_cases (some false) = inr (inr refl)

pub match_cases :
    (o : Option (Option ProtectedPathClass))
    → (o ≡ none) ⊎ ((o ≡ some none) ⊎ ((c : ProtectedPathClass) × (o ≡ some (some c))))
match_cases none = inl refl
match_cases (some none) = inr (inl refl)
match_cases (some (some c)) = inr (inr (c, refl))

first_class_sound :
    (path : String) (entries : List ProtectedPathClass) {c : ProtectedPathClass}
    → first_class path entries ≡ some (some c)
    → Memᴰ c entries × (some_glob path (or_else c.paths []) ≡ some true)
unfolding first_class
first_class_sound path [] e = cc
first_class_sound path (entry ∷ entries) {c} e =
    elim (hit_cases (some_glob path (or_else entry.paths []))) [
      | inl failed ↦ cc (rw (failed, first_class) at e)
      | inr (inl hit) ↦
          let same : entry ≡ c = ground arith in (Memᴰ.head (sym same), rw (← same) hit)
      | inr (inr miss) ↦
          let (listed, hit) = first_class_sound path entries (rw (miss, first_class) at e) in
          (Memᴰ.tail listed, hit)
    ]

-- The first class found is listed by the policy, and one of its globs matches the path.
pub protected_path_class_for_sound :
    (path : String) (policy : ProtectedPathsPolicy) (c : ProtectedPathClass)
    → protected_path_class_for path policy ≡ some (some c)
    → Memᴰ c (classes_of policy) × (some_glob path (or_else c.paths []) ≡ some true)
unfolding protected_path_class_for
protected_path_class_for_sound path policy c e = first_class_sound path _ e

module _ (policy : ProtectedPathsPolicy) where
  abbrev pub IsUnprotected : String → Type 0
  IsUnprotected path = protected_path_class_for path policy ≡ some none

  -- A decision that touches nothing has passed every path.
  pub untouched_All :
      (paths : List String) (d : PathDecision)
      → protected_path_decision paths policy ≡ some d
      → d.touched ≡ false
      → All IsUnprotected paths
  unfolding protected_path_decision
  untouched_All [] d e u = tt
  untouched_All (path ∷ paths) d e u = elim (match_cases (protected_path_class_for path policy)) [
    | inl failed ↦ cc (rw (failed, protected_path_decision) at e)
    | inr (inl miss) ↦ (miss, untouched_All paths d (ground arith) u)
    | inr (inr (c, hit)) ↦ absurd (ground arith)
  ]

  pub touched_sound :
      (paths : List String) (d : PathDecision)
      → protected_path_decision paths policy ≡ some d
      → d.touched ≡ true
      → (path : String) × (c : ProtectedPathClass) × Memᴰ path paths
        × (protected_path_class_for path policy ≡ some (some c))
        × (d.matched_class ≡ c.id)
  unfolding protected_path_decision
  touched_sound [] d e u = ground arith
  touched_sound (path ∷ paths) d e u = elim (match_cases (protected_path_class_for path policy)) [
    | inl failed ↦ cc (rw (failed, protected_path_decision) at e)
    | inr (inl miss) ↦
        let (found, c, listed, hit, same) = touched_sound paths d (ground arith) u in
        (found, c, Memᴰ.tail listed, hit, same)
    | inr (inr (c, hit)) ↦ (path, c, Memᴰ.head refl, hit, ground arith)
  ]

  -- A path of a protected class is never passed over.
  pub touched_of_mem :
      (paths : List String) (d : PathDecision) (c : ProtectedPathClass) {path : String}
      → protected_path_decision paths policy ≡ some d
      → Memᴰ path paths
      → protected_path_class_for path policy ≡ some (some c)
      → d.touched ≡ true
  touched_of_mem paths d c e listed hit = elim (Bool-cases d.touched) [
    | inl yes_touched ↦ yes_touched
    | inr no_touched ↦ cc (All-mem IsUnprotected listed (untouched_All paths d e no_touched), hit)
  ]
