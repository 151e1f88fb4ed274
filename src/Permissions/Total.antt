-- ===== src/Permissions/Total.antt =====
-- When the decisions of app/permissions.ts throw: on a policy file that cannot be read, and on a glob
-- that is no regular expression, if the search for a protected class comes to it.
use admissorium.Prelude.{
  String, ◌≡◌, refl, sym, ap, ◌∙◌, ◌↔◌, ◌⊎◌, true, false, Option, none, some, List, [], ◌∷◌, ◌++◌,
  Option-cases, Bool-cases, if◌then◌else◌, inl, inr, arith,
}
use Prim.{⊥}
use mathlib.Core.Path.{subst}
use mathlib.Core.Option.{some_inj}
use admissorium.Fallible.{◌>>=◌}
use admissorium.Js.{or_else}
use admissorium.Permissions.Glob.{Piece, glob_to_regexp, test}
use admissorium.Permissions.Policy.{
  malformed, PermissionPolicy, load_permission_policy, load_protected_paths_policy,
  ProtectedPathClass, ProtectedPathsPolicy,
}
use admissorium.Permissions.Decision.{
  some_glob, first_class, protected_path_class_for, protected_path_decision, WriteInput,
  Surroundings, changed_paths_of, permission_policy_of, protected_policy_of, decide_write,
}
use admissorium.Permissions.Paths.{classes_of, IsUnprotected, match_cases}

-- all globs of a policy, in the order in which they are tried
abbrev pub globs_of : List ProtectedPathClass → List String
globs_of [] = []
globs_of (c ∷ cs) = or_else c.paths [] ++ globs_of cs

-- The glob is a regular expression that does not match the path.
abbrev pub Misses : String → String → Type 0
Misses path glob =
    (regexp : List Piece) × (glob_to_regexp glob ≡ some regexp) × (test regexp path ≡ false)

-- Some glob of the list is no regular expression, and all before it miss the path.
abbrev pub Stumbles : String → List String → Type 0
Stumbles path [] = ⊥
Stumbles path (glob ∷ globs) =
    (glob_to_regexp glob ≡ none) ⊎ (Misses path glob × Stumbles path globs)

-- At some path the search stumbles, and all paths before it are unprotected.
abbrev pub Halts : ProtectedPathsPolicy → List String → Type 0
Halts policy [] = ⊥
Halts policy (path ∷ paths) =
    Stumbles path (globs_of (classes_of policy)) ⊎ (IsUnprotected policy path × Halts policy paths)

module _ (path : String) where
  -- how a glob is met
  glob_cases :
      (glob : String)
      → (glob_to_regexp glob ≡ none)
        ⊎ (Misses path glob
            ⊎ ((regexp : List Piece) × (glob_to_regexp glob ≡ some regexp)
                × (test regexp path ≡ true)))
  glob_cases glob = elim (Option-cases (glob_to_regexp glob)) [
    | inl bad ↦ inl bad
    | inr (regexp, good) ↦ elim (Bool-cases (test regexp path)) [
      | inl hit ↦ inr (inr (regexp, good, hit))
      | inr miss ↦ inr (inl (regexp, good, miss))
    ]
  ]

  -- the search through one class, and what follows it
  abbrev searched :
      List String
      → List ProtectedPathClass
      → ProtectedPathClass
      → Option (Option ProtectedPathClass)
  searched globs entries entry = some_glob path globs >>= λ hit.
      let rest = first_class path entries in if hit then some (some entry) else rest

  searched-none_iff :
      (globs : List String) (entries : List ProtectedPathClass) (entry : ProtectedPathClass)
      → (first_class path entries ≡ none) ↔ Stumbles path (globs_of entries)
      → (searched globs entries entry ≡ none) ↔ Stumbles path (globs ++ globs_of entries)
  unfolding some_glob
  searched-none_iff [] entries entry after = after
  searched-none_iff (glob ∷ globs) entries entry after =
      let rest = searched-none_iff globs entries entry after in
      elim (glob_cases glob) [
        | inl bad ↦ ((λ h. inl bad), (λ h. rw bad refl))
        | inr (inl (regexp, good, miss)) ↦
            rw (good, miss)
              (
                (λ h. inr ((regexp, refl, miss), rest.0 h)),
                (λ h. elim h [
                  | inl bad ↦ absurd (ground arith)
                  | inr stumbles ↦ rest.1 stumbles.1
                ]),
              )
        | inr (inr (regexp, good, hit)) ↦
            rw (good, hit)
              (
                (λ h. absurd (ground arith)),
                (λ h. elim h [
                  | inl bad ↦ absurd (ground arith)
                  | inr ((other, same, miss), _) ↦
                      let equal = some_inj.0 same in
                      absurd (ground (arith, ap (λ r. test r path) equal))
                ]),
              )
      ]

  first_class-none_iff :
      (entries : List ProtectedPathClass)
      → (first_class path entries ≡ none) ↔ Stumbles path (globs_of entries)
  unfolding first_class
  first_class-none_iff [] = ((λ h. absurd (ground arith)), (λ h. absurd h))
  first_class-none_iff (entry ∷ entries) =
      searched-none_iff (or_else entry.paths []) entries entry (first_class-none_iff entries)

protected_path_decision-none_iff :
    (policy : ProtectedPathsPolicy) (paths : List String)
    → (protected_path_decision paths policy ≡ none) ↔ Halts policy paths
unfolding protected_path_decision
protected_path_decision-none_iff policy [] = ((λ h. absurd (ground arith)), (λ h. absurd h))
protected_path_decision-none_iff policy (path ∷ paths) =
    let rest = protected_path_decision-none_iff policy paths in
    let here : (protected_path_class_for path policy ≡ none)
        ↔ Stumbles path (globs_of (classes_of policy)) =
      unfold protected_path_class_for in first_class-none_iff path (classes_of policy) in
    elim (match_cases (protected_path_class_for path policy)) [
      | inl bad ↦ ((λ h. inl (here.0 bad)), (λ h. rw bad refl))
      | inr (inl miss) ↦ (
        (λ h. inr (miss, rest.0 (ground arith))),
        (λ h. elim h [
          | inl stumbles ↦ let bad = here.1 stumbles in absurd (ground arith)
          | inr later ↦ let failed = rest.1 later.1 in ground arith
        ]),
      )
      | inr (inr (c, hit)) ↦ (
        (λ h. absurd (ground arith)),
        (λ h. elim h [
          | inl stumbles ↦ let bad = here.1 stumbles in absurd (ground arith)
          | inr later ↦ let miss = later.0 in absurd (ground arith)
        ]),
      )
    ]

-- No permission policy is given, and its file cannot be read.
abbrev pub LacksPermissionPolicy : Surroundings → WriteInput → Type 0
LacksPermissionPolicy around input =
    (input.permission_policy_camel ≡ none)
    × (input.permission_policy ≡ none)
    × (input.policy ≡ none)
    × (around.files.permission_policy ≡ malformed)

-- No policy of protected paths is given, and its file cannot be read.
abbrev pub LacksProtectedPolicy : Surroundings → WriteInput → Type 0
LacksProtectedPolicy around input =
    (input.protected_paths_policy_camel ≡ none)
    × (input.protected_paths_policy ≡ none)
    × (around.files.protected_paths ≡ malformed)

permission_policy_of-none_iff :
    (around : Surroundings) (input : WriteInput)
    → (permission_policy_of around input ≡ none) ↔ LacksPermissionPolicy around input
unfolding permission_policy_of load_permission_policy
permission_policy_of-none_iff around input = ground arith

protected_policy_of-none_iff :
    (around : Surroundings) (input : WriteInput)
    → (protected_policy_of around input ≡ none) ↔ LacksProtectedPolicy around input
unfolding protected_policy_of load_protected_paths_policy
protected_policy_of-none_iff around input = ground arith

-- Behind the policies only the decision about the paths may throw.
decide_write-paths_iff :
    (around : Surroundings) (input : WriteInput) (policy : PermissionPolicy)
    (paths_policy : ProtectedPathsPolicy)
    → permission_policy_of around input ≡ some policy
    → protected_policy_of around input ≡ some paths_policy
    → (decide_write around input ≡ none)
      ↔ (protected_path_decision (changed_paths_of input) paths_policy ≡ none)
unfolding decide_write
decide_write-paths_iff around input policy paths_policy read found =
    elim (Option-cases (protected_path_decision (changed_paths_of input) paths_policy)) [
      | inl bad ↦ ((λ h. bad), (λ h. rw (read, found, bad) refl))
      | inr (path, good) ↦ (
        (λ h. absurd (cc (rw (read, found, good, decide_write) at h))),
        (λ h. absurd (cc (good, h))),
      )
    ]

-- `decideWrite` throws exactly if no permission policy is given and its file cannot be read, or the
-- same holds of the policy of protected paths, or if, of the policy of protected paths that is read, at
-- some changed path behind unprotected ones a glob is no regular expression, and no glob before it
-- matches that path.
pub decide_write-throws_iff :
    (around : Surroundings) (input : WriteInput)
    → (decide_write around input ≡ none) ↔ (
        LacksPermissionPolicy around input
        ⊎ (LacksProtectedPolicy around input
            ⊎ ((policy : ProtectedPathsPolicy) × (protected_policy_of around input ≡ some policy)
                × Halts policy (changed_paths_of input))))
unfolding decide_write
decide_write-throws_iff around input =
    let permission = permission_policy_of-none_iff around input in
    let protected = protected_policy_of-none_iff around input in
    elim (Option-cases (permission_policy_of around input)) [
      | inl gone ↦ ((λ h. inl (permission.0 gone)), (λ h. rw gone refl))
      | inr (policy, read) ↦ elim (Option-cases (protected_policy_of around input)) [
        | inl gone ↦ ((λ h. inr (inl (protected.0 gone))), (λ h. rw (read, gone) refl))
        | inr (paths_policy, found) ↦
            let halts = protected_path_decision-none_iff paths_policy (changed_paths_of input) in
            let thrown = decide_write-paths_iff around input policy paths_policy read found in
            (
              (λ h. inr (inr (paths_policy, found, halts.0 (thrown.0 h)))),
              (λ h. elim h [
                | inl lacks ↦ let gone = permission.1 lacks in absurd (cc (read, gone))
                | inr (inl lacks) ↦ let gone = protected.1 lacks in absurd (cc (found, gone))
                | inr (inr (other, same, halted)) ↦
                    let equal = some_inj.0 (sym same ∙ found) in
                    thrown.1 (halts.1 (subst (λ p. Halts p (changed_paths_of input)) equal halted))
              ]),
            )
      ]
    ]
