-- ===== src/Permissions/Protected.antt =====
-- The paths that the default policy of app/permissions.ts protects.
use admissorium.Prelude.{
  code, String, ◌≡◌, refl, Bool, true, false, not, ◌&&◌, Option, none, some, List, [], ◌∷◌, arith,
  All, All-mem, nat_eq, if◌then◌else◌,
}
use admissorium.Text.{◌⧺◌}
use admissorium.Js.{or_else}
use admissorium.Fallible.{◌>>=◌, >>=-eq-some}
use admissorium.Permissions.Glob.{Piece, one, many, lit, dot, glob_to_regexp, test, is_line_end}
use admissorium.Permissions.Policy.{
  ProtectedPathClass, empty_protected_paths_policy, with_protected_path_defaults, canonical_id,
  normalize_protected_class,
}
use admissorium.Permissions.Decision.{some_glob, first_class, protected_path_class_for}
use mathlib.Core.List.{Memᴰ}
use text.Mathlib.TextLemmas.{nil-append, cons-append}

-- no end of line in the text
abbrev pub is_one_line : String → Bool
is_one_line String.[] = true
is_one_line (String.◌∷◌ c s) = not (is_line_end (code c)) && is_one_line s

is_one_line-append : (p s : String) → is_one_line (p ⧺ s) ≡ (is_one_line p && is_one_line s)
is_one_line-append String.[] s = rw nil-append
is_one_line-append (String.◌∷◌ c p) s = rw cons-append (ground (arith, is_one_line-append p s))

test-many_dot : (s : String) → test (many dot ∷ []) s ≡ is_one_line s
unfolding test
test-many_dot String.[] = refl
test-many_dot (String.◌∷◌ c s) = ground (arith, test-many_dot s)

-- A test of a path of which only a beginning is known, and whether the rest is one line; `none`
-- where that does not decide.
module _ (one_line : Bool) where
  test_prefix : List Piece → String → Option Bool
  test_prefix (many dot ∷ []) p = some (is_one_line p && one_line)
  test_prefix (one (lit d) ∷ ps) (String.◌∷◌ c p) =
      let rest = test_prefix ps p in if nat_eq (code c) (code d) then rest else some false
  test_prefix _ _ = none

  some_glob_prefix : String → List String → Option Bool
  some_glob_prefix p [] = some false
  some_glob_prefix p (glob ∷ globs) = do
    regexp ← glob_to_regexp glob
    hit ← test_prefix regexp p
    let rest = some_glob_prefix p globs
    if hit then some true else rest

  first_class_prefix : String → List ProtectedPathClass → Option (Option ProtectedPathClass)
  first_class_prefix p [] = some none
  first_class_prefix p (entry ∷ entries) = do
    hit ← some_glob_prefix p (or_else entry.paths [])
    let rest = first_class_prefix p entries
    if hit then some (some entry) else rest

module _ (rest : String) where
  test_prefix_sound :
      (ps : List Piece) (p : String) {b : Bool}
      → test_prefix (is_one_line rest) ps p ≡ some b
      → test ps (p ⧺ rest) ≡ b
  unfolding test_prefix test
  test_prefix_sound (many dot ∷ []) p e = rw (test-many_dot, is_one_line-append) (ground arith)
  test_prefix_sound (one (lit d) ∷ ps) (String.◌∷◌ c p) {b} e =
      rw cons-append (ground (arith, test_prefix_sound ps p {b = b}))
  test_prefix_sound _ _ e = cc

  some_glob_prefix_sound :
      (p : String) (globs : List String) {b : Bool}
      → some_glob_prefix (is_one_line rest) p globs ≡ some b
      → some_glob (p ⧺ rest) globs ≡ some b
  unfolding some_glob_prefix some_glob
  some_glob_prefix_sound p [] e = e
  some_glob_prefix_sound p (glob ∷ globs) {b} e =
      let (regexp, compiled, e') = >>=-eq-some (glob_to_regexp glob) _ e in
      let (hit, tested, e'') = >>=-eq-some (test_prefix (is_one_line rest) regexp p) _ e' in
      rw (compiled, test_prefix_sound regexp p tested)
        (ground (arith, some_glob_prefix_sound p globs {b = b}))

  first_class_prefix_sound :
      (p : String) (entries : List ProtectedPathClass) {c : Option ProtectedPathClass}
      → first_class_prefix (is_one_line rest) p entries ≡ some c
      → first_class (p ⧺ rest) entries ≡ some c
  unfolding first_class_prefix first_class
  first_class_prefix_sound p [] e = e
  first_class_prefix_sound p (entry ∷ entries) {c} e =
      let (hit, tested, e') =
        >>=-eq-some (some_glob_prefix (is_one_line rest) p (or_else entry.paths [])) _ e in
      rw (some_glob_prefix_sound p (or_else entry.paths []) tested)
        (ground (arith, first_class_prefix_sound p entries {c = c}))

-- The directories of the default policy, each with the id of its class after renaming.
abbrev pub protected_directories : List (String × String)
protected_directories =
    ("law/", "constitutional-law")
    ∷ ("laws/", "constitutional-law")
    ∷ ("freeze/", "freeze")
    ∷ ("freezes/", "freeze")
    ∷ ("current/", "accepted-state")
    ∷ ("epochs/current/", "accepted-state")
    ∷ ("state/current/", "accepted-state")
    ∷ ("authorities/current/", "authority")
    ∷ ("receipts/current/", "execution-receipts")
    ∷ ("verification/results/current/", "verification-results")
    ∷ ("recognitions/current/", "terminal-recognition")
    ∷ ("recourse/current/", "terminal-recourse")
    ∷ ("recourses/current/", "terminal-recourse")
    ∷ ("claims/current/", "claims")
    ∷ ("continuity/current/", "continuity-transfer")
    ∷ ("transfer/current/", "continuity-transfer")
    ∷ []

default_entries : List ProtectedPathClass
unfolding with_protected_path_defaults
default_entries =
    or_else (with_protected_path_defaults empty_protected_paths_policy).protected_classes []

abbrev id_of : Option (Option ProtectedPathClass) → Option (Option String)
id_of none = none
id_of (some none) = some none
id_of (some (some c)) = some c.id

pub record IsDirectoryOf (directory rest id : String) : Type 0 where
  pub protects :
      is_one_line rest ≡ true
      → (c : ProtectedPathClass) × (protected_path_class_for
            (directory ⧺ rest)
            empty_protected_paths_policy
          ≡ some (some c))
        × (c.id ≡ some id)
  pub misses :
      is_one_line rest ≡ false
      → protected_path_class_for (directory ⧺ rest) empty_protected_paths_policy ≡ some none

abbrev IsDecided : String × String → Type 0
IsDecided entry =
    (id_of (first_class_prefix true entry.0 default_entries) ≡ some (some entry.1))
    × (first_class_prefix false entry.0 default_entries ≡ some none)

-- by evaluation, for both kinds of rest
directory_table : All IsDecided protected_directories
unfolding first_class_prefix some_glob_prefix test_prefix glob_to_regexp default_entries
    canonical_id normalize_protected_class
directory_table = (
  (refl, refl),
  (
    (refl, refl),
    (
      (refl, refl),
      (
        (refl, refl),
        (
          (refl, refl),
          (
            (refl, refl),
            (
              (refl, refl),
              (
                (refl, refl),
                (
                  (refl, refl),
                  (
                    (refl, refl),
                    (
                      (refl, refl),
                      (
                        (refl, refl),
                        ((refl, refl), ((refl, refl), ((refl, refl), ((refl, refl), tt)))),
                      ),
                    ),
                  ),
                ),
              ),
            ),
          ),
        ),
      ),
    ),
  ),
)

id_cases :
    (o : Option (Option ProtectedPathClass)) (id : String)
    → id_of o ≡ some (some id)
    → (c : ProtectedPathClass) × (o ≡ some (some c)) × (c.id ≡ some id)
id_cases none id e = cc
id_cases (some none) id e = cc
id_cases (some (some c)) id e = (c, refl, cc)

-- Under each directory of the default policy, a path whose rest holds no end of line belongs to the
-- directory's class; a path whose rest holds one belongs to no class at all.
pub protected_directories-IsDirectoryOf :
    (directory id rest : String)
    → Memᴰ (directory, id) protected_directories
    → IsDirectoryOf directory rest id
unfolding protected_path_class_for default_entries
protected_directories-IsDirectoryOf directory id rest m =
    let (hit, miss) = All-mem IsDecided m directory_table in
    record {
      protects = λ one.
          let (c, found, same) = id_cases _ id hit in
          (c, first_class_prefix_sound rest directory default_entries (rw one found), same);
      misses = λ more. first_class_prefix_sound rest directory default_entries (rw more miss);
    }
