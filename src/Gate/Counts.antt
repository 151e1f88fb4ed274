-- ===== src/Gate/Counts.antt =====
-- src/admission/assert-admission-count-convergence.ts: the counts that a projection shows are those of
-- the admissions. The severities RED and YELLOW are the statuses red and yellow of Gate; counts are
-- natural numbers, and an object of counts is the list of its entries.
pub mod Laws
use admissorium.Prelude.{
  is_some, ℕ, Char, String, ◌==◌, Bool, true, false, not, ◌&&◌, ◌||◌, Option, none, some, List, [],
  ◌∷◌, ◌++◌, map, code, nat_eq, if◌then◌else◌,
}
use Prim.Native.String
use admissorium.Text.{◌⧺◌, is_empty, is_blank, strip_word, skip_blanks, to_upper_case, print_count}
use admissorium.Gate.{Finding, Check, red_if, yellow_if, findings_of}
use admissorium.Gate.Epoch.{Counts, Admissions, count_of, is_count}
use admissorium.Audit.License.{contains_any_case}

pub record ProjectionCounts : Type 0 where
  pub counts : Counts
  pub label : Option String

module _ (canonical : Char → String) where
  -- `\s+live`
  abbrev pub blank_live : String → Bool
  blank_live String.[] = false
  blank_live (String.◌∷◌ c s) =
      is_blank (code c) && is_some (strip_word canonical "live" (skip_blanks s))

  -- `s?\s+live`; an `s` is no blank
  abbrev pub plural_live : String → Bool
  plural_live s = elim (strip_word canonical "s" s) [
    | some rest ↦ blank_live rest
    | none ↦ blank_live s
  ]

  -- `repos?\s+live`
  abbrev pub starts_repos_live : String → Bool
  starts_repos_live s = elim (strip_word canonical "repo" s) [
    | some rest ↦ plural_live rest
    | none ↦ false
  ]

  unfoldable pub has_repos_live : String → Bool
  has_repos_live String.[] = false
  has_repos_live (String.◌∷◌ c s) = starts_repos_live (String.◌∷◌ c s) || has_repos_live s

  -- `/repos?\s+live|repositories/i.test(label)`
  unfoldable pub speaks_of_repositories : String → Bool
  speaks_of_repositories label =
      has_repos_live label || contains_any_case canonical label "repositories"

-- `a === b` on counts that may be missing
abbrev pub same_count : Option ℕ → Option ℕ → Bool
same_count none none = true
same_count none (some n) = false
same_count (some m) o = is_count o m

abbrev pub is_missing : Option ℕ → Bool
is_missing none = true
is_missing (some n) = false

-- `projection.label && ...`
abbrev pub labelled : (Char → String) → Option String → Bool
labelled canonical none = false
labelled canonical (some label) = not (is_empty label) && speaks_of_repositories canonical label

abbrev pub projected_checks : (Char → String) → String × ℕ → Option ℕ → List Check
projected_checks capitals (key, accepted) none = []
projected_checks capitals (key, accepted) (some projected) =
    red_if (not (nat_eq projected accepted)) ("COUNT_MISMATCH_" ⧺ to_upper_case capitals key) (
      "Projection count "
      ⧺ key
      ⧺ "="
      ⧺ print_count projected
      ⧺ " does not match admission count "
      ⧺ print_count accepted
      ⧺ ".")
    ∷ []

abbrev pub count_checks : (Char → String) → (policy shown : Counts) → List Check
count_checks capitals [] shown = []
count_checks capitals ((key, accepted) ∷ policy) shown =
    projected_checks capitals (key, accepted) (count_of shown key)
    ++ count_checks capitals policy shown

-- whether the label takes the public repositories for the governed ones
abbrev pub collapses : (canonical : Char → String) → Admissions → ProjectionCounts → Bool
collapses canonical admissions projection =
    labelled canonical projection.label
    && same_count (count_of projection.counts "public_repository_count")
        (count_of admissions.count_policy "public_repository_count")
    && is_missing (count_of projection.counts "governed_repository_count")

abbrev pub status_checks : Admissions → List Check
status_checks admissions =
    red_if (not (admissions.status == "ACTIVE_TRUTH")) "ADMISSIONS_NOT_ACTIVE_TRUTH"
      "Admissions object must be ACTIVE_TRUTH."
    ∷ []

abbrev pub label_checks : (canonical : Char → String) → Admissions → ProjectionCounts → List Check
label_checks canonical admissions projection =
    yellow_if (collapses canonical admissions projection)
      "REPOSITORY_LABEL_COLLAPSES_PUBLIC_AND_GOVERNED"
      "Projection says repositories/repos without distinguishing public repositories from governed repositories."
    ∷ []

-- `assertAdmissionCountConvergence`
unfoldable pub assert_admission_count_convergence :
    (capitals canonical : Char → String) → Admissions → ProjectionCounts → List Finding
assert_admission_count_convergence capitals canonical admissions projection = findings_of (
    status_checks admissions
    ++ count_checks capitals admissions.count_policy projection.counts
    ++ label_checks canonical admissions projection)
