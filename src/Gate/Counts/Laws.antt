-- ===== src/Gate/Counts/Laws.antt =====
-- When src/admission/assert-admission-count-convergence.ts finds nothing.
use admissorium.Prelude.{
  ℕ, Char, String, ◌≡◌, ◌↔◌, true, Option, none, some, [], ◌∷◌, ◌++◌, All, arith, Bool-cases, inl,
  inr,
}
use admissorium.Gate.Laws.{Pass, findings_of-nil_iff}
use admissorium.Gate.Demands.{Pass-both}
use admissorium.Gate.ClaimClass.Laws.{not_says_iff}
use admissorium.Gate.Epoch.{Counts, Admissions, count_of}
use admissorium.Gate.Counts.{
  ProjectionCounts, same_count, is_missing, labelled, projected_checks, count_checks, collapses,
  status_checks, label_checks, assert_admission_count_convergence,
}

-- A count is shown as it is accepted, or not at all.
abbrev pub Agrees : Option ℕ → ℕ → Type 0
Agrees none accepted = Unit
Agrees (some projected) accepted = projected ≡ accepted

-- The label speaks of repositories, and only their public number is shown, which is that of the
-- admissions.
pub record Collapses (canonical : Char → String) (admissions : Admissions)
    (projection : ProjectionCounts) : Type 0 where
  pub speaks : labelled canonical projection.label ≡ true
  pub public :
      count_of projection.counts "public_repository_count"
      ≡ count_of admissions.count_policy "public_repository_count"
  pub no_governed : count_of projection.counts "governed_repository_count" ≡ none

projected_checks_iff :
    (capitals : Char → String) (entry : String × ℕ) (o : Option ℕ)
    → Pass (projected_checks capitals entry o) ↔ Agrees o entry.1
projected_checks_iff capitals (key, accepted) none = ((λ h. tt), (λ h. tt))
projected_checks_iff capitals (key, accepted) (some projected) =
    ((λ h. let same = h.0 in ground arith), (λ h. (ground arith, tt)))

count_checks_iff :
    (capitals : Char → String) (policy shown : Counts)
    → Pass (count_checks capitals policy shown)
      ↔ All (λ (entry : String × ℕ). Agrees (count_of shown entry.0) entry.1) policy
count_checks_iff capitals [] shown = ((λ h. tt), (λ h. tt))
count_checks_iff capitals ((key, accepted) ∷ policy) shown =
    Pass-both _ (count_checks capitals policy shown)
      (projected_checks_iff capitals (key, accepted) (count_of shown key))
      (count_checks_iff capitals policy shown)

same_count_iff : (a b : Option ℕ) → (same_count a b ≡ true) ↔ (a ≡ b)
same_count_iff none none = ground arith
same_count_iff none (some n) = ground arith
same_count_iff (some m) none = ground arith
same_count_iff (some m) (some n) = ground arith

is_missing_iff : (o : Option ℕ) → (is_missing o ≡ true) ↔ (o ≡ none)
is_missing_iff none = ground arith
is_missing_iff (some n) = ground arith

collapses_iff :
    (canonical : Char → String) (admissions : Admissions) (projection : ProjectionCounts)
    → (collapses canonical admissions projection ≡ true) ↔ Collapses canonical admissions projection
collapses_iff canonical admissions projection =
    let same =
      same_count_iff (count_of projection.counts "public_repository_count")
        (count_of admissions.count_policy "public_repository_count") in
    let missing = is_missing_iff (count_of projection.counts "governed_repository_count") in
    (
      (λ h.
          let speaks : labelled canonical projection.label ≡ true = ground arith in
          record {
            speaks = speaks;
            public = same.0 (ground arith);
            no_governed = missing.0 (ground arith);
          }),
      (λ c.
          let a = c.speaks in
          let b = same.1 c.public in let d = missing.1 c.no_governed in rw (a, b, d)),
    )

-- Nothing is found exactly if the admissions are active, every count that the projection shows of
-- their policy is theirs, and it is not so that the projection's label speaks of repositories while it
-- shows only their public number, which is that of the admissions.
pub assert_admission_count_convergence-nil_iff :
    (capitals canonical : Char → String) (admissions : Admissions) (projection : ProjectionCounts)
    → (assert_admission_count_convergence capitals canonical admissions projection ≡ []) ↔ (
        (admissions.status ≡ "ACTIVE_TRUTH")
        × All
            (λ (entry : String × ℕ). Agrees (count_of projection.counts entry.0) entry.1)
            admissions.count_policy
        × ¬ Collapses canonical admissions projection)
unfolding assert_admission_count_convergence
assert_admission_count_convergence-nil_iff capitals canonical admissions projection =
    let status = not_says_iff admissions.status "ACTIVE_TRUTH" in
    let counts = count_checks_iff capitals admissions.count_policy projection.counts in
    let collapse = collapses_iff canonical admissions projection in
    let a = status_checks admissions in
    let b = count_checks capitals admissions.count_policy projection.counts in
    let c = label_checks canonical admissions projection in
    let two = Pass-both a b ((λ h. status.0 h.0), (λ e. (status.1 e, tt))) counts in
    let whole = Pass-both (a ++ b) c two (
      (λ (h : Pass c) (k : Collapses canonical admissions projection).
          let hit = collapse.1 k in let miss = h.0 in absurd (ground arith)),
      (λ clear. elim (Bool-cases (collapses canonical admissions projection)) [
        | inl hit ↦ absurd (clear (collapse.0 hit))
        | inr miss ↦ (miss, tt)
      ]),
    ) in
    let nil = findings_of-nil_iff (a ++ b ++ c) in
    (
      (λ h. let ((s, g), clear) = whole.0 (nil.0 h) in (s, g, clear)),
      (λ h. let (s, g, clear) = h in nil.1 (whole.1 ((s, g), clear))),
    )
