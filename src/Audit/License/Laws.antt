-- ===== src/Audit/License/Laws.antt =====
-- What invariants/license-consistency.ts finds.
use admissorium.Prelude.{
  Char, String, ◌≡◌, refl, ◌↔◌, true, false, Option, none, some, [], All, arith, Bool-cases, inl,
  inr,
}
use admissorium.Text.{is_empty}
use admissorium.Report.{yellow}
use admissorium.Audit.License.{
  shows_license, is_misworded, license_text_findings, license_consistency_invariant,
}

-- The license text is there and shows the license, and the README does not name another one.
pub record IsLicensed (canonical : Char → String) (repo : String) (license readme : Option String)
    (expected : String) : Type 0 where
  pub text : String
  pub present : license ≡ some text
  pub filled : is_empty text ≡ false
  pub shown : shows_license canonical expected text ≡ true
  pub worded : is_misworded repo readme expected ≡ false

license_text_findings-nil_iff :
    (canonical : Char → String) (repo text expected : String) (readme : Option String)
    (source_of_truth : String)
    → (license_text_findings canonical repo text expected readme source_of_truth ≡ []) ↔ (
        (shows_license canonical expected text ≡ true)
        × (is_misworded repo readme expected ≡ false))
unfolding license_text_findings
license_text_findings-nil_iff canonical repo text expected readme source_of_truth = ground arith

-- Nothing is found exactly if the license text is there and shows the license, and the README does not
-- name another one.
pub license_consistency_invariant-nil_iff :
    (canonical : Char → String) (repo : String) (license readme : Option String)
    (expected source_of_truth : String)
    → (license_consistency_invariant canonical repo license readme expected source_of_truth ≡ [])
      ↔ IsLicensed canonical repo license readme expected
unfolding license_consistency_invariant
license_consistency_invariant-nil_iff canonical repo none readme expected source_of_truth =
    ((λ h. absurd (ground arith)), (λ h. let e = h.present in absurd (ground arith)))
license_consistency_invariant-nil_iff canonical repo (some text) readme expected source_of_truth =
    let iff = license_text_findings-nil_iff canonical repo text expected readme source_of_truth in
    (
      (λ h.
          let filled : is_empty text ≡ false = ground arith in
          let (shown, worded) = iff.0 (ground arith) in
          record { text = text; present = refl; filled = filled; shown = shown; worded = worded }),
      (λ h.
          let same : text ≡ h.text = ground (arith, h.present) in
          rw (same, h.filled)
            ((license_text_findings-nil_iff canonical repo h.text expected readme source_of_truth).1
              (h.shown, h.worded))),
    )

-- Whatever is found is yellow, and may be repaired without review.
pub license_consistency_invariant-yellow :
    (canonical : Char → String) (repo : String) (license readme : Option String)
    (expected source_of_truth : String)
    → All
        (λ finding. (finding.severity ≡ yellow) × (finding.autofix_allowed ≡ true))
        (license_consistency_invariant canonical repo license readme expected source_of_truth)
unfolding license_consistency_invariant license_text_findings
license_consistency_invariant-yellow canonical repo none readme expected source_of_truth =
    ((refl, refl), tt)
license_consistency_invariant-yellow canonical repo (some text) readme expected source_of_truth =
    elim (Bool-cases (is_empty text)) [
      | inl empty ↦ rw empty ((refl, refl), tt)
      | inr filled ↦ elim (Bool-cases (shows_license canonical expected text)) [
        | inl shown ↦ elim (Bool-cases (is_misworded repo readme expected)) [
          | inl bad ↦ rw (filled, shown, bad) ((refl, refl), tt)
          | inr good ↦ rw (filled, shown, good) tt
        ]
        | inr hidden ↦ elim (Bool-cases (is_misworded repo readme expected)) [
          | inl bad ↦ rw (filled, hidden, bad) ((refl, refl), ((refl, refl), tt))
          | inr good ↦ rw (filled, hidden, good) ((refl, refl), tt)
        ]
      ]
    ]
