-- ===== src/Plan/Quarantine/Laws.antt =====
-- When app/quarantine-issue-plan.ts asks for an issue.
use mathlib.Core.List.{Memᴰ}
use admissorium.Prelude.{
  select, ◌≡◌, sym, ap, ◌∙◌, refl, ◌↔◌, ◌⊎◌, inl, inr, true, List, [], ◌∷◌, arith, Bool-cases,
  length, ltb, ◌<◌,
}
use admissorium.Report.{Finding}
use admissorium.Plan.{Printer}
use admissorium.Plan.Quarantine.{
  QuarantinePlanInput, mentions_quarantine, quarantine_relevant_findings, build_quarantine_plan,
}

-- A finding that passes the test, and where it stands.
pub record Mention (printer : Printer) (findings : List Finding) : Type 0 where
  pub finding : Finding
  pub listed : Memᴰ finding findings
  pub mentions : mentions_quarantine printer finding ≡ true

select-Mention :
    (printer : Printer) (findings : List Finding)
    → ltb 0 (length (select (mentions_quarantine printer) findings)) ≡ true
    → Mention printer findings
select-Mention printer [] h = absurd (ground arith)
select-Mention printer (f ∷ fs) h = elim (Bool-cases (mentions_quarantine printer f)) [
  | inl hit ↦ record { finding = f; listed = Memᴰ.head refl; mentions = hit }
  | inr miss ↦
      let m = select-Mention printer fs (ground arith) in
      record { finding = m.finding; listed = Memᴰ.tail m.listed; mentions = m.mentions }
]

Mention-select :
    (printer : Printer) (f : Finding) (findings : List Finding)
    → Memᴰ f findings
    → mentions_quarantine printer f ≡ true
    → ltb 0 (length (select (mentions_quarantine printer) findings)) ≡ true
Mention-select printer f [] m h = elim m [ ]
Mention-select printer f (g ∷ gs) (Memᴰ.head e) h =
    let here = ap (mentions_quarantine printer) (sym e) ∙ h in rw here (ground arith)
Mention-select printer f (g ∷ gs) (Memᴰ.tail m) h =
    let rest = Mention-select printer f gs m h in ground arith

-- An issue is asked for exactly if the report counts a quarantine or a finding mentions it.
pub build_quarantine_plan-required_iff :
    (printer : Printer) (input : QuarantinePlanInput)
    → ((build_quarantine_plan printer input).required ≡ true)
      ↔ ((0 < input.report.quarantine_count) ⊎ Mention printer input.report.findings)
unfolding build_quarantine_plan quarantine_relevant_findings
build_quarantine_plan-required_iff printer input =
    let found = select-Mention printer input.report.findings in
    let kept = λ (m : Mention printer input.report.findings).
      Mention-select printer m.finding input.report.findings m.listed m.mentions in
    elim (Bool-cases (ltb 0 input.report.quarantine_count)) [
      | inl counted ↦
          let positive : 0 < input.report.quarantine_count = ground arith in
          ((λ h. inl positive), (λ h. ground arith))
      | inr none_counted ↦ rw none_counted (ground (arith, found, kept))
    ]
