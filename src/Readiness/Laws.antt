-- ===== src/Readiness/Laws.antt =====
-- When no criterion of a list fails.
use admissorium.Prelude.{◌≡◌, refl, ◌↔◌, List, [], ◌∷◌, All, inl, inr, arith, ◌⊎◌}
use admissorium.Readiness.{Outcome, pass, fail, failed_count}

module _ {A : Type 0} (status : A → Outcome) where
  pub failed_count-zero_iff :
      (items : List A) → (failed_count status items ≡ 0) ↔ All (λ item. status item ≡ pass) items
  failed_count-zero_iff [] = ((λ h. tt), (λ h. refl))
  failed_count-zero_iff (item ∷ items) =
      let rest = failed_count-zero_iff items in
      elim (outcome_cases (status item)) [
        | inl good ↦ rw good ((λ h. (refl, rest.0 h)), (λ h. rest.1 h.1))
        | inr bad ↦ rw bad ((λ h. absurd (ground arith)), (λ h. absurd (ground (arith, h.0))))
      ]
    where
      outcome_cases : (o : Outcome) → (o ≡ pass) ⊎ (o ≡ fail)
      outcome_cases pass = inl refl
      outcome_cases fail = inr refl
