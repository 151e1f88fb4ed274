-- ===== src/Audit/Perimeter/Laws.antt =====
-- When invariants/repo-perimeter.ts is content.
use mathlib.Core.List.{Memᴰ}
use admissorium.Prelude.{
  is_nil, String, ◌≡◌, ◌↔◌, true, false, not, ◌&&◌, List, [], ◌∷◌, select-nil_iff, includes,
  All-mem, All-each, includes-mem, mem-includes, arith,
}
use admissorium.Audit.Perimeter.{lacking, repo_perimeter_invariant}

-- Every element of the first list stands in the second.
abbrev pub Within : List String → List String → Type 0
Within xs ys = (s : String) → Memᴰ s xs → Memᴰ s ys

-- Two lists hold the same elements, whatever their order and how often.
abbrev pub SameElements : List String → List String → Type 0
SameElements xs ys = Within xs ys × Within ys xs

pub lacking-nil_iff :
    (wanted present : List String) → (lacking wanted present ≡ []) ↔ Within wanted present
lacking-nil_iff wanted present =
    let nil = select-nil_iff (λ repo. not (includes present repo)) wanted in
    (
      (λ h s m.
          let found = All-mem (λ repo. not (includes present repo) ≡ false) m (nil.0 h) in
          includes-mem present s (ground arith)),
      (λ within. nil.1 (
          All-each (λ repo. not (includes present repo) ≡ false) wanted
            (λ s m. let found = mem-includes present s (within s m) in ground arith))),
    )

pub is_nil_iff {ℓ} : {A : Type ℓ} (xs : List A) → (is_nil xs ≡ true) ↔ (xs ≡ [])
is_nil_iff [] = ground arith
is_nil_iff (x ∷ xs) = ground arith

-- Neither list lacks anything of the other exactly if they hold the same elements.
pub no_difference_iff :
    (xs ys : List String)
    → ((is_nil (lacking xs ys) && is_nil (lacking ys xs)) ≡ true) ↔ SameElements xs ys
no_difference_iff xs ys =
    let missing = lacking-nil_iff xs ys in
    let extra = lacking-nil_iff ys xs in
    let no_missing = is_nil_iff (lacking xs ys) in
    let no_extra = is_nil_iff (lacking ys xs) in
    (
      (λ h. (missing.0 (no_missing.0 (ground arith)), extra.0 (no_extra.0 (ground arith)))),
      (λ h. rw (no_missing.1 (missing.1 h.0), no_extra.1 (extra.1 h.1))),
    )

-- Nothing is found exactly if the governed repositories and those that are checked out are the same
-- set.
pub repo_perimeter_invariant-nil_iff :
    (expected observed : List String)
    → (repo_perimeter_invariant expected observed ≡ []) ↔ SameElements expected observed
unfolding repo_perimeter_invariant
repo_perimeter_invariant-nil_iff expected observed =
    let same = no_difference_iff expected observed in
    ((λ h. same.0 (ground arith)), (λ h. rw (same.1 h)))
