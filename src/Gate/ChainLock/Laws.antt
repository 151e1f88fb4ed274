-- ===== src/Gate/ChainLock/Laws.antt =====
-- When src/admission/assert-chainlock-projection-convergence.ts finds nothing.
use admissorium.Prelude.{
  not, ◌==◌, nat_eq, ℕ, suc, String, ◌≡◌, refl, ap, ap₂, ◌↔◌, true, Option, none, some, List, [],
  ◌∷◌, ◌++◌, map, length, All, includes-mem, mem-includes, starts_with, arith, All-each, All-mem,
}
use mathlib.Core.List.{Memᴰ}
use admissorium.Gate.Laws.{Pass, findings_of-nil_iff, or_false_iff}
use admissorium.Gate.Demands.{Pass-both, Pass-each}
use admissorium.Gate.ClaimClass.{ChainLink, ChainLock}
use admissorium.Gate.ClaimClass.Laws.{not_says_iff}
use admissorium.Audit.Perimeter.Laws.{Within}
use admissorium.Gate.ChainLock.{
  ProjectionChain, expected_order, lock_checks, order_checks, link_checks, stage_count_checks,
  locked_refs, ref_check, ref_checks, assert_chainlock_projection_convergence,
}

-- The names with the numbers from one more than the index on.
abbrev pub numbered : ℕ → List String → List (String × ℕ)
numbered index [] = []
numbered index (name ∷ names) = (name, suc index) ∷ numbered (suc index) names

abbrev pub named_stages : List ChainLink → List (String × ℕ)
named_stages chain = map (λ (link : ChainLink). (link.claim_class, link.stage)) chain

-- Every link of the chain is active and public.
abbrev pub IsPublished : ChainLink → Type 0
IsPublished link =
    (link.status ≡ "ACTIVE_TRUTH")
    × (starts_with link.object_ref "https://github.com/Verifrax/" ≡ true)

abbrev pub Counts : Option ℕ → ChainLock → Type 0
Counts none chain_lock = Unit
Counts (some count) chain_lock = count ≡ length chain_lock.chain

abbrev pub ShowsLocked : Option (List String) → ChainLock → Type 0
ShowsLocked none chain_lock = Unit
ShowsLocked (some refs) chain_lock = Within refs (locked_refs chain_lock)

order_sound :
    (index : ℕ) (chain : List ChainLink) (expected : List String)
    → length chain ≡ length expected
    → Pass (order_checks index chain expected)
    → named_stages chain ≡ numbered index expected
order_sound index [] [] n h = refl
order_sound index [] (e ∷ es) n h = absurd (ground arith)
order_sound index (l ∷ ls) [] n h = absurd (ground arith)
order_sound index (l ∷ ls) (e ∷ es) n (here, later) =
    let (named, staged) =
      (or_false_iff (not (l.claim_class == e)) (not (nat_eq l.stage (suc index)))).0 here in
    let rest = order_sound (suc index) ls es (ground arith) later in
    let class = (not_says_iff l.claim_class e).0 named in
    let number : l.stage ≡ suc index = ground arith in
    ap₂ (λ x xs. x ∷ xs) (ap₂ (λ x y. (x, y)) class number) rest

order_complete :
    (index : ℕ) (chain : List ChainLink) (expected : List String)
    → named_stages chain ≡ numbered index expected
    → (length chain ≡ length expected) × Pass (order_checks index chain expected)
order_complete index [] [] h = (refl, tt)
order_complete index [] (e ∷ es) h = absurd (ground arith)
order_complete index (l ∷ ls) [] h = absurd (ground arith)
order_complete index (l ∷ ls) (e ∷ es) h =
    let class : l.claim_class ≡ e = ground arith in
    let number : l.stage ≡ suc index = ground arith in
    let (long, pass) = order_complete (suc index) ls es (ground arith) in
    let named = (not_says_iff l.claim_class e).1 class in
    (ap suc long, ((or_false_iff _ _).1 (named, ground arith), pass))

link_checks_iff : (chain : List ChainLink) → Pass (link_checks chain) ↔ All IsPublished chain
link_checks_iff [] = ((λ h. tt), (λ h. tt))
link_checks_iff (link ∷ chain) =
    let rest = link_checks_iff chain in
    let active = not_says_iff link.status "ACTIVE_TRUTH" in
    (
      (λ h. let (a, (p, later)) = h in ((active.0 a, ground arith), rest.0 later)),
      (λ h. let ((a, p), later) = h in (active.1 a, (ground arith, rest.1 later))),
    )

stage_count_checks_iff :
    (o : Option ℕ) (chain_lock : ChainLock)
    → Pass (stage_count_checks o chain_lock) ↔ Counts o chain_lock
unfolding stage_count_checks
stage_count_checks_iff none chain_lock = ((λ h. tt), (λ h. tt))
stage_count_checks_iff (some count) chain_lock =
    ((λ h. let same = h.0 in ground arith), (λ h. (ground arith, tt)))

ref_checks_iff :
    (o : Option (List String)) (chain_lock : ChainLock)
    → Pass (ref_checks o chain_lock) ↔ ShowsLocked o chain_lock
unfolding ref_checks
ref_checks_iff none chain_lock = ((λ h. tt), (λ h. tt))
ref_checks_iff (some refs) chain_lock =
    let locked = locked_refs chain_lock in
    let Listed = λ (ref : String). Memᴰ ref locked in
    let each =
      Pass-each (ref_check chain_lock) Listed
        (λ ref.
          let to = includes-mem locked ref in
          let back = mem-includes locked ref in
          ((λ h. to (ground arith)), (λ m. let there = back m in ground arith)))
        refs in
    ((λ h ref m. All-mem Listed m (each.0 h)), (λ within. each.1 (All-each Listed refs within)))

-- Nothing is found exactly if the chain lock is one and active, its links are the nine stages in their
-- order and numbered from 1, each of them active and public, and a projection that states the number
-- of stages states theirs, and one that lists objects lists only those of the links.
pub assert_chainlock_projection_convergence-nil_iff :
    (chain_lock : ChainLock) (projection : ProjectionChain)
    → (assert_chainlock_projection_convergence chain_lock projection ≡ []) ↔ (
        (chain_lock.object_type ≡ "MinimumObjectChainLock")
        × (chain_lock.status ≡ "ACTIVE_TRUTH")
        × (named_stages chain_lock.chain ≡ numbered 0 expected_order)
        × All IsPublished chain_lock.chain
        × Counts projection.chain_stage_count chain_lock
        × ShowsLocked projection.chain_object_refs chain_lock)
unfolding assert_chainlock_projection_convergence
assert_chainlock_projection_convergence-nil_iff chain_lock projection =
    let a = lock_checks chain_lock in
    let b = order_checks 0 chain_lock.chain expected_order in
    let c = link_checks chain_lock.chain in
    let d = stage_count_checks projection.chain_stage_count chain_lock in
    let e = ref_checks projection.chain_object_refs chain_lock in
    let type_iff = not_says_iff chain_lock.object_type "MinimumObjectChainLock" in
    let status_iff = not_says_iff chain_lock.status "ACTIVE_TRUTH" in
    let order_iff : Pass (a ++ b) ↔ (
        (chain_lock.object_type ≡ "MinimumObjectChainLock")
        × (chain_lock.status ≡ "ACTIVE_TRUTH")
        × (named_stages chain_lock.chain ≡ numbered 0 expected_order)) =
      (
        (λ h.
            let (type, (status, (counted, ordered))) = h in
            let long : length chain_lock.chain ≡ 9 = ground arith in
            (
              type_iff.0 type,
              status_iff.0 status,
              order_sound 0 chain_lock.chain expected_order long ordered,
            )),
        (λ h.
            let (type, status, same) = h in
            let (long, ordered) = order_complete 0 chain_lock.chain expected_order same in
            (type_iff.1 type, (status_iff.1 status, (ground arith, ordered)))),
      ) in
    let three = Pass-both (a ++ b) c order_iff (link_checks_iff chain_lock.chain) in
    let four =
      Pass-both (a ++ b ++ c) d three
        (stage_count_checks_iff projection.chain_stage_count chain_lock) in
    let whole =
      Pass-both (a ++ b ++ c ++ d) e four
        (ref_checks_iff projection.chain_object_refs chain_lock) in
    let nil = findings_of-nil_iff (a ++ b ++ c ++ d ++ e) in
    (
      (λ h. let ((((t, s, o), p), n), r) = whole.0 (nil.0 h) in (t, s, o, p, n, r)),
      (λ h. let (t, s, o, p, n, r) = h in nil.1 (whole.1 ((((t, s, o), p), n), r))),
    )
