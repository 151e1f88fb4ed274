-- ===== src/Gate/Cognition/Laws.antt =====
-- What src/admission/assert-cognition-boundary-required.ts takes for green.
use admissorium.Gate.Cognition.Surfaces.{IsModest, IsForeign, cognition_surface_checks_iff}
use admissorium.Gate.Cognition.Index.{IsIndex, cognition_index_checks_iff}
use mathlib.Core.List.{Memᴰ}
use mathlib.Core.Path.{subst}
use admissorium.Prelude.{
  String, ◌≡◌, refl, sym, ◌↔◌, inl, inr, true, false, not, Option, none, some, List, [], ◌∷◌, ◌++◌,
  map, All, length, includes, arith, ◌≤◌, eq_iff, ◌==◌, Bool-cases, eq_refl, ap,
}
use admissorium.Js.{Value, Items, Fields, bool, str, arr, items, get}
use admissorium.Gate.{green}
use admissorium.Gate.Laws.{Pass, report-green_iff, Bound, WhenPresent, differs_iff, is_not_iff}
use admissorium.Gate.Demands.{Demand, says, Fulfilled, Pass-demands, Pass-each, Pass-both}
use admissorium.Gate.Cognition.{
  CognitionInput, required_allowed, required_forbidden, required_boundary_true, strings,
  string_array, fields_of, allowed_check, forbidden_check, flag_check, flag_checks, identity_checks,
  rule_checks, cognition_boundary_checks, cognition_index_checks, cognition_surface_checks,
  assert_cognition_boundary_required,
}

-- The value is an array that has this text among its items.
abbrev pub Lists : Value → String → Type 0
Lists v s = (vs : Items) × (v ≡ arr vs) × Memᴰ (str s) (items vs)

strings-mem : (s : String) (vs : List Value) → includes (strings vs) s ≡ true → Memᴰ (str s) vs
strings-mem s [] h = absurd (ground arith)
strings-mem s (str t ∷ vs) h = elim (Bool-cases (t == s)) [
  | inl same ↦ Memᴰ.head (ap str (sym ((eq_iff t s).0 same)))
  | inr other ↦ Memᴰ.tail (strings-mem s vs (ground arith))
]
strings-mem s (_ ∷ vs) h = Memᴰ.tail (strings-mem s vs h)

mem-strings : (s : String) (vs : List Value) → Memᴰ (str s) vs → includes (strings vs) s ≡ true
mem-strings s [] m = elim m [ ]
mem-strings s (v ∷ vs) (Memᴰ.head e) = head_strings v e
  where
    head_strings : (v : Value) → str s ≡ v → includes (strings (v ∷ vs)) s ≡ true
    head_strings v e = subst (λ v. includes (strings (v ∷ vs)) s ≡ true) e (rw (eq_refl s))
mem-strings s (str t ∷ vs) (Memᴰ.tail m) = let rest = mem-strings s vs m in ground arith
mem-strings s (_ ∷ vs) (Memᴰ.tail m) = mem-strings s vs m

pub Lists_iff : (v : Value) (s : String) → (not (includes (string_array v) s) ≡ false) ↔ Lists v s
Lists_iff (arr vs) s =
    let to = strings-mem s (items vs) in
    (
      (λ h. (vs, refl, to (ground arith))),
      (λ l.
          let (ws, e, m) = l in
          let listed =
            mem-strings s (items vs) (subst (λ xs. Memᴰ (str s) (items xs)) (ground arith) m) in
          ground arith),
    )
Lists_iff _ s = ((λ h. absurd (ground arith)), (λ l. let (ws, e, m) = l in absurd (ground arith)))

-- what the boundary must say of itself
abbrev pub cognition_demands : Fields → List Demand
cognition_demands boundary =
    says boundary "object_type" "CognitionBoundary"
    ∷ says boundary "object_id" "cognition-boundary-0001"
    ∷ says boundary "repo" "Verifrax/TACHYRIUM"
    ∷ says boundary "status" "ACTIVE_CURRENT_BOUNDARY"
    ∷ []

-- the rule that it must state
abbrev pub anti_overread_rule : String
anti_overread_rule =
    "Cognition may expose missing public objects; cognition may not socially patch those absences."

pub record IsBoundary (boundary : Fields) : Type 0 where
  pub identity : Fulfilled (cognition_demands boundary)
  pub allows : All (Lists (get boundary "allowed_output_classes")) required_allowed
  pub forbids : All (Lists (get boundary "forbidden_output_classes")) required_forbidden
  pub flags :
      Bound
        (fields_of (get boundary "boundary"))
        (λ flags. All (λ flag. get flags flag ≡ bool true) required_boundary_true)
  pub inputs : 6 ≤ length (string_array (get boundary "minimum_machine_deference_inputs"))
  pub rule : get boundary "anti_overread_rule" ≡ str anti_overread_rule

flag_checks_iff :
    (o : Option Fields)
    → Pass (flag_checks o)
      ↔ Bound o (λ flags. All (λ flag. get flags flag ≡ bool true) required_boundary_true)
flag_checks_iff none = ((λ h. absurd (ground arith)), (λ h. absurd (ground arith)))
flag_checks_iff (some flags) =
    let each =
      Pass-each (flag_check flags) (λ flag. get flags flag ≡ bool true)
        (λ flag. is_not_iff (get flags flag) true) required_boundary_true in
    (
      (λ h. (flags, refl, each.0 h)),
      (λ h.
          let (other, e, met) = h in
          each.1 (
            subst (λ fields. All (λ flag. get fields flag ≡ bool true) required_boundary_true)
              (ground arith) met)),
    )

rule_checks_iff :
    (boundary : Fields)
    → Pass (rule_checks boundary) ↔ (
        (6 ≤ length (string_array (get boundary "minimum_machine_deference_inputs")))
        × (get boundary "anti_overread_rule" ≡ str anti_overread_rule))
rule_checks_iff boundary =
    let rule = differs_iff (get boundary "anti_overread_rule") anti_overread_rule in
    (
      (λ h. let (few, (drift, _)) = h in (ground arith, rule.0 drift)),
      (λ h. let (enough, stated) = h in (ground arith, (rule.1 stated, tt))),
    )

present-IsBoundary_iff :
    (boundary : Fields) → Pass (cognition_boundary_checks (some boundary)) ↔ IsBoundary boundary
unfolding cognition_boundary_checks
present-IsBoundary_iff boundary =
    let allowed = get boundary "allowed_output_classes" in
    let forbidden = get boundary "forbidden_output_classes" in
    let identity = Pass-demands (identity_checks boundary) (cognition_demands boundary) refl in
    let allows =
      Pass-each (allowed_check boundary) (Lists allowed) (Lists_iff allowed) required_allowed in
    let forbids =
      Pass-each (forbidden_check boundary) (Lists forbidden) (Lists_iff forbidden)
        required_forbidden in
    let flags = flag_checks_iff (fields_of (get boundary "boundary")) in
    let a = identity_checks boundary in
    let b = map (allowed_check boundary) required_allowed in
    let c = map (forbidden_check boundary) required_forbidden in
    let d = flag_checks (fields_of (get boundary "boundary")) in
    let three = Pass-both (a ++ b) c (Pass-both a b identity allows) forbids in
    let whole =
      Pass-both (a ++ b ++ c ++ d) (rule_checks boundary) (Pass-both (a ++ b ++ c) d three flags)
        (rule_checks_iff boundary) in
    (
      (λ h.
          let ((((i, a), f), g), r) = whole.0 h in
          record { identity = i; allows = a; forbids = f; flags = g; inputs = r.0; rule = r.1 }),
      (λ b. whole.1 ((((b.identity, b.allows), b.forbids), b.flags), (b.inputs, b.rule))),
    )

cognition_boundary_checks_iff :
    (o : Option Fields) → Pass (cognition_boundary_checks o) ↔ Bound o IsBoundary
cognition_boundary_checks_iff none =
    ((λ h. unfold cognition_boundary_checks in absurd (ground arith)), (λ h. absurd (ground arith)))
cognition_boundary_checks_iff (some boundary) =
    let iff = present-IsBoundary_iff boundary in
    (
      (λ h. (boundary, refl, iff.0 h)),
      (λ h. let (other, e, met) = h in iff.1 (subst IsBoundary (ground arith) met)),
    )

-- The gate is green exactly if the boundary is there with its identity, the output classes that it
-- must expose and forbid, its flags, inputs and rule, the index binds it, no surface passes itself off
-- as the boundary, and the merge-gate result does not come from TACHYRIUM.
pub assert_cognition_boundary_required-green_iff :
    (input : CognitionInput)
    → ((assert_cognition_boundary_required input).status ≡ green) ↔ (
        Bound input.cognition_boundary IsBoundary
        × Bound input.cognition_boundary_index IsIndex
        × WhenPresent input.projection IsModest
        × WhenPresent input.status_surface IsModest
        × WhenPresent input.merge_gate_result IsForeign)
unfolding assert_cognition_boundary_required
assert_cognition_boundary_required-green_iff input =
    let a = cognition_boundary_checks input.cognition_boundary in
    let b = cognition_index_checks input.cognition_boundary_index in
    let c = cognition_surface_checks input in
    let objects_iff =
      Pass-both a b (cognition_boundary_checks_iff input.cognition_boundary)
        (cognition_index_checks_iff input.cognition_boundary_index) in
    let whole = Pass-both (a ++ b) c objects_iff (cognition_surface_checks_iff input) in
    let green_iff = report-green_iff "COGNITION_BOUNDARY_REQUIRED" (a ++ b ++ c) in
    (
      (λ h. let ((b, i), (p, s, m)) = whole.0 (green_iff.0 h) in (b, i, p, s, m)),
      (λ h. let (b, i, p, s, m) = h in green_iff.1 (whole.1 ((b, i), (p, s, m)))),
    )
