-- ===== src/Gate/Cognition/Surfaces.antt =====
-- Which surfaces src/admission/assert-cognition-boundary-required.ts takes for modest.
use admissorium.Prelude.{String, ◌≡◌, ◌≢◌, ◌↔◌, Bool, true, false, ◌||◌, [], ◌∷◌, All, arith}
use admissorium.Js.{Value, Fields, bool, str, get, is_str, is_bool, is_str_iff, is_bool_iff}
use admissorium.Gate.Laws.{Pass, WhenPresent, AddsNone, present_and_iff, or_false_iff}
use admissorium.Gate.Cognition.{
  CognitionInput, sovereign, claims_sovereign_cognition, source_of, cognition_surface_checks,
}

pub is_str-false_iff : (v : Value) (s : String) → (is_str v s ≡ false) ↔ (v ≢ str s)
is_str-false_iff v s = let h = is_str_iff v s in ground (arith, h)

pub is_bool-false_iff : (v : Value) (b : Bool) → (is_bool v b ≡ false) ↔ (v ≢ bool b)
is_bool-false_iff v b = let h = is_bool_iff v b in ground (arith, h)

-- The object does not pass itself off as the boundary.
pub record IsModest (value : Fields) : Type 0 where
  pub says_not :
      All
        (λ (entry : String × String). get value entry.0 ≢ str entry.1)
        (("object_type", "CognitionBoundary")
          ∷ ("object_id", "cognition-boundary-0001")
          ∷ ("status", "ACTIVE_CURRENT_BOUNDARY")
          ∷ ("truth_kind", "ACTIVE_TRUTH")
          ∷ [])
  pub no_source : All (λ key. get value key ≢ bool true) ("truth_source" ∷ "is_truth_source" ∷ [])
  pub adds_none :
      AddsNone ("cognition_boundary_id" ∷ "cognitionBoundary" ∷ "cognition_boundary" ∷ []) value

sovereign-IsModest_iff : (value : Fields) → (sovereign value ≡ false) ↔ IsModest value
sovereign-IsModest_iff value =
    let a = is_str-false_iff (get value "object_type") "CognitionBoundary" in
    let b = is_str-false_iff (get value "object_id") "cognition-boundary-0001" in
    let c = is_str-false_iff (get value "status") "ACTIVE_CURRENT_BOUNDARY" in
    let d = is_str-false_iff (get value "truth_kind") "ACTIVE_TRUTH" in
    let e = is_bool-false_iff (get value "truth_source") true in
    let f = is_bool-false_iff (get value "is_truth_source") true in
    (
      (λ h.
          let (h, k3) = (or_false_iff _ _).0 h in
          let (h, k2) = (or_false_iff _ _).0 h in
          let (h, k1) = (or_false_iff _ _).0 h in
          let (h, hf) = (or_false_iff _ _).0 h in
          let (h, he) = (or_false_iff _ _).0 h in
          let (h, hd) = (or_false_iff _ _).0 h in
          let (h, hc) = (or_false_iff _ _).0 h in
          let (ha, hb) = (or_false_iff _ _).0 h in
          record {
            says_not = (a.0 ha, (b.0 hb, (c.0 hc, (d.0 hd, tt))));
            no_source = (e.0 he, (f.0 hf, tt));
            adds_none = (k1, (k2, (k3, tt)));
          }),
      (λ m.
          let (na, (nb, (nc, (nd, _)))) = m.says_not in
          let (ne, (nf, _)) = m.no_source in
          let (k1, (k2, (k3, _))) = m.adds_none in
          rw (a.1 na, b.1 nb, c.1 nc, d.1 nd, e.1 ne, f.1 nf, k1, k2, k3)),
    )

-- The result of a merge gate does not come from TACHYRIUM.
abbrev pub IsForeign : Fields → Type 0
IsForeign result =
    (source_of result ≢ str "TACHYRIUM") × (source_of result ≢ str "Verifrax/TACHYRIUM")

source_of-IsForeign_iff :
    (result : Fields)
    → ((is_str (source_of result) "TACHYRIUM" || is_str (source_of result) "Verifrax/TACHYRIUM")
        ≡ false)
      ↔ IsForeign result
source_of-IsForeign_iff result =
    let a = is_str-false_iff (source_of result) "TACHYRIUM" in
    let b = is_str-false_iff (source_of result) "Verifrax/TACHYRIUM" in ground (arith, a, b)

pub cognition_surface_checks_iff :
    (input : CognitionInput)
    → Pass (cognition_surface_checks input) ↔ (
        WhenPresent input.projection IsModest
        × WhenPresent input.status_surface IsModest
        × WhenPresent input.merge_gate_result IsForeign)
unfolding cognition_surface_checks claims_sovereign_cognition
cognition_surface_checks_iff input =
    let projection = present_and_iff sovereign IsModest sovereign-IsModest_iff input.projection in
    let status = present_and_iff sovereign IsModest sovereign-IsModest_iff input.status_surface in
    let merge = present_and_iff _ IsForeign source_of-IsForeign_iff input.merge_gate_result in
    (
      (λ h. let (a, (b, (c, _))) = h in (projection.0 a, status.0 b, merge.0 c)),
      (λ h. let (a, b, c) = h in (projection.1 a, (status.1 b, (merge.1 c, tt)))),
    )
