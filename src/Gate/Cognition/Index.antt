-- ===== src/Gate/Cognition/Index.antt =====
-- Which index src/admission/assert-cognition-boundary-required.ts takes for one that binds the boundary.
use mathlib.Core.List.{Memᴰ}
use mathlib.Core.Path.{subst}
use admissorium.Prelude.{
  ◌≡◌, refl, ◌↔◌, inl, inr, Bool, true, false, Option, none, some, List, [], ◌∷◌, any, arith,
  Bool-cases,
}
use admissorium.Js.{Fields, str, get, is_str_iff}
use admissorium.Gate.{fails, differs}
use admissorium.Gate.Laws.{Pass, Bound, differs_iff}
use admissorium.Gate.Cognition.{object_array, binds_path, path_check, cognition_index_checks}

binds_path_iff :
    (entry : Fields)
    → (binds_path entry ≡ true) ↔ (
        (get entry "object_id" ≡ str "cognition-boundary-0001")
        × (get entry "path" ≡ str "cognition/current/cognition-boundary-0001.json"))
binds_path_iff entry =
    let a = is_str_iff (get entry "object_id") "cognition-boundary-0001" in
    let b = is_str_iff (get entry "path") "cognition/current/cognition-boundary-0001.json" in
    ground (arith, a, b)

-- An entry of the list binds the path of the boundary.
abbrev BindsPath : List Fields → Type 0
BindsPath entries =
    (entry : Fields) × Memᴰ entry entries
    × (get entry "object_id" ≡ str "cognition-boundary-0001")
    × (get entry "path" ≡ str "cognition/current/cognition-boundary-0001.json")

any-binds : (entries : List Fields) → any binds_path entries ≡ true → BindsPath entries
any-binds [] h = absurd (ground arith)
any-binds (entry ∷ entries) h = elim (Bool-cases (binds_path entry)) [
  | inl hit ↦ let (id, path) = (binds_path_iff entry).0 hit in (entry, Memᴰ.head refl, id, path)
  | inr miss ↦
      let (found, listed, id, path) = any-binds entries (ground arith) in
      (found, Memᴰ.tail listed, id, path)
]

binds-any :
    (entries : List Fields) (entry : Fields)
    → Memᴰ entry entries
    → binds_path entry ≡ true
    → any binds_path entries ≡ true
binds-any [] entry m h = elim m [ ]
binds-any (e ∷ es) entry (Memᴰ.head same) h =
    let here : binds_path e ≡ true = subst (λ e. binds_path e ≡ true) same h in rw here
binds-any (e ∷ es) entry (Memᴰ.tail m) h = let rest = binds-any es entry m h in ground arith

-- The index names the boundary as current, and one of its objects binds the path of the boundary.
abbrev pub IsIndex : Fields → Type 0
IsIndex index =
    (get index "current" ≡ str "cognition-boundary-0001")
    × BindsPath (object_array (get index "objects"))

path_check_iff :
    (index : Fields) (b : Bool)
    → (fails (path_check b index) ≡ false)
      ↔ ((b ≡ false) × BindsPath (object_array (get index "objects")))
path_check_iff index true = ground arith
path_check_iff index false =
    let entries = object_array (get index "objects") in
    let to = any-binds entries in
    (
      (λ h. (refl, to (ground arith))),
      (λ h.
          let (_, (entry, listed, id, path)) = h in
          let hit = binds-any entries entry listed ((binds_path_iff entry).1 (id, path)) in
          ground arith),
    )

pub cognition_index_checks_iff :
    (o : Option Fields) → Pass (cognition_index_checks o) ↔ Bound o IsIndex
unfolding cognition_index_checks
cognition_index_checks_iff none = ((λ h. absurd (ground arith)), (λ h. absurd (ground arith)))
cognition_index_checks_iff (some index) =
    let current = differs_iff (get index "current") "cognition-boundary-0001" in
    let path = path_check_iff index (differs (get index "current") "cognition-boundary-0001") in
    (
      (λ h. let (same, binds) = path.0 h.0 in (index, refl, (current.0 same, binds))),
      (λ h.
          let (other, e, is_index) = h in
          let (names, binds) = subst IsIndex (ground arith) is_index in
          (path.1 (current.1 names, binds), tt)),
    )
