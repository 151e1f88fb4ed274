-- ===== src/Permissions/Requests.antt =====
-- `forbiddenPermissionRequests` of app/permissions.ts.
use admissorium.Prelude.{
  ℕ, zero, suc, code, String, ◌≡◌, refl, ◌↔◌, ◌==◌, Bool, false, ◌||◌, List, [], ◌∷◌, map, arith,
  All, Bool-cases, inl, inr, includes, nat_eq, if◌then◌else◌,
}
use admissorium.Text.{◌⧺◌}
use admissorium.Js.{or_else}
use admissorium.Sorting.{sort_by, IsSorted, sort_by-perm, sort_by-IsSorted}
use admissorium.Permissions.Policy.{PermissionPolicy, with_permission_defaults}
use mathlib.Core.List.Perm

-- `entry.split(":")[0]`
before_colon : String → String
before_colon String.[] = ""
before_colon (String.◌∷◌ c s) =
    let rest = before_colon s in if nat_eq (code c) b':' then "" else String.◌∷◌ c rest

-- `order.indexOf(name) + 1`
place : List String → String → ℕ
place [] name = 0
place (x ∷ xs) name =
    let rest = place xs name in
    if x == name then 1 else elim rest [ zero ↦ 0 | suc n ↦ suc (suc n) ]

abbrev forbidden_of : PermissionPolicy → List String
forbidden_of policy = or_else (with_permission_defaults policy).forbidden_first_app []

-- a permission is refused by its name and level, or by its name alone
unfoldable pub is_forbidden : PermissionPolicy → String × String → Bool
is_forbidden policy (permission, level) =
    includes (forbidden_of policy) (permission ⧺ ":" ⧺ level)
    || includes (forbidden_of policy) permission

denied : PermissionPolicy → List (String × String) → List String
denied policy [] = []
denied policy (r ∷ rs) =
    let rest = denied policy rs in if is_forbidden policy r then r.0 ∷ rest else rest

unfoldable pub order_of : PermissionPolicy → String → ℕ
unfolding place before_colon
order_of policy name = place (map before_colon (forbidden_of policy)) name

-- `forbiddenPermissionRequests`, over the entries of the object that is asked for
unfoldable pub forbidden_permission_requests :
    List (String × String) → PermissionPolicy → List String
unfolding denied
forbidden_permission_requests requested policy = sort_by (order_of policy) (denied policy requested)

denied-nil :
    (policy : PermissionPolicy) (requested : List (String × String))
    → denied policy requested ≡ []
    → All (λ r. is_forbidden policy r ≡ false) requested
unfolding denied
denied-nil policy [] e = tt
denied-nil policy (r ∷ rs) e = elim (Bool-cases (is_forbidden policy r)) [
  | inl bad ↦ absurd (ground arith)
  | inr good ↦ (good, denied-nil policy rs (ground arith))
]

nil-denied :
    (policy : PermissionPolicy) (requested : List (String × String))
    → All (λ r. is_forbidden policy r ≡ false) requested
    → denied policy requested ≡ []
unfolding denied
nil-denied policy [] h = refl
nil-denied policy (r ∷ rs) (good, h) = rw good (nil-denied policy rs h)

-- No permission is reported exactly when none that is asked for is forbidden.
pub forbidden_permission_requests-nil_iff :
    (policy : PermissionPolicy) (requested : List (String × String))
    → (forbidden_permission_requests requested policy ≡ [])
      ↔ All (λ r. is_forbidden policy r ≡ false) requested
unfolding forbidden_permission_requests
forbidden_permission_requests-nil_iff policy requested = (
  λ e. denied-nil policy requested (
      Perm.eq-nil (rw e at (Perm.symm (sort_by-perm (order_of policy) (denied policy requested))))),
  λ h. rw (nil-denied policy requested h) (unfold sort_by in refl),
)

-- The report stands in the order of the policy's list of forbidden permissions.
forbidden_permission_requests-IsSorted :
    (policy : PermissionPolicy) (requested : List (String × String))
    → IsSorted (order_of policy) (forbidden_permission_requests requested policy)
unfolding forbidden_permission_requests
forbidden_permission_requests-IsSorted policy requested = sort_by-IsSorted (order_of policy) _
