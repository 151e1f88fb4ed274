-- ===== src/Prelude/Select.antt =====
-- Elements that pass a test, and elements that a function makes: what the lists hold.
use Prim.Native.Nat.{suc}
use mathlib.Core.Path.{◌≡◌, refl, sym, ◌∙◌, ap}
use mathlib.Core.Logic.{◌⊎◌, inl, inr}
use mathlib.Core.Bool.{Bool, true, false}
use Prim.Native.String.{String}
use text.Mathlib.Text.{◌==◌}
use text.Mathlib.TextEquality.{eq_iff}
use mathlib.Core.Logic.{◌↔◌}
use native.Mathlib.Omega.{arith}
use admissorium.Prelude.Lists.{All, includes}
use mathlib.Core.List.{List, [], ◌∷◌, ◌++◌, map, Memᴰ}
use admissorium.Prelude.Tests.{if◌then◌else◌, Bool-cases}
use admissorium.Prelude.Lists.{length}

-- `xs.filter(keep)`
abbrev pub select {ℓ} : {A : Type ℓ} → (A → Bool) → List A → List A
select keep [] = []
select keep (x ∷ xs) = let rest = select keep xs in if keep x then x ∷ rest else rest

-- `xs.length === 0`
abbrev pub is_nil {ℓ} : {A : Type ℓ} → List A → Bool
is_nil [] = true
is_nil (_ ∷ _) = false

-- where an element of a list stands that may have been given a new head
pub mem-if :
    {A : Type 0} (b : Bool) (x y : A) (zs : List A)
    → Memᴰ x (if b then y ∷ zs else zs)
    → ((x ≡ y) × (b ≡ true)) ⊎ Memᴰ x zs
mem-if true x y zs (Memᴰ.head e) = inl (e, refl)
mem-if true x y zs (Memᴰ.tail m) = inr m
mem-if false x y zs m = inr m

module _ {A : Type 0} (keep : A → Bool) where
  pub mem-select : (x : A) (xs : List A) → Memᴰ x (select keep xs) → Memᴰ x xs × (keep x ≡ true)
  mem-select x [] m = elim m [ ]
  mem-select x (y ∷ ys) m = elim (mem-if (keep y) x y (select keep ys) m) [
    | inl found ↦ (Memᴰ.head found.0, ap keep found.0 ∙ found.1)
    | inr later ↦ let (listed, kept) = mem-select x ys later in (Memᴰ.tail listed, kept)
  ]

  pub select-mem : (x : A) (xs : List A) → Memᴰ x xs → keep x ≡ true → Memᴰ x (select keep xs)
  select-mem x [] m h = elim m [ ]
  select-mem x (y ∷ ys) (Memᴰ.head e) h = let here = ap keep (sym e) ∙ h in rw here (Memᴰ.head e)
  select-mem x (y ∷ ys) (Memᴰ.tail m) h = elim (Bool-cases (keep y)) [
    | inl hit ↦ rw hit (Memᴰ.tail (select-mem x ys m h))
    | inr miss ↦ rw miss (select-mem x ys m h)
  ]

module _ {A B : Type 0} (f : A → B) where
  pub mem-map : (y : B) (xs : List A) → Memᴰ y (map f xs) → (x : A) × Memᴰ x xs × (y ≡ f x)
  mem-map y [] m = elim m [ ]
  mem-map y (x ∷ xs) (Memᴰ.head e) = (x, Memᴰ.head refl, e)
  mem-map y (x ∷ xs) (Memᴰ.tail m) = let (z, listed, e) = mem-map y xs m in (z, Memᴰ.tail listed, e)

  pub map-mem : (x : A) (xs : List A) → Memᴰ x xs → Memᴰ (f x) (map f xs)
  map-mem x [] m = elim m [ ]
  map-mem x (y ∷ ys) (Memᴰ.head e) = Memᴰ.head (ap f e)
  map-mem x (y ∷ ys) (Memᴰ.tail m) = Memᴰ.tail (map-mem x ys m)

  pub length-map : (xs : List A) → length (map f xs) ≡ length xs
  length-map [] = refl
  length-map (x ∷ xs) = ap suc (length-map xs)

  pub map-nil_iff : (xs : List A) → (map f xs ≡ []) ↔ (xs ≡ [])
  map-nil_iff [] = ((λ h. refl), (λ h. refl))
  map-nil_iff (x ∷ xs) = ((λ h. absurd (ground arith)), (λ h. absurd (ground arith)))

module _ {A : Type 0} (keep : A → Bool) where
  -- Nothing is kept exactly if nothing passes.
  pub select-nil_iff : (xs : List A) → (select keep xs ≡ []) ↔ All (λ x. keep x ≡ false) xs
  select-nil_iff [] = ((λ h. tt), (λ h. refl))
  select-nil_iff (x ∷ xs) =
      let rest = select-nil_iff xs in
      elim (Bool-cases (keep x)) [
        | inl hit ↦ ((λ h. absurd (ground arith)), (λ h. absurd (ground arith)))
        | inr miss ↦ ((λ h. (miss, rest.0 (ground arith))), (λ h. rw miss (rest.1 h.1)))
      ]

pub append-nil_iff : {A : Type 0} (xs ys : List A) → (xs ++ ys ≡ []) ↔ ((xs ≡ []) × (ys ≡ []))
append-nil_iff [] ys = ((λ h. (refl, h)), (λ h. h.1))
append-nil_iff (x ∷ xs) ys = ((λ h. absurd (ground arith)), (λ h. absurd (ground arith)))

-- `All` on two predicates that imply each other.
pub All_iff :
    {A : Type 0} (P Q : A → Type 0) → ((x : A) → P x ↔ Q x) → (xs : List A) → All P xs ↔ All Q xs
All_iff P Q iff [] = ((λ h. tt), (λ h. tt))
All_iff P Q iff (x ∷ xs) =
    let here = iff x in
    let rest = All_iff P Q iff xs in
    ((λ h. (here.0 h.0, rest.0 h.1)), (λ h. (here.1 h.0, rest.1 h.1)))

-- What holds of every element, as a predicate on membership.
pub All-each : {A : Type 0} (P : A → Type 0) (xs : List A) → ((x : A) → Memᴰ x xs → P x) → All P xs
All-each P [] h = tt
All-each P (x ∷ xs) h = (h x (Memᴰ.head refl), All-each P xs (λ y m. h y (Memᴰ.tail m)))

pub includes-mem : (xs : List String) (s : String) → includes xs s ≡ true → Memᴰ s xs
includes-mem [] s h = absurd (ground arith)
includes-mem (x ∷ xs) s h = elim (Bool-cases (x == s)) [
  | inl same ↦ Memᴰ.head (sym ((eq_iff x s).0 same))
  | inr other ↦ Memᴰ.tail (includes-mem xs s (ground arith))
]

pub mem-includes : (xs : List String) (s : String) → Memᴰ s xs → includes xs s ≡ true
mem-includes [] s m = elim m [ ]
mem-includes (x ∷ xs) s (Memᴰ.head e) = let here = (eq_iff x s).1 (sym e) in ground arith
mem-includes (x ∷ xs) s (Memᴰ.tail m) = let rest = mem-includes xs s m in ground arith
