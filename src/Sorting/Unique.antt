-- ===== src/Sorting/Unique.antt =====
-- Two arrangements of the same elements by keys that tell them apart are the same.
use mathlib.Core.List.{Mem, Memᴰ, Perm, mem-cons_self, mem-cons_of_mem}
use mathlib.Core.List.Perm
use Prim.{IsSet}
use mathlib.Core.Logic.{∥∥₁_elim}
use native.Mathlib.Bridge.{le_prop}
use mathlib.Core.Path.{subst}
use admissorium.Prelude.{◌≢◌, ◌∙◌, sym, ap, ℕ, ◌≤◌, ◌≡◌, ap₂, List, [], ◌∷◌, arith, All, All-mem}
use admissorium.Sorting.{IsSorted, sort_by, sort_by-perm, sort_by-IsSorted}

module _ {ℓ} {A : Type ℓ} (key : A → ℕ) where
  -- Elements with the same key are the same.
  abbrev pub Separates : List A → Type ℓ
  Separates xs = (a b : A) → Mem a xs → Mem b xs → key a ≡ key b → a ≡ b

  le-head : (x y : A) (ys : List A) → IsSorted key (y ∷ ys) → Mem x (y ∷ ys) → key y ≤ key x
  le-head x y ys (h, s) m =
      let below : All (λ z. key y ≤ key z) (y ∷ ys) = (omega arith, h) in
      ∥∥₁_elim m le_prop (λ d. All-mem (λ z. key y ≤ key z) d below)

  pub IsSorted-unique :
      (xs ys : List A) → IsSorted key xs → IsSorted key ys → Separates ys → Perm xs ys → xs ≡ ys
  IsSorted-unique [] ys s t sep p = Perm.nil-eq p
  IsSorted-unique (x ∷ xs) [] s t sep p = Perm.eq-nil p
  IsSorted-unique (x ∷ xs) (y ∷ ys) s t sep p =
      let x_later = (Perm.mem_iff p).0 mem-cons_self in
      let y_later = (Perm.mem_iff p).1 mem-cons_self in
      let below = le-head x y ys t x_later in
      let above = le-head y x xs s y_later in
      let same = sep x y x_later mem-cons_self (omega arith) in
      let q = subst (λ z. Perm (z ∷ xs) (y ∷ ys)) same p in
      ap₂ (λ z zs. z ∷ zs) same
        (IsSorted-unique xs ys s.1 t.1
          (λ a b m n. sep a b (mem-cons_of_mem y m) (mem-cons_of_mem y n)) (Perm.cons_inv q))

  -- A list in order that has the same elements is what sorting gives.
  pub sort_by_unique :
      (xs ys : List A) → Separates xs → Perm ys xs → IsSorted key ys → sort_by key xs ≡ ys
  sort_by_unique xs ys sep p t =
      IsSorted-unique (sort_by key xs) ys (sort_by-IsSorted key xs) t
        (λ a b m n. sep a b ((Perm.mem_iff p).0 m) ((Perm.mem_iff p).0 n))
        (Perm.trans (sort_by-perm key xs) (Perm.symm p))

  -- No two elements have the same key.
  abbrev pub IsDistinct : List A → Type 0
  IsDistinct [] = Unit
  IsDistinct (x ∷ xs) = All (λ y. key x ≢ key y) xs × IsDistinct xs

  listed_eq :
      (xs : List A) (a b : A) → IsDistinct xs → Memᴰ a xs → Memᴰ b xs → key a ≡ key b → a ≡ b
  listed_eq [] a b h m n same = elim m [ ]
  listed_eq (x ∷ xs) a b (h, k) (Memᴰ.head d) (Memᴰ.head e) same = d ∙ sym e
  listed_eq (x ∷ xs) a b (h, k) (Memᴰ.head d) (Memᴰ.tail n) same =
      absurd (All-mem (λ y. key x ≢ key y) n h (ap key (sym d) ∙ same))
  listed_eq (x ∷ xs) a b (h, k) (Memᴰ.tail m) (Memᴰ.head e) same =
      absurd (All-mem (λ y. key x ≢ key y) m h (ap key (sym e) ∙ sym same))
  listed_eq (x ∷ xs) a b (h, k) (Memᴰ.tail m) (Memᴰ.tail n) same = listed_eq xs a b k m n same

  pub IsDistinct-Separates : IsSet A → (xs : List A) → IsDistinct xs → Separates xs
  IsDistinct-Separates set xs h a b m n same =
      ∥∥₁_elim m (set a b) (λ d. ∥∥₁_elim n (set a b) (λ e. listed_eq xs a b h d e same))
