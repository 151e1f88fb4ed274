-- ===== src/Sorting.antt =====
-- `Array.prototype.sort` with a comparison by a numeric key: stable, so insertion behind equal keys.
pub mod Unique
use admissorium.Prelude.{
  ℕ, ◌≤◌, ◌≡◌, refl, sym, ap, ◌∙◌, ◌++◌, false, List, [], ◌∷◌, arith, ltb, if◌then◌else◌, All,
  Bool-cases, inl, inr,
}
use mathlib.Core.List.{Perm, append-nil, append_assoc, perm_middle}
use mathlib.Core.List.Perm

module _ {ℓ} {A : Type ℓ} (key : A → ℕ) where
  -- in front of the first element whose key is greater
  insert_by : A → List A → List A
  insert_by x [] = x ∷ []
  insert_by x (y ∷ ys) =
      let rest = insert_by x ys in if ltb (key x) (key y) then x ∷ y ∷ ys else y ∷ rest

  sort_from : List A → List A → List A
  sort_from done [] = done
  sort_from done (x ∷ xs) = sort_from (insert_by x done) xs

  unfoldable pub sort_by : List A → List A
  unfolding sort_from insert_by
  sort_by xs = sort_from [] xs

  insert_by-perm : (x : A) (ys : List A) → Perm (insert_by x ys) (x ∷ ys)
  unfolding insert_by
  insert_by-perm x [] = Perm.refl _
  insert_by-perm x (y ∷ ys) = elim (Bool-cases (ltb (key x) (key y))) [
    | inl less ↦ rw less (Perm.refl _)
    | inr more ↦ rw more (Perm.trans (Perm.cons y (insert_by-perm x ys)) (Perm.swap x y ys))
  ]

  abbrev pub IsSorted : List A → Type 0
  IsSorted [] = Unit
  IsSorted (x ∷ xs) = All (λ y. key x ≤ key y) xs × IsSorted xs

  All-le-insert_by :
      (n : ℕ) (x : A) (ys : List A)
      → n ≤ key x
      → All (λ y. n ≤ key y) ys
      → All (λ y. n ≤ key y) (insert_by x ys)
  unfolding insert_by
  All-le-insert_by n x [] h k = (h, tt)
  All-le-insert_by n x (y ∷ ys) h (p, k) = elim (Bool-cases (ltb (key x) (key y))) [
    | inl less ↦ rw less (h, (p, k))
    | inr more ↦ rw more (p, All-le-insert_by n x ys h k)
  ]

  All-le-weaken :
      (n m : ℕ) (ys : List A) → n ≤ m → All (λ y. m ≤ key y) ys → All (λ y. n ≤ key y) ys
  All-le-weaken n m [] h k = tt
  All-le-weaken n m (y ∷ ys) h (p, k) = (omega arith, All-le-weaken n m ys h k)

  insert_by-IsSorted : (x : A) (ys : List A) → IsSorted ys → IsSorted (insert_by x ys)
  unfolding insert_by
  insert_by-IsSorted x [] s = (tt, tt)
  insert_by-IsSorted x (y ∷ ys) (p, s) = elim (Bool-cases (ltb (key x) (key y))) [
    | inl less ↦
        let le : key x ≤ key y = ground arith in
        rw less ((le, All-le-weaken (key x) (key y) ys le p), (p, s))
    | inr more ↦ rw more (All-le-insert_by (key y) x ys (ground arith) p, insert_by-IsSorted x ys s)
  ]

  sort_from-perm : (done xs : List A) → Perm (sort_from done xs) (done ++ xs)
  unfolding sort_from
  sort_from-perm done [] = rw append-nil (Perm.refl _)
  sort_from-perm done (x ∷ xs) =
      Perm.trans (sort_from-perm (insert_by x done) xs) (
        Perm.trans (Perm.append_right xs (insert_by-perm x done)) (Perm.symm (perm_middle done xs)))

  sort_from-IsSorted : (done xs : List A) → IsSorted done → IsSorted (sort_from done xs)
  unfolding sort_from
  sort_from-IsSorted done [] s = s
  sort_from-IsSorted done (x ∷ xs) s =
      sort_from-IsSorted (insert_by x done) xs (insert_by-IsSorted x done s)

  pub sort_by-perm : (xs : List A) → Perm (sort_by xs) xs
  unfolding sort_by
  sort_by-perm xs = sort_from-perm [] xs

  pub sort_by-IsSorted : (xs : List A) → IsSorted (sort_by xs)
  unfolding sort_by
  sort_by-IsSorted xs = sort_from-IsSorted [] xs tt

  le-middle : (n : ℕ) (x : A) (ys xs : List A) → All (λ y. n ≤ key y) (ys ++ x ∷ xs) → n ≤ key x
  le-middle n x [] xs h = h.0
  le-middle n x (y ∷ ys) xs h = le-middle n x ys xs h.1

  insert_by_last :
      (x : A) (ys xs : List A) → IsSorted (ys ++ x ∷ xs) → insert_by x ys ≡ ys ++ x ∷ []
  unfolding insert_by
  insert_by_last x [] xs s = refl
  insert_by_last x (y ∷ ys) xs (h, s) =
      let le = le-middle (key y) x ys xs h in
      let not_less : ltb (key x) (key y) ≡ false = ground arith in
      rw not_less (ap (λ r. y ∷ r) (insert_by_last x ys xs s))

  sort_from_of_IsSorted :
      (done xs : List A) → IsSorted (done ++ xs) → sort_from done xs ≡ done ++ xs
  unfolding sort_from
  sort_from_of_IsSorted done [] s = sym (append-nil _)
  sort_from_of_IsSorted done (x ∷ xs) s =
      let whole : (done ++ x ∷ []) ++ xs ≡ done ++ x ∷ xs = append_assoc done (x ∷ []) xs in
      rw (insert_by_last x done xs s)
        (sort_from_of_IsSorted (done ++ x ∷ []) xs (rw whole s) ∙ whole)

  -- Sorting leaves a list alone that is in order.
  pub sort_by_of_IsSorted : (xs : List A) → IsSorted xs → sort_by xs ≡ xs
  unfolding sort_by
  sort_by_of_IsSorted xs s = sort_from_of_IsSorted [] xs s
