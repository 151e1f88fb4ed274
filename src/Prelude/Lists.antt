-- ===== src/Prelude/Lists.antt =====
-- Lists measured by native numbers, searched by Boolean tests.
use Prim.Native.Nat.{ℕ, suc}
use Prim.Native.String.{String}
use mathlib.Core.Path.{◌≡◌, sym, subst}
use mathlib.Core.Bool.{Bool, true, false, ◌&&◌, ◌||◌}
use mathlib.Core.List.{List, [], ◌∷◌, Memᴰ}
use native.Mathlib.Omega.{arith}
use text.Mathlib.Text.{◌==◌}

module _ {ℓ} {A : Type ℓ} where
  abbrev pub length : List A → ℕ
  length [] = 0
  length (x ∷ xs) = suc (length xs)

  -- `xs.some(p)`
  abbrev pub any : (A → Bool) → List A → Bool
  any p [] = false
  any p (x ∷ xs) = p x || any p xs

  -- `xs.every(p)`
  abbrev pub all : (A → Bool) → List A → Bool
  all p [] = true
  all p (x ∷ xs) = p x && all p xs

module _ {ℓ κ} {A : Type ℓ} (P : A → Type κ) where
  abbrev pub All : List A → Type κ
  All [] = Unit
  All (x ∷ xs) = P x × All xs

  -- A test that implies `P` and passes everywhere.
  pub all_sound :
      (test : A → Bool) (xs : List A)
      → ((x : A) → test x ≡ true → P x)
      → all test xs ≡ true
      → All xs
  all_sound test [] f h = tt
  all_sound test (x ∷ xs) f h = (f x (ground arith), all_sound test xs f (ground arith))

  pub All-mem : {x : A} {xs : List A} → Memᴰ x xs → All xs → P x
  All-mem (Memᴰ.head e) h = subst P (sym e) h.0
  All-mem (Memᴰ.tail m) h = All-mem m h.1

-- `xs.includes(s)` on a list of texts
abbrev pub includes : List String → String → Bool
includes [] s = false
includes (x ∷ xs) s = x == s || includes xs s

-- a text that is known differs from another one
pub eq_other : (e s t : String) → (s == t) ≡ false → e ≡ s → (e == t) ≡ false
eq_other e s t h p = rw p h
