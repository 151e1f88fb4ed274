-- ===== src/Grouping/Laws.antt =====
-- Filling a `Map` bucket by bucket is the same as asking, for each key that comes, what has come for it.
use mathlib.Core.List.{Memᴰ, append_assoc, append-nil}
use admissorium.Prelude.{
  String, ◌==◌, eq_iff, eq_refl, ◌≡◌, refl, sym, ap, ◌∙◌, true, false, ◌||◌, ◌↔◌, inl, inr,
  Bool-cases, List, [], ◌∷◌, ◌++◌, map, includes, if◌then◌else◌, arith, All, All-each, All-mem,
  includes-mem, mem-includes,
}
use admissorium.Grouping.{put, group_from, group, unique_from, unique}

abbrev pub IsDistinct : List String → Type 0
IsDistinct [] = Unit
IsDistinct (x ∷ xs) = (includes xs x ≡ false) × IsDistinct xs

includes-append_one :
    (xs : List String) (x y : String)
    → includes xs y ≡ false
    → (x == y) ≡ false
    → includes (xs ++ x ∷ []) y ≡ false
includes-append_one [] x y h k = ground arith
includes-append_one (z ∷ zs) x y h k =
    let rest = includes-append_one zs x y (ground arith) k in ground arith

includes-append_one_false :
    (xs : List String) (x y : String)
    → includes (xs ++ x ∷ []) y ≡ false
    → (includes xs y ≡ false) × ((x == y) ≡ false)
includes-append_one_false [] x y h = ground arith
includes-append_one_false (z ∷ zs) x y h =
    let rest = includes-append_one_false zs x y (ground arith) in ground arith

append_one-IsDistinct :
    (xs : List String) (x : String)
    → IsDistinct xs
    → includes xs x ≡ false
    → IsDistinct (xs ++ x ∷ [])
append_one-IsDistinct [] x d h = (refl, tt)
append_one-IsDistinct (y ∷ ys) x (new, d) h =
    let other : (x == y) ≡ false = ground (arith, eq_iff x y, eq_iff y x, eq_refl x) in
    (includes-append_one ys x y new other, append_one-IsDistinct ys x d (ground arith))

abbrev seen_after : List String → String → List String
seen_after seen x = if includes seen x then seen else seen ++ x ∷ []

seen_after-IsDistinct :
    (seen : List String) (x : String) → IsDistinct seen → IsDistinct (seen_after seen x)
seen_after-IsDistinct seen x d = elim (Bool-cases (includes seen x)) [
  | inl old ↦ rw old d
  | inr new ↦ rw new (append_one-IsDistinct seen x d new)
]

module _ {A : Type 0} where
  -- what has come for a key
  abbrev pub values : String → List (String × A) → List A
  values key [] = []
  values key ((k, a) ∷ entries) =
      let rest = values key entries in if k == key then a ∷ rest else rest

  abbrev pub keys : List (String × A) → List String
  keys entries = map (λ (entry : String × A). entry.0) entries

  abbrev buckets : List (String × A) → List String → List (String × List A)
  buckets entries ks = map (λ k. (k, values k entries)) ks

  values-append_one :
      (entries : List (String × A)) (key : String) (a : A) (k : String)
      → values k (entries ++ (key, a) ∷ []) ≡ values k entries ++ (if key == k then a ∷ [] else [])
  values-append_one [] key a k = refl
  values-append_one ((j, b) ∷ entries) key a k =
      let rest = values-append_one entries key a k in
      elim (Bool-cases (j == k)) [
        | inl hit ↦ rw hit (ap (λ r. b ∷ r) rest)
        | inr miss ↦ rw miss rest
      ]

  values_other :
      (entries : List (String × A)) (key : String) (a : A) (k : String)
      → (key == k) ≡ false
      → values k (entries ++ (key, a) ∷ []) ≡ values k entries
  values_other entries key a k h =
      values-append_one entries key a k ∙ (rw h (append-nil (values k entries)))

  values_same :
      (entries : List (String × A)) (key : String) (a : A)
      → values key (entries ++ (key, a) ∷ []) ≡ values key entries ++ a ∷ []
  values_same entries key a = values-append_one entries key a key ∙ rw (eq_refl key)

  buckets_other :
      (entries : List (String × A)) (key : String) (a : A) (ks : List String)
      → includes ks key ≡ false
      → buckets (entries ++ (key, a) ∷ []) ks ≡ buckets entries ks
  buckets_other entries key a [] h = refl
  buckets_other entries key a (k ∷ ks) h =
      let other : (key == k) ≡ false = ground (arith, eq_iff key k, eq_iff k key, eq_refl k) in
      rw (values_other entries key a k other, buckets_other entries key a ks (ground arith))

  put-buckets :
      (entries : List (String × A)) (key : String) (a : A) (ks : List String)
      → IsDistinct ks
      → (includes ks key ≡ false → values key entries ≡ [])
      → put key a (buckets entries ks) ≡ buckets (entries ++ (key, a) ∷ []) (seen_after ks key)
  unfolding put
  put-buckets entries key a [] d h = rw (values_same entries key a, h refl)
  put-buckets entries key a (k ∷ ks) (new, d) h = elim (Bool-cases (k == key)) [
    | inl hit ↦
        let e = (eq_iff k key).0 hit in
        let same : (key == k) ≡ true = (eq_iff key k).1 (sym e) in
        let here : values k (entries ++ (key, a) ∷ []) ≡ values k entries ++ a ∷ [] =
          values-append_one entries key a k ∙ rw same in
        let others = buckets_other entries key a ks (rw e at new) in rw (hit, others, here)
    | inr miss ↦
        let other : (key == k) ≡ false = ground (arith, eq_iff key k, eq_iff k key, eq_refl k) in
        let here = values_other entries key a k other in
        let later = put-buckets entries key a ks d (λ n. h (rw (miss, n))) in
        elim (Bool-cases (includes ks key)) [
          | inl old ↦ rw (miss, old, here) (ap (λ r. (k, values k entries) ∷ r) (rw old at later))
          | inr fresh ↦
              rw (miss, fresh, here) (ap (λ r. (k, values k entries) ∷ r) (rw fresh at later))
        ]
  ]

  -- No value has come for a key that is not among the keys seen.
  abbrev Covers : List String → List (String × A) → Type 0
  Covers seen entries = (k : String) → includes seen k ≡ false → values k entries ≡ []

  seen_after-Covers :
      (entries : List (String × A)) (key : String) (a : A) (seen : List String)
      → Covers seen entries
      → Covers (seen_after seen key) (entries ++ (key, a) ∷ [])
  seen_after-Covers entries key a seen h k out = elim (Bool-cases (includes seen key)) [
    | inl old ↦
        let out : includes seen k ≡ false = rw old at out in
        let other : (key == k) ≡ false = ground (arith, eq_iff key k) in
        values_other entries key a k other ∙ h k out
    | inr fresh ↦
        let (out, other) = includes-append_one_false seen key k (rw fresh at out) in
        values_other entries key a k other ∙ h k out
  ]

  group_from-buckets :
      (entries rest : List (String × A)) (seen : List String)
      → IsDistinct seen
      → Covers seen entries
      → group_from (buckets entries seen) rest
        ≡ buckets (entries ++ rest) (unique_from seen (keys rest))
  unfolding group_from unique_from
  group_from-buckets entries [] seen d h = rw (append-nil entries)
  group_from-buckets entries ((key, a) ∷ rest) seen d h =
      let whole : (entries ++ (key, a) ∷ []) ++ rest ≡ entries ++ (key, a) ∷ rest =
        append_assoc entries ((key, a) ∷ []) rest in
      ap (λ m. group_from m rest) (put-buckets entries key a seen d (h key))
      ∙ group_from-buckets (entries ++ (key, a) ∷ []) rest (seen_after seen key)
          (seen_after-IsDistinct seen key d) (seen_after-Covers entries key a seen h)
      ∙ ap (λ es. buckets es (unique_from (seen_after seen key) (keys rest))) whole

  -- The buckets are the keys in the order in which they came, each with what has come for it.
  pub group-buckets :
      (entries : List (String × A))
      → group entries ≡ map (λ k. (k, values k entries)) (unique (keys entries))
  unfolding group unique
  group-buckets entries = group_from-buckets [] entries [] tt (λ k h. refl)

pub includes-append_one_eq :
    (xs : List String) (x y : String) → includes (xs ++ x ∷ []) y ≡ (includes xs y || (x == y))
includes-append_one_eq [] x y = ground arith
includes-append_one_eq (z ∷ zs) x y = let rest = includes-append_one_eq zs x y in ground arith

includes-seen_after :
    (seen : List String) (x y : String)
    → includes (seen_after seen x) y ≡ (includes seen y || (x == y))
includes-seen_after seen x y = elim (Bool-cases (includes seen x)) [
  | inl old ↦ rw old (ground (arith, eq_iff x y))
  | inr fresh ↦ rw fresh (includes-append_one_eq seen x y)
]

includes-unique_from :
    (xs seen : List String) (y : String)
    → includes (unique_from seen xs) y ≡ (includes seen y || includes xs y)
unfolding unique_from
includes-unique_from [] seen y = ground arith
includes-unique_from (x ∷ xs) seen y =
    let rest = includes-unique_from xs (seen_after seen x) y in
    let here = includes-seen_after seen x y in rest ∙ rw here (ground arith)

-- Making a list of texts unique keeps its elements.
pub includes-unique : (xs : List String) (y : String) → includes (unique xs) y ≡ includes xs y
unfolding unique
includes-unique xs y = includes-unique_from xs [] y

unique_from-IsDistinct :
    (xs seen : List String) → IsDistinct seen → IsDistinct (unique_from seen xs)
unfolding unique_from
unique_from-IsDistinct [] seen d = d
unique_from-IsDistinct (x ∷ xs) seen d =
    unique_from-IsDistinct xs (seen_after seen x) (seen_after-IsDistinct seen x d)

pub unique-IsDistinct : (xs : List String) → IsDistinct (unique xs)
unfolding unique
unique-IsDistinct xs = unique_from-IsDistinct xs [] tt

All-map_iff :
    {A B : Type 0} (f : A → B) (P : B → Type 0) (xs : List A)
    → All P (map f xs) ↔ All (λ x. P (f x)) xs
All-map_iff f P [] = ((λ h. tt), (λ h. tt))
All-map_iff f P (x ∷ xs) =
    let rest = All-map_iff f P xs in ((λ h. (h.0, rest.0 h.1)), (λ h. (h.0, rest.1 h.1)))

module _ {A : Type 0} (P : String × List A → Type 0) (entries : List (String × A)) where
  -- What holds of every bucket holds of what has come for each key, and the other way round.
  pub All-group_iff :
      All P (group entries) ↔ ((k : String) → Memᴰ k (keys entries) → P (k, values k entries))
  All-group_iff =
      let bucket = λ (k : String). P (k, values k entries) in
      let same = All-map_iff (λ k. (k, values k entries)) P (unique (keys entries)) in
      (
        (λ h k m.
            let listed = includes-unique (keys entries) k ∙ mem-includes (keys entries) k m in
            All-mem bucket (includes-mem (unique (keys entries)) k listed)
              (same.0 (rw (group-buckets entries) at h))),
        (λ h. rw (group-buckets entries) (
            same.1 (
              All-each bucket (unique (keys entries)) (λ k m.
                let listed = mem-includes (unique (keys entries)) k m in
                h k (
                  includes-mem (keys entries) k
                    (sym (includes-unique (keys entries) k) ∙ listed)))))),
      )
