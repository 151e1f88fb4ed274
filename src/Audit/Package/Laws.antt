-- ===== src/Audit/Package/Laws.antt =====
-- When invariants/package-registry.ts is content.
use mathlib.Core.List.{Memᴰ}
use mathlib.Core.Path.{subst}
use admissorium.Prelude.{
  ◌≤◌, String, ◌==◌, eq_iff, ◌≡◌, refl, sym, ◌∙◌, ap, ap₂, mem-if, ◌↔◌, true, false, List, [], ◌∷◌,
  map, length, select, select-nil_iff, map-nil_iff, append-nil_iff, All-each, All-mem, mem-map,
  map-mem, includes, includes-mem, mem-includes, arith, Bool-cases, inl, inr,
}
use admissorium.Registry.Packages.{PackageEntry}
use admissorium.Grouping.{group, unique}
use admissorium.Grouping.Laws.{
  keys, values, All-group_iff, includes-unique, unique-IsDistinct, IsDistinct, group-buckets,
}
use admissorium.Audit.Perimeter.Laws.{SameElements, Within}
use admissorium.Audit.Package.{
  ObservedPackage, registered, is_conflict, names_of, is_absent, bucket_names, is_unregistered,
  package_registry_invariant,
}

-- Two registrations of one package name one source.
abbrev pub SourcesAgree : List (String × String) → Type 0
SourcesAgree pairs =
    (name source other : String)
    → Memᴰ (name, source) pairs
    → Memᴰ (name, other) pairs
    → source ≡ other

values-mem :
    (name source : String) (pairs : List (String × String))
    → Memᴰ source (values name pairs)
    → Memᴰ (name, source) pairs
values-mem name source [] m = elim m [ ]
values-mem name source ((n, s) ∷ pairs) m =
    elim (mem-if (n == name) source s (values name pairs) m) [
      | inl found ↦ Memᴰ.head (ap₂ (λ x y. (x, y)) (sym ((eq_iff n name).0 found.1)) found.0)
      | inr later ↦ Memᴰ.tail (values-mem name source pairs later)
    ]

mem-values :
    (name source : String) (pairs : List (String × String))
    → Memᴰ (name, source) pairs
    → Memᴰ source (values name pairs)
mem-values name source [] m = elim m [ ]
mem-values name source ((n, s) ∷ pairs) (Memᴰ.head e) =
    let hit : (n == name) ≡ true = (eq_iff n name).1 (sym (ap (λ p. p.0) e)) in
    rw hit (Memᴰ.head (ap (λ p. p.1) e))
mem-values name source ((n, s) ∷ pairs) (Memᴰ.tail m) = elim (Bool-cases (n == name)) [
  | inl hit ↦ rw hit (Memᴰ.tail (mem-values name source pairs m))
  | inr miss ↦ rw miss (mem-values name source pairs m)
]

-- All elements of a list are the same.
abbrev AllSame : List String → Type 0
AllSame xs = (x y : String) → Memᴰ x xs → Memᴰ y xs → x ≡ y

short-AllSame : (xs : List String) → length xs ≤ 1 → AllSame xs
short-AllSame [] h x y m n = elim m [ ]
short-AllSame (a ∷ []) h x y m n = elim m [
  | Memᴰ.head e ↦ elim n [ Memᴰ.head f ↦ e ∙ sym f | Memᴰ.tail n ↦ elim n [ ] ]
  | Memᴰ.tail m ↦ elim m [ ]
]
short-AllSame (a ∷ b ∷ xs) h x y m n = absurd (omega arith)

AllSame-short : (xs : List String) → IsDistinct xs → AllSame xs → length xs ≤ 1
AllSame-short [] d h = omega arith
AllSame-short (a ∷ []) d h = omega arith
AllSame-short (a ∷ b ∷ xs) d h =
    let same = h a b (Memᴰ.head refl) (Memᴰ.tail (Memᴰ.head refl)) in
    let eq = (eq_iff b a).1 (sym same) in absurd (ground (arith, d.0))

unique-mem : (xs : List String) (x : String) → Memᴰ x (unique xs) → Memᴰ x xs
unique-mem xs x m = includes-mem xs x (sym (includes-unique xs x) ∙ mem-includes (unique xs) x m)

mem-unique : (xs : List String) (x : String) → Memᴰ x xs → Memᴰ x (unique xs)
mem-unique xs x m = includes-mem (unique xs) x (includes-unique xs x ∙ mem-includes xs x m)

is_conflict_iff :
    (name : String) (sources : List String)
    → (is_conflict (name, sources) ≡ false) ↔ AllSame sources
is_conflict_iff name sources = (
  (λ h.
      let same = short-AllSame (unique sources) (ground arith) in
      λ x y m n. same x y (mem-unique sources x m) (mem-unique sources y n)),
  (λ h.
      let short =
        AllSame-short (unique sources) (unique-IsDistinct sources)
          (λ x y m n. h x y (unique-mem sources x m) (unique-mem sources y n)) in
      ground arith),
)

key-mem :
    (pairs : List (String × String)) (name : String)
    → Memᴰ name (keys pairs)
    → (source : String) × Memᴰ (name, source) pairs
key-mem pairs name m =
    let (pair, listed, e) = mem-map (λ p. p.0) name pairs m in
    (pair.1, subst (λ n. Memᴰ (n, pair.1) pairs) (sym e) listed)

module _ (pairs : List (String × String)) where
  conflicts-nil_iff : (select is_conflict (group pairs) ≡ []) ↔ SourcesAgree pairs
  conflicts-nil_iff =
      let none_kept = select-nil_iff is_conflict (group pairs) in
      let each = All-group_iff (λ bucket. is_conflict bucket ≡ false) pairs in
      (
        (λ h name source other m n.
            let quiet = each.0 (none_kept.0 h) name (map-mem (λ p. p.0) (name, source) pairs m) in
            (is_conflict_iff name (values name pairs)).0 quiet source other
              (mem-values name source pairs m) (mem-values name other pairs n)),
        (λ agree. none_kept.1 (
            each.1 (λ name m. (is_conflict_iff name (values name pairs)).1 (λ x y p q.
              agree name x y (values-mem name x pairs p) (values-mem name y pairs q))))),
      )

  absent-nil_iff :
      (observed : List ObservedPackage)
      → (select (is_absent observed) (group pairs) ≡ []) ↔ Within (keys pairs) (names_of observed)
  absent-nil_iff observed =
      let none_kept = select-nil_iff (is_absent observed) (group pairs) in
      let each = All-group_iff (λ bucket. is_absent observed bucket ≡ false) pairs in
      (
        (λ h name m.
            let present = each.0 (none_kept.0 h) name m in
            includes-mem (names_of observed) name (ground arith)),
        (λ within. none_kept.1 (
            each.1 (λ name m.
              let present = mem-includes (names_of observed) name (within name m) in
              ground arith))),
      )

  map_first : (ks : List String) → bucket_names (map (λ k. (k, values k pairs)) ks) ≡ ks
  map_first [] = refl
  map_first (k ∷ ks) = ap (λ r. k ∷ r) (map_first ks)

  includes-bucket_names :
      (name : String) → includes (bucket_names (group pairs)) name ≡ includes (keys pairs) name
  includes-bucket_names name =
      ap (λ buckets. includes (bucket_names buckets) name) (group-buckets pairs)
      ∙ ap (λ names. includes names name) (map_first (unique (keys pairs)))
      ∙ includes-unique (keys pairs) name

  unregistered-nil_iff :
      (observed : List ObservedPackage)
      → (select (is_unregistered (group pairs)) observed ≡ [])
        ↔ Within (names_of observed) (keys pairs)
  unregistered-nil_iff observed =
      let quiet = λ (p : ObservedPackage). is_unregistered (group pairs) p ≡ false in
      let none_kept = select-nil_iff (is_unregistered (group pairs)) observed in
      (
        (λ h name m.
            let (p, listed, e) = mem-map (λ o. o.name) name observed m in
            let known = All-mem quiet listed (none_kept.0 h) in
            let same = includes-bucket_names p.name in
            let here = includes-mem (keys pairs) p.name (ground arith) in
            subst (λ n. Memᴰ n (keys pairs)) (sym e) here),
        (λ within. none_kept.1 (
            All-each quiet observed (λ p m.
              let known =
                mem-includes (keys pairs) p.name
                  (within p.name (map-mem (λ o. o.name) p observed m)) in
              let same = includes-bucket_names p.name in ground arith))),
      )

-- Nothing is found exactly if two registrations of one package name one source, and the packages that
-- are registered with a source are those that are there.
pub package_registry_invariant-nil_iff :
    (entries : List PackageEntry) (observed : List ObservedPackage) (source_of_truth : String)
    → (package_registry_invariant entries observed source_of_truth ≡ []) ↔ (
        SourcesAgree (registered entries)
        × SameElements (keys (registered entries)) (names_of observed))
unfolding package_registry_invariant
package_registry_invariant-nil_iff entries observed source_of_truth =
    let pairs = registered entries in
    let conflicts = conflicts-nil_iff pairs in
    let absent = absent-nil_iff pairs observed in
    let unregistered = unregistered-nil_iff pairs observed in
    (
      (λ h.
          let (ab, hc) = (append-nil_iff _ _).0 h in
          let (ha, hb) = (append-nil_iff _ _).0 ab in
          (
            conflicts.0 ((map-nil_iff _ _).0 ha),
            (absent.0 ((map-nil_iff _ _).0 hb), unregistered.0 ((map-nil_iff _ _).0 hc)),
          )),
      (λ h.
          let (agree, (present, known)) = h in
          rw (conflicts.1 agree, absent.1 present, unregistered.1 known)),
    )
