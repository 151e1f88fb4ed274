-- ===== src/Permissions/Defaults.antt =====
-- Filling a policy of app/permissions.ts with its defaults a second time, as `decideWrite` and the
-- functions it calls do, changes nothing that they read.
use admissorium.Prelude.{
  String, ◌≡◌, refl, ap, ◌∙◌, ◌==◌, false, Option, none, some, List, [], ◌∷◌, ◌++◌, map, arith,
  Bool-cases, inl, inr,
}
use admissorium.Text.{is_empty}
use admissorium.Js.{Env, is_set_to, or_else, or_also, or_text}
use admissorium.Permissions.Policy.{
  WriteSwitch, IfTouched, PermissionPolicy, ProtectedPathClass, ProtectedPathsPolicy, lookup,
  default_variable, default_protected_classes, spread_switch, default_if_touched, spread_if_touched,
  with_permission_defaults, or_also_text, canonical_id, normalize_protected_class,
  with_protected_path_defaults,
}
use mathlib.Core.Option
use admissorium.Permissions.Decision.{switch_variable, is_write_disabled, mode_flags}

-- A property of the renamed id: it has to hold of the four new names, and of a name that is kept.
canonical_id_cases :
    (P : String → Type 0) (raw : String)
    → P "verification-results"
    → P "terminal-recognition"
    → P "terminal-recourse"
    → P "continuity-transfer"
    → (canonical_id raw ≡ raw → P raw)
    → P (canonical_id raw)
unfolding canonical_id
canonical_id_cases P raw a b c d kept = elim (Bool-cases (raw == "verification")) [
  | inl x ↦ rw x a
  | inr x ↦ elim (Bool-cases (raw == "recognition")) [
    | inl y ↦ rw (x, y) b
    | inr y ↦ elim (Bool-cases (raw == "recourse")) [
      | inl z ↦ rw (x, y, z) c
      | inr z ↦ elim (Bool-cases (raw == "continuity")) [
        | inl w ↦ rw (x, y, z, w) d
        | inr w ↦ rw (x, y, z, w) (kept (rw (x, y, z, w)))
      ]
    ]
  ]
]

-- Renaming twice is renaming once.
canonical_id_idem : (raw : String) → canonical_id (canonical_id raw) ≡ canonical_id raw
canonical_id_idem raw =
    canonical_id_cases (λ s. canonical_id s ≡ s) raw (unfold canonical_id in refl)
      (unfold canonical_id in refl) (unfold canonical_id in refl) (unfold canonical_id in refl)
      (λ k. k)

canonical_id-filled : (raw : String) → is_empty raw ≡ false → is_empty (canonical_id raw) ≡ false
canonical_id-filled raw =
    canonical_id_cases (λ s. is_empty raw ≡ false → is_empty s ≡ false) raw (λ _. refl) (λ _. refl)
      (λ _. refl) (λ _. refl) (λ _ h. h)

abbrev merged : Option String → Option String → Option String
merged id class = Option.map canonical_id (or_also_text id class)

merged_again :
    (id class : Option String)
    → merged (merged id class) (or_also_text class (merged id class)) ≡ merged id class
merged_again none none = refl
merged_again none (some t) = ground (arith, canonical_id_idem t)
merged_again (some s) none = ground (arith, canonical_id_idem s)
merged_again (some s) (some t) =
    ground (arith, canonical_id_idem s, canonical_id_idem t, canonical_id-filled s)

or_also_text_again : (a b : Option String) → or_also_text (or_also_text a b) b ≡ or_also_text a b
or_also_text_again a b = ground arith

-- An entry that is already in normal form stays as it is.
normalize_protected_class_idem :
    (entry : ProtectedPathClass)
    → normalize_protected_class (normalize_protected_class entry) ≡ normalize_protected_class entry
unfolding normalize_protected_class
normalize_protected_class_idem entry =
    let same = merged_again entry.id entry.class in
    let class =
      ap (or_also_text (or_also_text entry.class (merged entry.id entry.class))) same
      ∙ or_also_text_again entry.class (merged entry.id entry.class) in
    λ i. record {
      id = same i;
      class = class i;
      paths = some (
          or_else
            (or_also entry.paths (or_also entry.path_patterns (or_also entry.patterns entry.globs)))
            []);
      path_patterns = none;
      patterns = none;
      globs = none;
    }

lookup-append :
    {A : Type 0} (xs ys : List (String × A)) (key : String)
    → lookup (xs ++ ys) key ≡ or_also (lookup xs key) (lookup ys key)
unfolding lookup
lookup-append [] ys key = refl
lookup-append ((k, v) ∷ xs) ys key = ground (arith, lookup-append xs ys key)

map_idem :
    (entries : List ProtectedPathClass)
    → map normalize_protected_class (map normalize_protected_class entries)
      ≡ map normalize_protected_class entries
map_idem [] = refl
map_idem (entry ∷ entries) = cc (normalize_protected_class_idem entry, map_idem entries)

or_text_again : (o : Option String) (d : String) → or_text (some (or_text o d)) d ≡ or_text o d
or_text_again o d = ground arith

or_also_again : {A : Type 0} (a b : Option A) → or_also (or_also a b) b ≡ or_also a b
or_also_again a b = ground arith

if_touched_again :
    (o : Option IfTouched)
    → spread_if_touched default_if_touched (some (spread_if_touched default_if_touched o))
      ≡ spread_if_touched default_if_touched o
if_touched_again none = refl
if_touched_again (some b) = λ i. record {
  automatic_projection_repair_allowed =
      or_also_again b.automatic_projection_repair_allowed (some false) i;
  direct_write_allowed = or_also_again b.direct_write_allowed (some false) i;
  required_decision =
      or_also_again b.required_decision (some "GOVERNANCE_REVIEW_REQUIRED_OR_BLOCKED") i;
}

abbrev default_switch : WriteSwitch
default_switch = record { write_disabled_variable = some default_variable }

abbrev filled : Option WriteSwitch → Option WriteSwitch → WriteSwitch
filled environment stop = spread_switch (spread_switch default_switch environment) stop

switch_again :
    (environment stop : Option WriteSwitch)
    → filled (some (filled environment stop)) (some (filled environment stop))
      ≡ filled environment stop
switch_again none none = refl
switch_again none (some b) = ground arith
switch_again (some a) none = ground arith
switch_again (some a) (some b) = ground arith

-- Filling in the defaults of a policy of protected paths twice is the same as doing it once.
with_protected_path_defaults_idem :
    (policy : ProtectedPathsPolicy)
    → with_protected_path_defaults (with_protected_path_defaults policy)
      ≡ with_protected_path_defaults policy
unfolding with_protected_path_defaults
with_protected_path_defaults_idem policy =
    let given =
      or_also policy.protected_classes (or_also policy.protected_classes_camel policy.classes) in
    let same = map_idem (or_else given default_protected_classes) in
    λ i. record {
      policy_type = some (or_text_again policy.policy_type "ADMISSORIUM_PROTECTED_TRUTH_PATHS" i);
      schema_version = some (or_text_again policy.schema_version "1.0.0" i);
      protected_classes = some (same i);
      protected_classes_camel = some (same i);
      classes = none;
      if_touched = some (if_touched_again policy.if_touched i);
    }

-- Filling in the defaults of a permission policy once more changes neither the switch variable, nor
-- whether writing is disabled, nor the flags of any mode.
with_permission_defaults_stable :
    (policy : PermissionPolicy) (env : Env) (mode : String)
    → let once = with_permission_defaults policy in
      let twice = with_permission_defaults once in
      (switch_variable twice ≡ switch_variable once)
      × (is_write_disabled once env ≡ is_write_disabled policy env)
      × (mode_flags (or_else twice.modes []) mode ≡ mode_flags (or_else once.modes []) mode)
unfolding with_permission_defaults switch_variable is_write_disabled mode_flags
with_permission_defaults_stable policy env mode =
    let switch = switch_again policy.environment policy.emergency_stop in
    (
      ap (λ (w : WriteSwitch). or_text w.write_disabled_variable default_variable) switch,
      ap
          (λ (w : WriteSwitch).
            is_set_to (env (or_text w.write_disabled_variable default_variable)) "true")
          switch,
      simp (lookup-append, or_also_again),
    )
