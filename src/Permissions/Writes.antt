-- ===== src/Permissions/Writes.antt =====
-- What `decideWrite` of app/permissions.ts allows.
use admissorium.Prelude.{
  String, ◌≡◌, sym, ◌∙◌, not, ◌↔◌, ◌⊎◌, inl, inr, eq_iff, Bool, true, false, none, some, [], arith,
  Bool-cases, includes, if◌then◌else◌,
}
use admissorium.Text.{to_upper_case}
use admissorium.Js.{Env, or_else}
use admissorium.Fallible.{>>=-eq-some}
use admissorium.Permissions.Policy.{
  Flags, PermissionPolicy, ProtectedPathClass, ProtectedPathsPolicy,
}
use admissorium.Permissions.Decision.{
  protected_path_class_for, PathDecision, protected_path_decision, is_write_disabled, WriteInput,
  allow, deny_write_disabled, WriteDecision, mode_of, mode_flags, report_classes, remote_classes,
  permitted, write_class_of, changed_paths_of, executes, Surroundings, permission_policy_of,
  protected_policy_of, decide_write, switch_variable, stopped, settled,
}
use admissorium.Permissions.Paths.{touched_of_mem}
use mathlib.Core.List.{Memᴰ}
use mathlib.Core.Option.{some_inj}
use mathlib.Core.Path.{subst}

abbrev pub IsReport : String → Type 0
IsReport write_class = includes report_classes write_class ≡ true

module _ (flags : Flags) (mode write_class : String) (touched : Bool) where
  abbrev allowed_class : Bool
  allowed_class = (permitted flags mode write_class touched).by_class

  audit_reports : allowed_class ≡ true → mode ≡ "audit" → IsReport write_class
  unfolding permitted
  audit_reports h m = ground (arith, eq_iff mode "audit")

  protected_reports :
      allowed_class ≡ true → touched ≡ true → (write_class ≡ "CHECK_RUN") ⊎ IsReport write_class
  unfolding permitted
  protected_reports h t = ground (arith, eq_iff write_class "CHECK_RUN")

settled-pull_request :
    (flags : Flags) (p : PathDecision) (execute : Bool)
    → p.touched ≡ false
    → ((settled "PROJECTION_REPAIR_PR" execute
          (permitted flags "projection_repair" "PROJECTION_REPAIR_PR" p.touched)
          p).allowed
        ≡ true)
      × ((settled "PROJECTION_REPAIR_PR" execute
            (permitted flags "projection_repair" "PROJECTION_REPAIR_PR" p.touched)
            p).dry_run
          ≡ not execute)
unfolding settled permitted
settled-pull_request flags p execute t = ground arith

module _ (around : Surroundings) (input : WriteInput) where
  abbrev pub class_of : String
  class_of = to_upper_case around.capitals (write_class_of input)

  abbrev pub env_of : Env
  env_of = or_else input.env around.process_env

  -- whether the policy that is read stops writing
  abbrev pub is_stopped : Bool
  is_stopped = elim (permission_policy_of around input) [
    | none ↦ false
    | some policy ↦ is_write_disabled policy env_of
  ]

  -- What an allowed write has passed.
  pub record IsJustified (d : WriteDecision) : Type 0 where
    pub not_stopped : is_stopped ≡ false
    pub audit_reports : mode_of input.mode ≡ "audit" → IsReport class_of
    pub protected_reports : d.path_touched ≡ true → (class_of ≡ "CHECK_RUN") ⊎ IsReport class_of
    pub remote_executes : includes remote_classes class_of ≡ true → executes input ≡ true
    pub verdict : d.verdict ≡ allow

  abbrev pub given_flags : PermissionPolicy → Flags
  given_flags policy = mode_flags (or_else policy.modes []) (mode_of input.mode)

  -- `decideWrite` behind its policy and the decision about the paths
  abbrev pub given_path : PermissionPolicy → PathDecision → WriteDecision
  given_path policy p =
      if is_write_disabled policy env_of
      then stopped (switch_variable policy) p
      else settled class_of (executes input)
          (permitted (given_flags policy) (mode_of input.mode) class_of p.touched) p

  -- What ran when a decision was made.
  pub record Ran (d : WriteDecision) : Type 0 where
    pub policy : PermissionPolicy
    pub protected : ProtectedPathsPolicy
    pub path : PathDecision
    pub read : permission_policy_of around input ≡ some policy
    pub read_protected : protected_policy_of around input ≡ some protected
    pub decided : protected_path_decision (changed_paths_of input) protected ≡ some path
    pub made : given_path policy path ≡ d

  pub decide_write-Ran : (d : WriteDecision) → decide_write around input ≡ some d → Ran d
  unfolding decide_write
  decide_write-Ran d e =
      let (policy, read, e₁) = >>=-eq-some (permission_policy_of around input) _ e in
      let (protected, read_protected, e₂) = >>=-eq-some (protected_policy_of around input) _ e₁ in
      let (path, decided, e₃) = >>=-eq-some _ (λ p. some (given_path policy p)) e₂ in
      record {
        policy = policy;
        protected = protected;
        path = path;
        read = read;
        read_protected = read_protected;
        decided = decided;
        made = cc;
      }

  is_stopped-read :
      (policy : PermissionPolicy)
      → permission_policy_of around input ≡ some policy
      → is_stopped ≡ is_write_disabled policy env_of
  is_stopped-read policy read = rw (read, is_stopped)

  given_path-IsJustified :
      (policy : PermissionPolicy) (p : PathDecision)
      → permission_policy_of around input ≡ some policy
      → (given_path policy p).allowed ≡ true
      → IsJustified (given_path policy p)
  unfolding settled stopped
  given_path-IsJustified policy p read a = elim (Bool-cases (is_write_disabled policy env_of)) [
    | inl on ↦ cc (on, a)
    | inr off ↦
        let by_class : allowed_class (given_flags policy) (mode_of input.mode) class_of p.touched
            ≡ true =
          ground arith in
        record {
          not_stopped = is_stopped-read policy read ∙ off;
          audit_reports =
              audit_reports (given_flags policy) (mode_of input.mode) class_of p.touched by_class;
          protected_reports = λ t.
              protected_reports (given_flags policy) (mode_of input.mode) class_of p.touched
                by_class (ground arith);
          remote_executes = λ r. ground arith;
          verdict = ground arith;
        }
  ]

  -- A write that is allowed passed every guard.
  pub decide_write-IsJustified :
      (d : WriteDecision) → decide_write around input ≡ some d → d.allowed ≡ true → IsJustified d
  decide_write-IsJustified d e a =
      let ran = decide_write-Ran d e in
      rw (← ran.made) (given_path-IsJustified ran.policy ran.path ran.read (rw ran.made a))

  -- The verdict is that of the emergency stop exactly under a stop.
  pub decide_write-is_stopped :
      (d : WriteDecision)
      → decide_write around input ≡ some d
      → (d.verdict ≡ deny_write_disabled) ↔ (is_stopped ≡ true)
  decide_write-is_stopped d e =
      let ran = decide_write-Ran d e in
      rw (← ran.made) (let read = ran.read in unfold stopped settled in ground arith)

  path_touched-given_path :
      (policy : PermissionPolicy) (p : PathDecision)
      → (given_path policy p).path_touched ≡ p.touched
  unfolding stopped settled
  path_touched-given_path policy p = ground arith

  -- A changed path that belongs to a class of the policy that is read is noticed, and nothing but a
  -- check run or a report is allowed beside it.
  pub decide_write-protected :
      (d : WriteDecision) (policy : ProtectedPathsPolicy) (path : String) (c : ProtectedPathClass)
      → decide_write around input ≡ some d
      → protected_policy_of around input ≡ some policy
      → Memᴰ path (changed_paths_of input)
      → protected_path_class_for path policy ≡ some (some c)
      → (d.path_touched ≡ true) × (d.allowed ≡ true → (class_of ≡ "CHECK_RUN") ⊎ IsReport class_of)
  decide_write-protected d policy path c e read listed hit =
      let ran = decide_write-Ran d e in
      let decided =
        subst (λ p. protected_path_decision (changed_paths_of input) p ≡ some ran.path)
          (some_inj.0 (sym ran.read_protected ∙ read)) ran.decided in
      let touched : d.path_touched ≡ true =
        rw (← ran.made, path_touched-given_path) (touched_of_mem _ _ _ c decided listed hit) in
      (touched, λ a. (decide_write-IsJustified d e a).protected_reports touched)

  -- Outside the emergency stop, a projection repair that is not a branch write is allowed in
  -- `projection_repair` mode whether or not execution was asked for, and is still called a dry run.
  pub decide_write-pull_request :
      (d : WriteDecision)
      → decide_write around input ≡ some d
      → class_of ≡ "PROJECTION_REPAIR_PR"
      → mode_of input.mode ≡ "projection_repair"
      → is_stopped ≡ false
      → d.path_touched ≡ false
      → (d.allowed ≡ true) × (d.dry_run ≡ not (executes input))
  decide_write-pull_request d e c m s t =
      let ran = decide_write-Ran d e in
      let live = sym (is_stopped-read ran.policy ran.read) ∙ s in
      let untouched : ran.path.touched ≡ false =
        sym (path_touched-given_path ran.policy ran.path) ∙ rw (← ran.made) at t in
      rw (← ran.made) (rw (live, c, m) (settled-pull_request _ ran.path (executes input) untouched))
