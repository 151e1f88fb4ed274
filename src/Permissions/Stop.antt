-- ===== src/Permissions/Stop.antt =====
-- The emergency stop of `decideWrite` of app/permissions.ts: the variable that is read, and its value.
use admissorium.Prelude.{
  String, ◌≡◌, refl, sym, ◌∙◌, ◌↔◌, true, false, Option, none, some, arith, eq_iff,
}
use mathlib.Core.Option.{some_inj}
use admissorium.Text.{◌⧺◌}
use admissorium.Js.{is_set_to, or_also, or_text}
use admissorium.Permissions.Policy.{WriteSwitch, PermissionPolicy, with_permission_defaults}
use admissorium.Permissions.Decision.{
  switch_variable, is_write_disabled, PathDecision, WriteInput, WriteDecision, deny_write_disabled,
  Surroundings, given_permission_policy, permission_policy_of, decide_write, stopped, settled,
}
use admissorium.Permissions.Writes.{decide_write-Ran, given_path, env_of}

abbrev variable_of : Option WriteSwitch → Option String
variable_of none = none
variable_of (some switch) = switch.write_disabled_variable

-- The variable that a policy means: the one that `emergency_stop` names, or else `environment`, or else
-- ADMISSORIUM_WRITE_DISABLED, which stands also for an empty name.
abbrev pub switch_name : PermissionPolicy → String
switch_name policy =
    or_text (or_also (variable_of policy.emergency_stop) (variable_of policy.environment))
      "ADMISSORIUM_WRITE_DISABLED"

is_set_to_iff : (o : Option String) (s : String) → (is_set_to o s ≡ true) ↔ (o ≡ some s)
is_set_to_iff none s = ground arith
is_set_to_iff (some v) s = ground (arith, eq_iff v s)

-- filling in the defaults, once or twice, keeps the variable
switch_variable-defaults :
    (policy : PermissionPolicy)
    → (switch_variable (with_permission_defaults policy) ≡ switch_name policy)
      × (switch_variable (with_permission_defaults (with_permission_defaults policy))
          ≡ switch_name policy)
unfolding switch_variable with_permission_defaults
switch_variable-defaults policy = ground arith

module _ (around : Surroundings) (input : WriteInput) (policy : PermissionPolicy) where
  abbrev pub IsSwitchedOff : Type 0
  IsSwitchedOff = env_of around input (switch_name policy) ≡ some "true"

  abbrev filled : PermissionPolicy
  filled = with_permission_defaults policy

  is_write_disabled_iff : (is_write_disabled filled (env_of around input) ≡ true) ↔ IsSwitchedOff
  unfolding is_write_disabled
  is_write_disabled_iff =
      rw (switch_variable-defaults policy).1
        (is_set_to_iff (env_of around input (switch_name policy)) "true")

  given_path-stopped :
      (p : PathDecision)
      → (((given_path around input filled p).verdict ≡ deny_write_disabled) ↔ IsSwitchedOff)
        × (IsSwitchedOff
            → ((given_path around input filled p).allowed ≡ false)
              × ((given_path around input filled p).reason
                  ≡ switch_name policy ⧺ " disables actuator writes."))
  given_path-stopped p =
      let off = is_write_disabled_iff in
      let name = (switch_variable-defaults policy).0 in
      (
        (
          (λ v. off.0 (unfold stopped settled in ground arith)),
          (λ h. let on = off.1 h in rw on (unfold stopped in refl)),
        ),
        (λ h. let on = off.1 h in rw on (unfold stopped in (refl, rw name refl))),
      )

  -- If a policy is given or else read from its file, then the decision is that of the emergency stop
  -- exactly if the variable that the policy means has the value "true"; no other value stops anything.
  -- Then nothing is allowed, and the reason names the variable.
  pub decide_write-stopped :
      (d : WriteDecision)
      → given_permission_policy around input ≡ some policy
      → decide_write around input ≡ some d
      → ((d.verdict ≡ deny_write_disabled) ↔ IsSwitchedOff)
        × (IsSwitchedOff
            → (d.allowed ≡ false) × (d.reason ≡ switch_name policy ⧺ " disables actuator writes."))
  decide_write-stopped d given e =
      let ran = decide_write-Ran around input d e in
      let read : permission_policy_of around input ≡ some filled =
        unfold permission_policy_of in rw given refl in
      let same = some_inj.0 (sym ran.read ∙ read) in
      rw (← ran.made, same) (given_path-stopped ran.path)
