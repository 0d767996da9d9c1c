-- ===== src/SelfConfig/Actions.antt =====
-- `determineActions` and `checkAllowedActions` of internal/controller/selfconfig_apply.go.
use openclaw_operator.Prelude.{
  ◌≡◌, refl, Bool, true, false, ◌&&◌, ◌||◌, not, Option, none, some, List, [], ◌∷◌, ◌++◌, is_empty,
  arith, if◌then◌else◌, loop,
}
use openclaw_operator.SelfConfig.{
  SelfConfigAction, skills, config, workspace_files, env_vars, OpenClawSelfConfigSpec,
}

abbrev is_some {ℓ} : {A : Type ℓ} → Option A → Bool
is_some none = false
is_some (some a) = true

-- `append(actions, a)` under a test
abbrev append_if : Bool → SelfConfigAction → List SelfConfigAction → List SelfConfigAction
append_if b a actions = if b then actions ++ a ∷ [] else actions

unfoldable pub determine_actions : OpenClawSelfConfigSpec → List SelfConfigAction
determine_actions sc =
    let with_skills =
      append_if (not (is_empty sc.add_skills) || not (is_empty sc.remove_skills)) skills [] in
    let with_config = append_if (is_some sc.config_patch) config with_skills in
    let with_files =
      append_if (not (is_empty sc.add_workspace_files) || not (is_empty sc.remove_workspace_files))
        workspace_files with_config in
    append_if (not (is_empty sc.add_env_vars) || not (is_empty sc.remove_env_vars)) env_vars
      with_files

-- Go's `==` on actions.
abbrev pub same_action : SelfConfigAction → SelfConfigAction → Bool
same_action skills skills = true
same_action config config = true
same_action workspace_files workspace_files = true
same_action env_vars env_vars = true
same_action _ _ = false

-- A lookup in the map that the loop over a list of actions fills.
unfoldable pub has_action : List SelfConfigAction → SelfConfigAction → Bool
has_action [] a = false
has_action (b ∷ l) a = same_action b a || has_action l a

unfoldable pub check_allowed_actions :
    List SelfConfigAction → List SelfConfigAction → List SelfConfigAction
check_allowed_actions requested allowed =
    loop (λ denied a. if has_action allowed a then denied else denied ++ a ∷ []) [] requested

-- What a request asks for, read off its fields.
abbrev pub asks : OpenClawSelfConfigSpec → SelfConfigAction → Bool
asks sc skills = not (is_empty sc.add_skills) || not (is_empty sc.remove_skills)
asks sc config = is_some sc.config_patch
asks sc workspace_files =
    not (is_empty sc.add_workspace_files) || not (is_empty sc.remove_workspace_files)
asks sc env_vars = not (is_empty sc.add_env_vars) || not (is_empty sc.remove_env_vars)

has_action-append :
    (xs ys : List SelfConfigAction) (a : SelfConfigAction)
    → has_action (xs ++ ys) a ≡ (has_action xs a || has_action ys a)
unfolding has_action
has_action-append [] ys a = refl
has_action-append (x ∷ xs) ys a = ground (arith, has_action-append xs ys a)

abbrev deny :
    List SelfConfigAction → List SelfConfigAction → SelfConfigAction → List SelfConfigAction
deny allowed denied a = if has_action allowed a then denied else denied ++ a ∷ []

same_action→eq : (a b : SelfConfigAction) → same_action a b ≡ true → a ≡ b
same_action→eq a b h = ground arith

has_action-loop :
    (allowed requested denied : List SelfConfigAction) (a : SelfConfigAction)
    → has_action (loop (deny allowed) denied requested) a
      ≡ (has_action denied a || (has_action requested a && not (has_action allowed a)))
unfolding has_action
has_action-loop allowed [] denied a = ground arith
has_action-loop allowed (x ∷ xs) denied a = ground (
  arith,
  has_action-loop allowed xs denied a,
  has_action-loop allowed xs (denied ++ x ∷ []) a,
  has_action-append denied (x ∷ []) a,
  same_action→eq x a,
)

-- An action is denied exactly when it is requested and not in the allowed list.
pub has_action-check_allowed_actions :
    (requested allowed : List SelfConfigAction) (a : SelfConfigAction)
    → has_action (check_allowed_actions requested allowed) a
      ≡ (has_action requested a && not (has_action allowed a))
unfolding check_allowed_actions has_action
has_action-check_allowed_actions requested allowed a = has_action-loop allowed requested [] a

-- The actions that are determined are exactly those for which the request sets a field.
pub has_action-determine_actions :
    (sc : OpenClawSelfConfigSpec) (a : SelfConfigAction)
    → has_action (determine_actions sc) a ≡ asks sc a
unfolding determine_actions has_action
has_action-determine_actions sc skills = ground arith
has_action-determine_actions sc config = ground arith
has_action-determine_actions sc workspace_files = ground arith
has_action-determine_actions sc env_vars = ground arith

-- Nothing is denied exactly when every field that the request sets is of an allowed action.
pub nothing_denied :
    (sc : OpenClawSelfConfigSpec) (allowed : List SelfConfigAction)
    → check_allowed_actions (determine_actions sc) allowed ≡ []
    → (a : SelfConfigAction) → asks sc a ≡ true
    → has_action allowed a ≡ true
unfolding has_action
nothing_denied sc allowed h a asked = ground (
  arith,
  has_action-check_allowed_actions (determine_actions sc) allowed a,
  has_action-determine_actions sc a,
)
