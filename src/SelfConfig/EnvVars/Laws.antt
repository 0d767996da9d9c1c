-- ===== src/SelfConfig/EnvVars/Laws.antt =====
-- What an applied request does to the environment variables of each name.
use openclaw_operator.Prelude.{
  String, ◌≡◌, refl, sym, ◌∙◌, ap, true, false, none, List, [], ◌∷◌, ◌++◌, arith, ◌==◌, eq_iff,
  if◌then◌else◌, loop, contains, ok, append-nil, append_assoc, >>=-eq-ok, Option-cases, Bool-cases,
  inl, inr,
}
use openclaw_operator.GoMap.{GoMap, get, set, get-set}
use openclaw_operator.SelfConfig.{OpenClawSelfConfigSpec, SelfConfigEnvVar, EnvVar}
use openclaw_operator.SelfConfig.EnvVars.{
  is_protected, check_adds, check_removes, add_by_name, Env, plain, append_env, keep_env, add_env,
  merge_env, build_env_apply,
}

-- The variables of one name, in order.
unfoldable pub entries : String → List EnvVar → List EnvVar
entries n [] = []
entries n (ev ∷ evs) = let rest = entries n evs in if ev.name == n then ev ∷ rest else rest

-- The names that a request adds.
unfoldable pub add_names : List SelfConfigEnvVar → List String
add_names [] = []
add_names (ev ∷ evs) = ev.name ∷ add_names evs

entries-append :
    (n : String) (xs ys : List EnvVar) → entries n (xs ++ ys) ≡ entries n xs ++ entries n ys
unfolding entries
entries-append n [] ys = refl
entries-append n (x ∷ xs) ys = ground (arith, entries-append n xs ys)

-- A name that is not among the additions has no entry in `addByName`.
get-add_loop :
    (n : String) (m : GoMap String) (evs : List SelfConfigEnvVar)
    → contains (add_names evs) n ≡ false
    → get n (loop (λ m (ev : SelfConfigEnvVar). set ev.name ev.value m) m evs) ≡ get n m
unfolding contains add_names
get-add_loop n m [] h = refl
get-add_loop n m (ev ∷ evs) h =
    get-add_loop n (set ev.name ev.value m) evs (ground arith)
    ∙ ground (arith, get-set ev.name n ev.value m)

get-add_by_name :
    (n : String) (evs : List SelfConfigEnvVar)
    → contains (add_names evs) n ≡ false
    → get n (add_by_name evs) ≡ none
unfolding add_by_name get
get-add_by_name n evs h = get-add_loop n [] evs h

pub entries-append_env :
    (n : String) (m : Env) (ev : EnvVar)
    → entries n (append_env m ev).result
      ≡ (if ev.name == n then entries n m.result ++ ev ∷ [] else entries n m.result)
unfolding entries
entries-append_env n m ev =
    ground (arith, entries-append n m.result (ev ∷ []), append-nil (entries n m.result))

module _ (n : String) (r : List String) (adds : GoMap String) where
  -- A round leaves the entries of every other name as they are.
  entries-keep_env_ne :
      (m : Env) (ev : EnvVar)
      → (ev.name == n) ≡ false
      → entries n (keep_env r adds m ev).result ≡ entries n m.result
  unfolding keep_env
  entries-keep_env_ne m ev h = elim (Option-cases (get ev.name adds)) [
    | inl missing ↦ ground (arith, entries-append_env n m ev)
    | inr (val, found) ↦ ground (arith, entries-append_env n m (plain ev.name val))
  ]

  module _ (not_removed : contains r n ≡ false) where
    entries-keep_env :
        (m : Env) (ev : EnvVar)
        → get n adds ≡ none
        → entries n (keep_env r adds m ev).result ≡ entries n m.result ++ entries n (ev ∷ [])
    unfolding keep_env entries
    entries-keep_env m ev ha = elim (Bool-cases (ev.name == n)) [
      | inl same ↦ ground (arith, entries-append_env n m ev, eq_iff ev.name n)
      | inr other ↦ ground (arith, entries-keep_env_ne m ev, append-nil (entries n m.result))
    ]

    entries-loop_keep :
        (m : Env) (xs : List EnvVar)
        → get n adds ≡ none
        → entries n (loop (keep_env r adds) m xs).result ≡ entries n m.result ++ entries n xs
    unfolding entries
    entries-loop_keep m [] ha = sym (append-nil (entries n m.result))
    entries-loop_keep m (x ∷ xs) ha =
        entries-loop_keep (keep_env r adds m x) xs ha
        ∙ ap (λ l. l ++ entries n xs) (entries-keep_env m x ha)
        ∙ append_assoc (entries n m.result) (entries n (x ∷ [])) (entries n xs)
        ∙ ap (λ l. entries n m.result ++ l) (sym (entries-append n (x ∷ []) xs))

entries-loop_add :
    (n : String) (m : Env) (evs : List SelfConfigEnvVar)
    → contains (add_names evs) n ≡ false
    → entries n (loop add_env m evs).result ≡ entries n m.result
unfolding add_env contains add_names
entries-loop_add n m [] h = refl
entries-loop_add n m (ev ∷ evs) h =
    entries-loop_add n (add_env m ev) evs (ground arith)
    ∙ ground (arith, entries-append_env n m (plain ev.name ev.value))

-- A request leaves the variables of a name that it neither adds nor removes as they are: the
-- number of them, their order, their values and their sources.
entries-merge_env :
    (n : String) (current : List EnvVar) (sc : OpenClawSelfConfigSpec)
    → contains (add_names sc.add_env_vars) n ≡ false
    → contains sc.remove_env_vars n ≡ false
    → entries n (merge_env current sc) ≡ entries n current
unfolding merge_env entries
entries-merge_env n current sc ha hr =
    let adds = add_by_name sc.add_env_vars in
    let start : Env = record { seen = []; result = [] } in
    entries-loop_add n (loop (keep_env sc.remove_env_vars adds) start current) sc.add_env_vars ha
    ∙ entries-loop_keep n sc.remove_env_vars adds hr start current
        (get-add_by_name n sc.add_env_vars ha)

check_adds_sound :
    (n : String) (evs : List SelfConfigEnvVar)
    → check_adds evs ≡ ok tt
    → is_protected n ≡ true
    → contains (add_names evs) n ≡ false
unfolding check_adds contains add_names
check_adds_sound n [] h p = refl
check_adds_sound n (ev ∷ evs) h p = ground (arith, check_adds_sound n evs, eq_iff ev.name n)

check_removes_sound :
    (n : String) (names : List String)
    → check_removes names ≡ ok tt
    → is_protected n ≡ true
    → contains names n ≡ false
unfolding check_removes contains
check_removes_sound n [] h p = refl
check_removes_sound n (x ∷ xs) h p = ground (arith, check_removes_sound n xs, eq_iff x n)

-- A request that is accepted leaves every variable of a protected name as it is.
pub entries-build_env_apply :
    (n : String) (current : List EnvVar) (sc : OpenClawSelfConfigSpec) (env : List EnvVar)
    → build_env_apply current sc ≡ ok env
    → is_protected n ≡ true
    → entries n env ≡ entries n current
unfolding build_env_apply
entries-build_env_apply n current sc env h p =
    let (u, adds_ok, h') = >>=-eq-ok (check_adds sc.add_env_vars) _ h in
    let (v, removes_ok, h'') = >>=-eq-ok (check_removes sc.remove_env_vars) _ h' in
    let same : merge_env current sc ≡ env = cc in
    rw (← same) (
      entries-merge_env n current sc (check_adds_sound n sc.add_env_vars adds_ok p)
        (check_removes_sound n sc.remove_env_vars removes_ok p))
