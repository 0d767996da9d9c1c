-- ===== src/SelfConfig/EnvVars/Twice.antt =====
-- What a request that names a variable twice does when it is applied once, and again.
use openclaw_operator.Prelude.{
  String, ◌≡◌, refl, sym, ◌∙◌, true, false, not, ◌||◌, Option, none, some, List, [], ◌∷◌, ◌++◌,
  arith, ◌==◌, eq_iff, if◌then◌else◌, loop, contains, is_empty, append_assoc, append-nil,
  Option-cases, inl, inr,
}
use openclaw_operator.GoMap.{GoMap, get, set, get-set, or_else}
use openclaw_operator.SelfConfig.{OpenClawSelfConfigSpec, SelfConfigEnvVar, EnvVar}
use openclaw_operator.SelfConfig.EnvVars.{add_by_name, Env, plain, keep_env, add_env, merge_env}
use openclaw_operator.SelfConfig.EnvVars.Laws.{entries, entries-append_env}

-- The value that the first addition of a name asks for, and the last.
unfoldable pub first_value : String → List SelfConfigEnvVar → Option String
first_value n [] = none
first_value n (ev ∷ evs) =
    let rest = first_value n evs in if ev.name == n then some ev.value else rest

unfoldable pub last_value : String → List SelfConfigEnvVar → Option String
last_value n [] = none
last_value n (ev ∷ evs) = elim (last_value n evs) [
  | some v ↦ some v
  | none ↦ if ev.name == n then some ev.value else none
]

abbrev as_entry : String → Option String → List EnvVar
as_entry n none = []
as_entry n (some v) = plain n v ∷ []

-- As many entries of a value as there are entries.
abbrev replaced : EnvVar → List EnvVar → List EnvVar
replaced e [] = []
replaced e (x ∷ l) = e ∷ replaced e l

module _ (n b : String) (r : List String) (adds : GoMap String) (found : get n adds ≡ some b)
    (asked : contains r n ≡ false) where
  entries-keep_env :
      (m : Env) (x : EnvVar)
      → entries n (keep_env r adds m x).result
        ≡ (if x.name == n then entries n m.result ++ plain n b ∷ [] else entries n m.result)
  unfolding keep_env
  entries-keep_env m x = elim (Option-cases (get x.name adds)) [
    | inl missing ↦ ground (arith, found, asked, missing, eq_iff x.name n, entries-append_env n m x)
    | inr (val, there) ↦
        ground
          (arith, found, asked, there, eq_iff x.name n, entries-append_env n m (plain x.name val))
  ]

  seen-keep_env :
      (m : Env) (x : EnvVar)
      → contains (keep_env r adds m x).seen n ≡ (x.name == n || contains m.seen n)
  unfolding keep_env contains
  seen-keep_env m x = elim (Option-cases (get x.name adds)) [
    | inl missing ↦ ground (arith, found, asked, missing, eq_iff x.name n)
    | inr (val, there) ↦ ground (arith, found, asked, there, eq_iff x.name n)
  ]

  loop_keep :
      (m : Env) (xs : List EnvVar)
      → let kept = loop (keep_env r adds) m xs in
        (entries n kept.result ≡ entries n m.result ++ replaced (plain n b) (entries n xs))
        × (contains kept.seen n ≡ (not (is_empty (entries n xs)) || contains m.seen n))
  unfolding entries
  loop_keep m [] = (sym (append-nil (entries n m.result)), refl)
  loop_keep m (x ∷ xs) =
      let (e, s) = loop_keep (keep_env r adds m x) xs in
      let more =
        append_assoc (entries n m.result) (plain n b ∷ []) (replaced (plain n b) (entries n xs)) in
      ground (arith, e, s, more, entries-keep_env m x, seen-keep_env m x)

entries-loop_add :
    (n : String) (m : Env) (evs : List SelfConfigEnvVar)
    → entries n (loop add_env m evs).result ≡ (
        if contains m.seen n
        then entries n m.result
        else entries n m.result ++ as_entry n (first_value n evs))
unfolding add_env contains first_value
entries-loop_add n m [] = ground (arith, append-nil (entries n m.result))
entries-loop_add n m (ev ∷ evs) =
    entries-loop_add n (add_env m ev) evs
    ∙ ground (arith, eq_iff ev.name n, entries-append_env n m (plain ev.name ev.value))

get-add_loop :
    (n : String) (m : GoMap String) (evs : List SelfConfigEnvVar)
    → get n (loop (λ m (ev : SelfConfigEnvVar). set ev.name ev.value m) m evs)
      ≡ or_else (last_value n evs) (get n m)
unfolding last_value
get-add_loop n m [] = refl
get-add_loop n m (ev ∷ evs) = elim (Option-cases (last_value n evs)) [
  | inl missing ↦
      ground
        (arith, missing, get-add_loop n (set ev.name ev.value m) evs, get-set ev.name n ev.value m)
  | inr (v, there) ↦ ground (arith, there, get-add_loop n (set ev.name ev.value m) evs)
]

get-add_by_name :
    (n b : String) (evs : List SelfConfigEnvVar)
    → last_value n evs ≡ some b
    → get n (add_by_name evs) ≡ some b
unfolding add_by_name
get-add_by_name n b evs h = ground (arith, h, get-add_loop n [] evs)

-- Both loops, for the entries of a name that is added and not removed.
entries-merge_env :
    (n a b : String) (current : List EnvVar) (sc : OpenClawSelfConfigSpec)
    → contains sc.remove_env_vars n ≡ false
    → first_value n sc.add_env_vars ≡ some a
    → last_value n sc.add_env_vars ≡ some b
    → entries n (merge_env current sc) ≡ (
        if is_empty (entries n current)
        then plain n a ∷ []
        else replaced (plain n b) (entries n current))
unfolding merge_env entries contains
entries-merge_env n a b current sc asked first last =
    let adds = add_by_name sc.add_env_vars in
    let start : Env = record { seen = []; result = [] } in
    let kept =
      loop_keep n b sc.remove_env_vars adds (get-add_by_name n b sc.add_env_vars last) asked start
        current in
    let grown =
      entries-loop_add n (loop (keep_env sc.remove_env_vars adds) start current) sc.add_env_vars in
    grown ∙ by (entries n current) kept.0 kept.1
  where
    by :
        (l : List EnvVar)
        → entries n
            (loop
              (keep_env sc.remove_env_vars (add_by_name sc.add_env_vars))
              (record { seen = []; result = [] })
              current).result
          ≡ replaced (plain n b) l
        → contains
            (loop
              (keep_env sc.remove_env_vars (add_by_name sc.add_env_vars))
              (record { seen = []; result = [] })
              current).seen
            n
          ≡ (not (is_empty l) || false)
        → (if contains
              (loop
                (keep_env sc.remove_env_vars (add_by_name sc.add_env_vars))
                (record { seen = []; result = [] })
                current).seen
              n
            then entries n
                (loop
                  (keep_env sc.remove_env_vars (add_by_name sc.add_env_vars))
                  (record { seen = []; result = [] })
                  current).result
            else entries n
                (loop
                  (keep_env sc.remove_env_vars (add_by_name sc.add_env_vars))
                  (record { seen = []; result = [] })
                  current).result
              ++ as_entry n (first_value n sc.add_env_vars))
          ≡ (if is_empty l then plain n a ∷ [] else replaced (plain n b) l)
    by [] e s = ground (arith, e, s, first)
    by (x ∷ l) e s = ground (arith, e, s)

-- A request that adds a name and does not remove it gives a variable that is not there the value of
-- its first addition of the name, and when the same request is applied again the value of its last.
pub merge_env_twice :
    (n a b : String) (current : List EnvVar) (sc : OpenClawSelfConfigSpec)
    → contains sc.remove_env_vars n ≡ false
    → first_value n sc.add_env_vars ≡ some a
    → last_value n sc.add_env_vars ≡ some b
    → is_empty (entries n current) ≡ true
    → let once = merge_env current sc in
      (entries n once ≡ plain n a ∷ []) × (entries n (merge_env once sc) ≡ plain n b ∷ [])
merge_env_twice n a b current sc asked first last missing =
    let once = merge_env current sc in
    let added : entries n once ≡ plain n a ∷ [] =
      entries-merge_env n a b current sc asked first last ∙ rw missing refl in
    (added, entries-merge_env n a b once sc asked first last ∙ rw added refl)
