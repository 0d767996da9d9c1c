-- ===== src/SelfConfig/EnvVars/Adds.antt =====
-- What an applied request does to the environment variables that it adds.
use openclaw_operator.Prelude.{
  String, ◌≡◌, true, false, ◌&&◌, is_empty-append, not, some, List, [], ◌∷◌, arith, ◌==◌, eq_iff,
  loop, contains, Option-cases, Bool-cases, inl, inr, ◌⊎◌, is_empty, All, All-append,
}
use openclaw_operator.GoMap.{GoMap, get, set, get-set}
use openclaw_operator.SelfConfig.{OpenClawSelfConfigSpec, SelfConfigEnvVar, EnvVar}
use openclaw_operator.SelfConfig.EnvVars.{
  add_by_name, Env, plain, append_env, keep_env, add_env, merge_env,
}
use openclaw_operator.SelfConfig.EnvVars.Laws.{entries, add_names, entries-append_env}

-- Every addition of the name asks for the value.
abbrev pub AllAsk : String → String → List SelfConfigEnvVar → Type 0
AllAsk n v evs = All (λ (ev : SelfConfigEnvVar). ev.name ≡ n → ev.value ≡ v) evs

module _ (n v : String) where
  abbrev Holds : List EnvVar → Type 0
  Holds l = All (λ e. e ≡ plain n v) (entries n l)

  get-add_loop-some :
      (m : GoMap String) (evs : List SelfConfigEnvVar)
      → AllAsk n v evs
      → (get n m ≡ some v) ⊎ (contains (add_names evs) n ≡ true)
      → get n (loop (λ m (ev : SelfConfigEnvVar). set ev.name ev.value m) m evs) ≡ some v
  unfolding contains add_names
  get-add_loop-some m [] a h = ground arith
  get-add_loop-some m (ev ∷ evs) a h =
      get-add_loop-some (set ev.name ev.value m) evs a.1
        (ground (arith, get-set ev.name n ev.value m, eq_iff ev.name n, a.0))

  Holds-append_env :
      (m : Env) (e : EnvVar)
      → Holds m.result
      → (e.name ≡ n → e ≡ plain n v)
      → Holds (append_env m e).result
  Holds-append_env m e h k = elim (Bool-cases (e.name == n)) [
    | inl same ↦
        rw (entries-append_env n m e, same)
          (All-append _ (entries n m.result) (e ∷ []) h (k ((eq_iff e.name n).0 same), tt))
    | inr other ↦ rw (entries-append_env n m e, other) h
  ]

  -- The set `seen` knows of the name only where the result has an entry of it.
  abbrev IsSound : Env → Type 0
  IsSound m = contains m.seen n ≡ true → is_empty (entries n m.result) ≡ false

  is_empty-append_env :
      (m : Env) (e : EnvVar)
      → is_empty (entries n (append_env m e).result)
        ≡ (not (e.name == n) && is_empty (entries n m.result))
  is_empty-append_env m e =
      rw (entries-append_env n m e) (ground (arith, is_empty-append (entries n m.result) (e ∷ [])))

  module _ (r : List String) (adds : GoMap String) (found : get n adds ≡ some v) where
    Holds-keep_env : (m : Env) (ev : EnvVar) → Holds m.result → Holds (keep_env r adds m ev).result
    unfolding keep_env
    Holds-keep_env m ev h = elim (Option-cases (get ev.name adds)) [
      | inl missing ↦ ground (arith, Holds-append_env m ev)
      | inr (val, there) ↦ ground (arith, Holds-append_env m (plain ev.name val))
    ]

    IsSound-keep_env : (m : Env) (ev : EnvVar) → IsSound m → IsSound (keep_env r adds m ev)
    unfolding keep_env contains
    IsSound-keep_env m ev s k = elim (Option-cases (get ev.name adds)) [
      | inl missing ↦ ground (arith, is_empty-append_env m ev)
      | inr (val, there) ↦ ground (arith, is_empty-append_env m (plain ev.name val))
    ]

    loop_keep :
        (m : Env) (xs : List EnvVar)
        → Holds m.result
        → IsSound m
        → Holds (loop (keep_env r adds) m xs).result × IsSound (loop (keep_env r adds) m xs)
    loop_keep m [] h s = (h, s)
    loop_keep m (x ∷ xs) h s =
        loop_keep (keep_env r adds m x) xs (Holds-keep_env m x h) (IsSound-keep_env m x s)

  Holds-add_env :
      (m : Env) (ev : SelfConfigEnvVar)
      → Holds m.result
      → (ev.name ≡ n → ev.value ≡ v)
      → Holds (add_env m ev).result
  unfolding add_env
  Holds-add_env m ev h a = elim (Bool-cases (contains m.seen ev.name)) [
    | inl old ↦ rw old h
    | inr new ↦ rw new (Holds-append_env m (plain ev.name ev.value) h (λ e. cc (e, a e)))
  ]

  IsSound-add_env : (m : Env) (ev : SelfConfigEnvVar) → IsSound m → IsSound (add_env m ev)
  unfolding add_env contains
  IsSound-add_env m ev s k = ground (arith, is_empty-append_env m (plain ev.name ev.value))

  added :
      (m : Env) (ev : SelfConfigEnvVar)
      → IsSound m
      → (ev.name == n) ≡ true
      → is_empty (entries n (add_env m ev).result) ≡ false
  unfolding add_env
  added m ev s e = ground (arith, eq_iff ev.name n, is_empty-append_env m (plain ev.name ev.value))

  stays :
      (m : Env) (ev : SelfConfigEnvVar)
      → is_empty (entries n m.result) ≡ false
      → is_empty (entries n (add_env m ev).result) ≡ false
  unfolding add_env
  stays m ev e = ground (arith, is_empty-append_env m (plain ev.name ev.value))

  loop_add :
      (m : Env) (evs : List SelfConfigEnvVar)
      → AllAsk n v evs
      → Holds m.result
      → IsSound m
      → (is_empty (entries n m.result) ≡ false) ⊎ (contains (add_names evs) n ≡ true)
      → Holds (loop add_env m evs).result
        × (is_empty (entries n (loop add_env m evs).result) ≡ false)
  unfolding contains add_names
  loop_add m [] a h s e = (h, ground arith)
  loop_add m (ev ∷ evs) a h s e =
      loop_add (add_env m ev) evs a.1 (Holds-add_env m ev h a.0) (IsSound-add_env m ev s)
        (ground (arith, added m ev s, stays m ev))

-- Where all additions of a name ask for one value, the variable is there afterwards, and each of
-- its entries is that plain value: also where the request removes the name too.
pub merge_env-adds :
    (n v : String) (current : List EnvVar) (sc : OpenClawSelfConfigSpec)
    → AllAsk n v sc.add_env_vars
    → contains (add_names sc.add_env_vars) n ≡ true
    → All (λ e. e ≡ plain n v) (entries n (merge_env current sc))
      × (is_empty (entries n (merge_env current sc)) ≡ false)
unfolding merge_env add_by_name entries contains
merge_env-adds n v current sc a h =
    let adds = add_by_name sc.add_env_vars in
    let found : get n adds ≡ some v = get-add_loop-some n v [] sc.add_env_vars a (inr h) in
    let start : Env = record { seen = []; result = [] } in
    let (held, sound) = loop_keep n v sc.remove_env_vars adds found start current tt (λ k. cc) in
    loop_add n v (loop (keep_env sc.remove_env_vars adds) start current) sc.add_env_vars a held
      sound (inr h)
