-- ===== src/Workspace/ConfigMap/Priority.antt =====
-- Which source a file of the workspace ConfigMap comes from, by
-- internal/resources/workspace_configmap.go.
use openclaw_operator.Prelude.{
  String, ◌≡◌, refl, sym, ap, ◌∙◌, Bool, true, false, ◌&&◌, Option, none, some, [], ◌∷◌, loop, ◌==◌,
  if◌then◌else◌,
}
use openclaw_operator.GoMap.{GoMap, get, set, get-set, or_else}
use openclaw_operator.Workspace.Keys.{skill_pack_cm_key}
use openclaw_operator.Workspace.ConfigMap.{
  ResolvedSkillPacks, Instance, Contents, bootstrap_enabled, set_as, put_all, set_if, as_it_is,
  initial_files_of, files_of_packs, default_files,
}

-- What the entries whose key becomes `n` write last.
abbrev pub last_as : (String → String) → String → GoMap String → Option String
last_as key n [] = none
last_as key n ((k, v) ∷ m) = or_else (last_as key n m) (if key k == n then some v else none)

pub or_else_assoc : (a b c : Option String) → or_else (or_else a b) c ≡ or_else a (or_else b c)
or_else_assoc none b c = refl
or_else_assoc (some v) b c = refl

pub or_none :
    (b : Bool) (v : String) (o : Option String)
    → (if b then some v else o) ≡ or_else (if b then some v else none) o
or_none true v o = refl
or_none false v o = refl

get-loop-set_as :
    (key : String → String) (n : String) (files m : GoMap String)
    → get n (loop (set_as key) files m) ≡ or_else (last_as key n m) (get n files)
get-loop-set_as key n files [] = refl
get-loop-set_as key n files ((k, v) ∷ m) =
    get-loop-set_as key n (set (key k) v files) m
    ∙ ap (or_else (last_as key n m))
        (get-set (key k) n v files ∙ or_none (key k == n) v (get n files))
    ∙ sym (or_else_assoc (last_as key n m) _ _)

-- The same of a map that may be missing.
abbrev pub last_of : (String → String) → String → Option (GoMap String) → Option String
last_of key n none = none
last_of key n (some m) = last_as key n m

pub get-put_all :
    (key : String → String) (n : String) (o : Option (GoMap String)) (files : GoMap String)
    → get n (put_all key o files) ≡ or_else (last_of key n o) (get n files)
get-put_all key n none files = refl
get-put_all key n (some m) files = get-loop-set_as key n files m

-- The operator's own file of a name.
abbrev pub own_file : Contents → Instance → String → Option String
own_file own inst k =
    if inst.self_configure_enabled && "selfconfig.sh" == k
    then some own.helper
    else if inst.self_configure_enabled && "SELFCONFIG.md" == k
    then some own.self_config
    else if bootstrap_enabled inst && "BOOTSTRAP.md" == k
    then some own.bootstrap
    else if "ENVIRONMENT.md" == k
    then some own.environment
    else none

-- The priority of the sources in the default workspace, as the comment in the source lists them.
abbrev pub default_source :
    Contents → Instance → GoMap String → Option ResolvedSkillPacks → String → Option String
default_source own inst external packs k = or_else (own_file own inst k) (
    or_else (last_of skill_pack_cm_key k (initial_files_of inst.workspace))
      (or_else (last_as as_it_is k external) (last_of as_it_is k (files_of_packs packs))))

or_else-none : (o : Option String) → or_else o none ≡ o
or_else-none none = refl
or_else-none (some v) = refl

get-set_if :
    (b : Bool) (j v n : String) (files : GoMap String)
    → get n (set_if b j v files) ≡ or_else (if b && j == n then some v else none) (get n files)
get-set_if true j v n files = get-set j n v files ∙ or_none (j == n) v (get n files)
get-set_if false j v n files = refl

-- The last of four sources that has a text wins.
or_else_four :
    (a b c d : Bool) (u v w x : String) (o : Option String)
    → or_else (if a then some u else none) (
        or_else
          (if b then some v else none)
          (or_else (if c then some w else none) (or_else (if d then some x else none) o)))
      ≡ or_else
          (if a
            then some u
            else if b
            then some v
            else if c
            then some w
            else if d
            then some x
            else none)
          o
or_else_four true b c d u v w x o = refl
or_else_four false true c d u v w x o = refl
or_else_four false false true d u v w x o = refl
or_else_four false false false true u v w x o = refl
or_else_four false false false false u v w x o = refl

pub get-default_files :
    (own : Contents) (inst : Instance) (external : GoMap String) (packs : Option ResolvedSkillPacks)
    (k : String)
    → get k (default_files own inst external packs) ≡ default_source own inst external packs k
unfolding default_files get
get-default_files own inst external packs k =
    let from_packs = put_all as_it_is (files_of_packs packs) [] in
    let from_external = put_all as_it_is (some external) from_packs in
    let seeded = put_all skill_pack_cm_key (initial_files_of inst.workspace) from_external in
    let environment = set "ENVIRONMENT.md" own.environment seeded in
    let bootstrap = set_if (bootstrap_enabled inst) "BOOTSTRAP.md" own.bootstrap environment in
    let self_config =
      set_if inst.self_configure_enabled "SELFCONFIG.md" own.self_config bootstrap in
    get-set_if inst.self_configure_enabled "selfconfig.sh" own.helper k self_config
    ∙ ap (or_else _) (
        get-set_if inst.self_configure_enabled "SELFCONFIG.md" own.self_config k bootstrap
        ∙ ap (or_else _) (
            get-set_if (bootstrap_enabled inst) "BOOTSTRAP.md" own.bootstrap k environment
            ∙ ap (or_else _) (get-set_if true "ENVIRONMENT.md" own.environment k seeded)))
    ∙ or_else_four (inst.self_configure_enabled && "selfconfig.sh" == k)
        (inst.self_configure_enabled && "SELFCONFIG.md" == k)
        (bootstrap_enabled inst && "BOOTSTRAP.md" == k) ("ENVIRONMENT.md" == k) own.helper
        own.self_config own.bootstrap own.environment (get k seeded)
    ∙ ap (or_else (own_file own inst k)) (
        get-put_all skill_pack_cm_key k (initial_files_of inst.workspace) from_external
        ∙ ap (or_else _) (
            get-put_all as_it_is k (some external) from_packs
            ∙ ap (or_else _) (
                get-put_all as_it_is k (files_of_packs packs) []
                ∙ or_else-none (last_of as_it_is k (files_of_packs packs)))))
