-- ===== src/Workspace/ConfigMap/Additional.antt =====
-- The keys of additional workspaces in the ConfigMap of internal/resources/workspace_configmap.go.
use openclaw_operator.Prelude.{
  String, ◌≡◌, refl, sym, ap, ◌∙◌, true, ◌&&◌, Option, none, some, List, [], ◌∷◌, All, loop, arith,
  ◌==◌, eq_iff, if◌then◌else◌,
}
use openclaw_operator.GoMap.{GoMap, get, get-set, or_else}
use openclaw_operator.Workspace.{AdditionalWorkspace}
use openclaw_operator.Workspace.Keys.{
  skill_pack_cm_key, additional_workspace_cm_key, is_workspace_name,
  parse_additional_workspace_cm_key,
}
use openclaw_operator.Workspace.Keys.RoundTrip.{parse_additional_workspace_cm_key-of_key}
use openclaw_operator.Workspace.ConfigMap.{
  ResolvedSkillPacks, Instance, Contents, workspace_packs, put_all, as_it_is, default_files,
  add_workspace, additional_of, build_workspace_config_map,
}
use openclaw_operator.Workspace.ConfigMap.Priority.{
  last_as, last_of, get-put_all, or_else_assoc, default_source, get-default_files,
}

-- The names of the workspaces are those that the webhook accepts.
abbrev pub AreNamed : List AdditionalWorkspace → Type 0
AreNamed l = All (λ ws. is_workspace_name ws.name ≡ true) l

some-eq : {a b : String × String} → ◌≡◌ {A = Option (String × String)} (some a) (some b) → a ≡ b
some-eq p = cc

-- Two keys are the same exactly where the workspaces and the files are.
same_key :
    (m n f g : String)
    → is_workspace_name m ≡ true
    → is_workspace_name n ≡ true
    → (additional_workspace_cm_key m f == additional_workspace_cm_key n g) ≡ (m == n && f == g)
same_key m n f g p q =
    let back : additional_workspace_cm_key m f ≡ additional_workspace_cm_key n g
        → (m ≡ n) × (f ≡ g) =
      λ e.
        let r = some-eq (
          sym (parse_additional_workspace_cm_key-of_key m f p)
          ∙ ap parse_additional_workspace_cm_key e
          ∙ parse_additional_workspace_cm_key-of_key n g q) in
        (ap (λ (x : String × String). x.0) r, ap (λ (x : String × String). x.1) r) in
    let forth : (m ≡ n) × (f ≡ g)
        → additional_workspace_cm_key m f ≡ additional_workspace_cm_key n g =
      λ e.
        ap (λ (x : String). additional_workspace_cm_key x f) e.0
        ∙ ap (additional_workspace_cm_key n) e.1 in
    ground (
      arith,
      back,
      forth,
      eq_iff (additional_workspace_cm_key m f) (additional_workspace_cm_key n g),
      eq_iff m n,
      eq_iff f g,
    )

-- What is written under the key of one workspace is there for the files of that workspace only.
last_as-key :
    (m n g : String) (key : String → String) (l : GoMap String)
    → is_workspace_name m ≡ true
    → is_workspace_name n ≡ true
    → last_as (λ k. additional_workspace_cm_key m (key k)) (additional_workspace_cm_key n g) l
      ≡ (if m == n then last_as key g l else none)
last_as-key m n g key [] p q = ground arith
last_as-key m n g key ((k, v) ∷ l) p q =
    ground (arith, same_key m n (key k) g p q, last_as-key m n g key l p q)

last_of-key :
    (m n g : String) (key : String → String) (o : Option (GoMap String))
    → is_workspace_name m ≡ true
    → is_workspace_name n ≡ true
    → last_of (λ k. additional_workspace_cm_key m (key k)) (additional_workspace_cm_key n g) o
      ≡ (if m == n then last_of key g o else none)
last_of-key m n g key none p q = ground arith
last_of-key m n g key (some l) p q = last_as-key m n g key l p q

-- The priority of the sources in one additional workspace, as the comment in the source lists them.
abbrev pub additional_source :
    Contents
    → GoMap (GoMap String)
    → Option ResolvedSkillPacks
    → AdditionalWorkspace
    → String
    → Option String
additional_source own external packs ws f =
    or_else (if "ENVIRONMENT.md" == f then some own.environment else none) (
      or_else (last_as skill_pack_cm_key f ws.initial_files) (
        or_else (last_of as_it_is f (get ws.name external))
          (last_of as_it_is f (workspace_packs packs ws.name))))

-- The same of the workspace with a name: the last, where there are several.
abbrev pub source_of :
    Contents
    → GoMap (GoMap String)
    → Option ResolvedSkillPacks
    → List AdditionalWorkspace
    → String
    → String
    → Option String
source_of own external packs [] name f = none
source_of own external packs (ws ∷ l) name f =
    or_else (source_of own external packs l name f)
      (if ws.name == name then additional_source own external packs ws f else none)

get-add_workspace :
    (own : Contents) (external : GoMap (GoMap String)) (packs : Option ResolvedSkillPacks)
    (files : GoMap String) (ws : AdditionalWorkspace) (name f : String)
    → is_workspace_name ws.name ≡ true
    → is_workspace_name name ≡ true
    → get (additional_workspace_cm_key name f) (add_workspace own external packs files ws)
      ≡ or_else
          (if ws.name == name then additional_source own external packs ws f else none)
          (get (additional_workspace_cm_key name f) files)
unfolding add_workspace
get-add_workspace own external packs files ws name f p q =
    let n = additional_workspace_cm_key name f in
    let key = additional_workspace_cm_key ws.name in
    let from_packs = put_all key (workspace_packs packs ws.name) files in
    let from_external = put_all key (get ws.name external) from_packs in
    let inline = put_all (λ k. key (skill_pack_cm_key k)) (some ws.initial_files) from_external in
    ground (
      arith,
      get-set (key "ENVIRONMENT.md") n own.environment inline,
      get-put_all (λ k. key (skill_pack_cm_key k)) n (some ws.initial_files) from_external,
      get-put_all key n (get ws.name external) from_packs,
      get-put_all key n (workspace_packs packs ws.name) files,
      same_key ws.name name "ENVIRONMENT.md" f p q,
      last_as-key ws.name name f skill_pack_cm_key ws.initial_files p q,
      last_of-key ws.name name f as_it_is (get ws.name external) p q,
      last_of-key ws.name name f as_it_is (workspace_packs packs ws.name) p q,
    )

get-loop-add_workspace :
    (own : Contents) (external : GoMap (GoMap String)) (packs : Option ResolvedSkillPacks)
    (files : GoMap String) (l : List AdditionalWorkspace) (name f : String)
    → AreNamed l
    → is_workspace_name name ≡ true
    → get (additional_workspace_cm_key name f) (loop (add_workspace own external packs) files l)
      ≡ or_else
          (source_of own external packs l name f)
          (get (additional_workspace_cm_key name f) files)
get-loop-add_workspace own external packs files [] name f h q = refl
get-loop-add_workspace own external packs files (ws ∷ l) name f h q =
    get-loop-add_workspace own external packs (add_workspace own external packs files ws) l name f
      h.1 q
    ∙ ap (or_else (source_of own external packs l name f))
        (get-add_workspace own external packs files ws name f h.0 q)
    ∙ sym (or_else_assoc (source_of own external packs l name f) _ _)

-- Where the webhook accepts the names of the workspaces, the key of a file in an additional
-- workspace has the text of the first of these sources of that workspace that has one: the
-- operator's ENVIRONMENT.md, the last inline file whose encoded path is the file's name, the
-- external ConfigMap and the skill packs; and else what the default workspace has under that key.
-- No other workspace changes it.
pub get-build_workspace_config_map-additional :
    (own : Contents) (inst : Instance) (external : GoMap String)
    (additional_external : GoMap (GoMap String)) (packs : Option ResolvedSkillPacks)
    (name f : String)
    → AreNamed (additional_of inst.workspace)
    → is_workspace_name name ≡ true
    → get
        (additional_workspace_cm_key name f)
        (build_workspace_config_map own inst external additional_external packs)
      ≡ or_else
          (source_of own additional_external packs (additional_of inst.workspace) name f)
          (default_source own inst external packs (additional_workspace_cm_key name f))
unfolding build_workspace_config_map
get-build_workspace_config_map-additional own inst external additional_external packs name f h q =
    get-loop-add_workspace own additional_external packs (default_files own inst external packs)
      (additional_of inst.workspace) name f h q
    ∙ ap (or_else _)
        (get-default_files own inst external packs (additional_workspace_cm_key name f))
