-- ===== src/Workspace/ConfigMap/Defaults.antt =====
-- What the additional workspaces leave to the default workspace in the ConfigMap of
-- internal/resources/workspace_configmap.go.
use openclaw_operator.Prelude.{
  String, ◌≡◌, refl, ◌∙◌, subst, true, false, Option, none, some, List, [], ◌∷◌, loop, arith, ◌==◌,
  eq_iff, append,
}
use openclaw_operator.GoMap.{GoMap, get, get-set}
use openclaw_operator.Workspace.{AdditionalWorkspace}
use openclaw_operator.Workspace.Keys.{skill_pack_cm_key, additional_workspace_cm_key}
use openclaw_operator.Workspace.ConfigMap.{
  ResolvedSkillPacks, Instance, Contents, workspace_packs, put_all, as_it_is, default_files,
  add_workspace, additional_of, build_workspace_config_map,
}
use openclaw_operator.Workspace.ConfigMap.Priority.{
  last_as, last_of, get-put_all, default_source, get-default_files,
}
use text.Mathlib.Text.{starts_with}
use text.Mathlib.TextPositions.{starts_with-append}

-- A key without the prefix is no key of an additional workspace.
other_key :
    (k name f : String)
    → starts_with k "--ws--" ≡ false
    → (additional_workspace_cm_key name f == k) ≡ false
unfolding additional_workspace_cm_key
other_key k name f p = ground (
  arith,
  p,
  eq_iff (append "--ws--" (append name (append "--" f))) k,
  λ (e : append "--ws--" (append name (append "--" f)) ≡ k).
      subst (λ (t : String). starts_with t "--ws--" ≡ true) e (starts_with-append "--ws--" _),
)

last_as-other :
    (k name : String) (key : String → String) (l : GoMap String)
    → starts_with k "--ws--" ≡ false
    → last_as (λ j. additional_workspace_cm_key name (key j)) k l ≡ none
last_as-other k name key [] p = refl
last_as-other k name key ((j, v) ∷ l) p =
    ground (arith, other_key k name (key j) p, last_as-other k name key l p)

last_of-other :
    (k name : String) (key : String → String) (o : Option (GoMap String))
    → starts_with k "--ws--" ≡ false
    → last_of (λ j. additional_workspace_cm_key name (key j)) k o ≡ none
last_of-other k name key none p = refl
last_of-other k name key (some l) p = last_as-other k name key l p

kept-add_workspace :
    (own : Contents) (external : GoMap (GoMap String)) (packs : Option ResolvedSkillPacks)
    (files : GoMap String) (ws : AdditionalWorkspace) (k : String)
    → starts_with k "--ws--" ≡ false
    → get k (add_workspace own external packs files ws) ≡ get k files
unfolding add_workspace
kept-add_workspace own external packs files ws k p =
    let key = additional_workspace_cm_key ws.name in
    let from_packs = put_all key (workspace_packs packs ws.name) files in
    let from_external = put_all key (get ws.name external) from_packs in
    let inline = put_all (λ k. key (skill_pack_cm_key k)) (some ws.initial_files) from_external in
    ground (
      arith,
      get-set (key "ENVIRONMENT.md") k own.environment inline,
      get-put_all (λ k. key (skill_pack_cm_key k)) k (some ws.initial_files) from_external,
      get-put_all key k (get ws.name external) from_packs,
      get-put_all key k (workspace_packs packs ws.name) files,
      other_key k ws.name "ENVIRONMENT.md" p,
      last_as-other k ws.name skill_pack_cm_key ws.initial_files p,
      last_of-other k ws.name as_it_is (get ws.name external) p,
      last_of-other k ws.name as_it_is (workspace_packs packs ws.name) p,
    )

kept-loop :
    (own : Contents) (external : GoMap (GoMap String)) (packs : Option ResolvedSkillPacks)
    (files : GoMap String) (l : List AdditionalWorkspace) (k : String)
    → starts_with k "--ws--" ≡ false
    → get k (loop (add_workspace own external packs) files l) ≡ get k files
kept-loop own external packs files [] k p = refl
kept-loop own external packs files (ws ∷ l) k p =
    kept-loop own external packs (add_workspace own external packs files ws) l k p
    ∙ kept-add_workspace own external packs files ws k p

-- A key that does not begin with "--ws--" has the text of the first of these sources that has one:
-- the operator's own file of that name, the last inline file whose encoded path is the key, the
-- external ConfigMap, and the skill packs; the additional workspaces never change it.
pub get-build_workspace_config_map :
    (own : Contents) (inst : Instance) (external : GoMap String)
    (additional_external : GoMap (GoMap String)) (packs : Option ResolvedSkillPacks) (k : String)
    → starts_with k "--ws--" ≡ false
    → get k (build_workspace_config_map own inst external additional_external packs)
      ≡ default_source own inst external packs k
unfolding build_workspace_config_map
get-build_workspace_config_map own inst external additional_external packs k p =
    kept-loop own additional_external packs (default_files own inst external packs)
      (additional_of inst.workspace) k p
    ∙ get-default_files own inst external packs k
