-- ===== src/Workspace/Admission/Admitted.antt =====
-- What holds of the workspaces that internal/webhook/openclawinstance_webhook.go accepts.
use openclaw_operator.Prelude.{
  String, ◌≡◌, ◌≢◌, refl, Bool, true, false, ◌||◌, Option, none, some, List, [], ◌∷◌, All, contains,
  map, arith, ◌==◌, if◌then◌else◌,
}
use openclaw_operator.GoMap.{GoMap, or_else}
use openclaw_operator.GoStrings.{clean}
use text.Mathlib.Text.{starts_with}
use openclaw_operator.Workspace.{ManagedFile, AdditionalWorkspace, WorkspaceSpec}
use openclaw_operator.Workspace.Paths.{
  PathError, validate_workspace_file_path, validate_managed_workspace_path,
}
use openclaw_operator.Workspace.Paths.Accepted.{
  IsFilePath, is_false, validate_workspace_file_path_iff,
}
use openclaw_operator.Workspace.Keys.{is_workspace_name}
use openclaw_operator.Workspace.Admission.{
  WorkspaceError, bad_file, bad_managed, wrap, check_files, check_directories,
  validate_managed_files, check_skills, check_ref, check_workspace, check_workspaces,
  validate_workspace_spec,
}

-- The texts are new and distinct.
abbrev pub AreNew : List String → List String → Type 0
AreNew seen [] = Unit {0}
AreNew seen (s ∷ l) = (contains seen s ≡ false) × AreNew (s ∷ seen) l

-- A relative path whose shortest form, by `path.Clean`, does not begin with `..`.
abbrev pub IsInside : String → Type 0
IsInside path =
    (path ≢ "")
    × (starts_with path "/" ≡ false)
    × (clean path ≢ "..")
    × (starts_with (clean path) "../" ≡ false)

validate_managed_workspace_path-IsInside :
    (path : String) → validate_managed_workspace_path path ≡ none → IsInside path
unfolding validate_managed_workspace_path
validate_managed_workspace_path-IsInside path p =
    inside (path == "") (starts_with path "/") (clean path == "..") (starts_with (clean path) "../")
      refl refl p
  where
    inside :
        (a b c d : Bool)
        → (path == "") ≡ a
        → (clean path == "..") ≡ c
        → ◌≡◌ {A = Option PathError}
            (if a
              then some PathError.empty
              else if b
              then some PathError.absolute
              else if c || d
              then some PathError.traverses
              else none)
            none
        → (path ≢ "") × (b ≡ false) × (clean path ≢ "..") × (d ≡ false)
    inside true b c d e f q = ground (arith, q)
    inside false true c d e f q = ground (arith, q)
    inside false false true d e f q = ground (arith, q)
    inside false false false true e f q = ground (arith, q)
    inside false false false false e f q =
        ((is_false path "").0 e, refl, (is_false (clean path) "..").0 f, refl)

-- Inline files have paths that the comment on `ValidateWorkspaceFilePath` asks for, and managed
-- files have distinct paths that stay inside the workspace.
abbrev pub HasGoodFiles : GoMap String → List ManagedFile → Type 0
HasGoodFiles files managed =
    All (λ f. IsFilePath f.0) files
    × All (λ f. IsInside f.path) managed
    × AreNew [] (map (λ f. f.path) managed)

-- Both checks pass.
both : (a b : Option WorkspaceError) → or_else a b ≡ none → (a ≡ none) × (b ≡ none)
both none b p = (refl, p)
both (some e) b p = ground (arith, p)

unwrap : {E : Type 0} → (f : E → WorkspaceError) (o : Option E) → wrap f o ≡ none → o ≡ none
unwrap f none p = refl
unwrap f (some e) p = ground (arith, p)

check_files-IsFilePath : (m : GoMap String) → check_files m ≡ none → All (λ f. IsFilePath f.0) m
unfolding check_files
check_files-IsFilePath [] p = tt
check_files-IsFilePath ((name, content) ∷ m) p =
    let (a, b) = both (wrap bad_file (validate_workspace_file_path name)) (check_files m) p in
    ((validate_workspace_file_path_iff name).0 (unwrap bad_file _ a), check_files-IsFilePath m b)

new_then :
    (b : Bool) (e : WorkspaceError) (o : Option WorkspaceError)
    → (if b then some e else o) ≡ none
    → (b ≡ false) × (o ≡ none)
new_then true e o p = ground (arith, p)
new_then false e o p = (refl, p)

validate_managed_files_lem :
    (seen : List String) (files : List ManagedFile)
    → validate_managed_files seen files ≡ none
    → All (λ f. IsInside f.path) files × AreNew seen (map (λ f. f.path) files)
unfolding validate_managed_files
validate_managed_files_lem seen [] p = (tt, tt)
validate_managed_files_lem seen (file ∷ files) p =
    let (a, b) = both (wrap bad_managed (validate_managed_workspace_path file.path)) _ p in
    let (c, d) = new_then (contains seen file.path) _ _ b in
    let (e, f) = validate_managed_files_lem (file.path ∷ seen) files d in
    ((validate_managed_workspace_path-IsInside file.path (unwrap bad_managed _ a), e), (c, f))

good :
    (files : GoMap String) (managed : List ManagedFile)
    → check_files files ≡ none
    → validate_managed_files [] managed ≡ none
    → HasGoodFiles files managed
good files managed p q =
    let (a, b) = validate_managed_files_lem [] managed q in (check_files-IsFilePath files p, a, b)

check_workspace-HasGoodFiles :
    (aw : AdditionalWorkspace)
    → check_workspace aw ≡ none
    → HasGoodFiles aw.initial_files aw.managed_files
unfolding check_workspace
check_workspace-HasGoodFiles aw p =
    let (a, b) = both (check_ref aw.config_map_ref) _ p in
    let (c, d) = both (check_files aw.initial_files) _ b in
    let (e, f) = both (check_directories aw.initial_directories) _ d in
    let (g, h) = both (check_skills [] aw.skills) _ f in good aw.initial_files aw.managed_files c h

-- A workspace has a name of the pattern, and its files are good.
abbrev pub IsAdmitted : AdditionalWorkspace → Type 0
IsAdmitted aw = (is_workspace_name aw.name ≡ true) × HasGoodFiles aw.initial_files aw.managed_files

checked :
    (a b c : Bool) (e f g : WorkspaceError) (o : Option WorkspaceError)
    → (if a then some e else if b then (if c then some f else o) else some g) ≡ none
    → (b ≡ true) × (c ≡ false) × (o ≡ none)
checked true b c e f g o p = ground (arith, p)
checked false true true e f g o p = ground (arith, p)
checked false true false e f g o p = (refl, refl, p)
checked false false c e f g o p = ground (arith, p)

check_workspaces_lem :
    (seen : List String) (l : List AdditionalWorkspace)
    → check_workspaces seen l ≡ none
    → All IsAdmitted l × AreNew seen (map (λ aw. aw.name) l)
unfolding check_workspaces
check_workspaces_lem seen [] p = (tt, tt)
check_workspaces_lem seen (aw ∷ l) p =
    let (a, b, c) =
      checked (aw.name == "") (is_workspace_name aw.name) (contains seen aw.name) _ _ _
        (or_else (check_workspace aw) (check_workspaces (aw.name ∷ seen) l)) p in
    let (d, e) = both (check_workspace aw) _ c in
    let (f, g) = check_workspaces_lem (aw.name ∷ seen) l e in
    (((a, check_workspace-HasGoodFiles aw d), f), (b, g))

-- Where the webhook accepts the workspaces of an instance, the inline files of each have paths as
-- the comment on `ValidateWorkspaceFilePath` asks for, the managed files of each have distinct paths
-- that stay inside the workspace, and the additional workspaces have distinct names of the pattern.
pub validate_workspace_spec-IsAdmitted :
    (ws : WorkspaceSpec)
    → validate_workspace_spec ws ≡ none
    → HasGoodFiles ws.initial_files ws.managed_files
      × All IsAdmitted ws.additional_workspaces
      × AreNew [] (map (λ aw. aw.name) ws.additional_workspaces)
unfolding validate_workspace_spec
validate_workspace_spec-IsAdmitted ws p =
    let (a, b) = both (check_ref ws.config_map_ref) _ p in
    let (c, d) = both (check_files ws.initial_files) _ b in
    let (e, f) = both (check_directories ws.initial_directories) _ d in
    let (g, h) = both (validate_managed_files [] ws.managed_files) _ f in
    let (i, j) = check_workspaces_lem [] ws.additional_workspaces h in
    (good ws.initial_files ws.managed_files c g, i, j)
