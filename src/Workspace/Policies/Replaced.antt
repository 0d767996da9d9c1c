-- ===== src/Workspace/Policies/Replaced.antt =====
-- Which files are replaced, by internal/resources/workspace_files.go.
use openclaw_operator.Prelude.{
  String, ◌≡◌, refl, ap, true, Option, none, some, List, [], ◌∷◌, arith, eq_iff, ◌⊎◌, inl, inr, All,
}
use openclaw_operator.Workspace.{
  UpdatePolicy, replace, ManagedFile, AdditionalWorkspace, WorkspaceSpec,
}
use openclaw_operator.Workspace.Policies.{
  is_replace, defaulted_policy, managed_file_policy, workspace_file_policy, inherited_policy,
  additional_workspace_file_policy, is_replaced, has_replaced, sets_replace, some_replaced,
  workspace_has_replace_files,
}

-- A listed path that is replaced is found by the loop over the list.
has_replaced-managed :
    (all files : List ManagedFile) (path : String)
    → is_replaced (managed_file_policy files path) ≡ true
    → managed_file_policy all path ≡ managed_file_policy files path
    → has_replaced all files ≡ true
unfolding has_replaced managed_file_policy
has_replaced-managed all [] path p e = ground (arith, p)
has_replaced-managed all (file ∷ files) path p e =
    ground (arith, p, e, eq_iff file.path path, has_replaced-managed all files path)

replaced_or_default :
    (files : List ManagedFile) (path : String) (default : UpdatePolicy)
    → ◌≡◌ {A = UpdatePolicy}
        (elim (managed_file_policy files path) [ some policy ↦ policy | none ↦ default ])
        replace
    → (has_replaced files files ≡ true) ⊎ (default ≡ replace)
replaced_or_default files path default p = by (managed_file_policy files path) refl p
  where
    by :
        (o : Option UpdatePolicy)
        → managed_file_policy files path ≡ o
        → ◌≡◌ {A = UpdatePolicy} (elim o [ some policy ↦ policy | none ↦ default ]) replace
        → (has_replaced files files ≡ true) ⊎ (default ≡ replace)
    by none e q = inr q
    by (some policy) e q = inl (has_replaced-managed files files path (rw e (ap is_replace q)) refl)

-- Whether a Replace policy is set in an additional workspace, or inherited from the default.
IsCovered : WorkspaceSpec → AdditionalWorkspace → Type 0
IsCovered ws aw =
    (path : String)
    → additional_workspace_file_policy (some ws) (some aw) path ≡ replace
    → workspace_has_replace_files (some ws) ≡ true

inherited :
    (ws : WorkspaceSpec) (o : Option UpdatePolicy)
    → inherited_policy (some ws) o ≡ replace
    → (sets_replace o ≡ true) ⊎ (is_replace (defaulted_policy ws.file_update_policy) ≡ true)
unfolding inherited_policy sets_replace
inherited ws none p = inr (ap is_replace p)
inherited ws (some policy) p = inl (ap is_replace p)

additional_replaced :
    (ws : WorkspaceSpec) (aw : AdditionalWorkspace) (path : String)
    → additional_workspace_file_policy (some ws) (some aw) path ≡ replace
    → (has_replaced aw.managed_files aw.managed_files ≡ true)
      ⊎ (inherited_policy (some ws) aw.file_update_policy ≡ replace)
unfolding additional_workspace_file_policy
additional_replaced ws aw path p =
    replaced_or_default aw.managed_files path (inherited_policy (some ws) aw.file_update_policy) p

covered :
    (ws : WorkspaceSpec) (l : List AdditionalWorkspace)
    → (some_replaced l ≡ true → workspace_has_replace_files (some ws) ≡ true)
    → All (IsCovered ws) l
unfolding some_replaced IsCovered workspace_has_replace_files
covered ws [] h = tt
covered ws (aw ∷ l) h = (
  (λ path p.
      ground (arith, h, additional_replaced ws aw path p, inherited ws aw.file_update_policy)),
  covered ws l (λ q. h (ground (arith, q))),
)

-- Where some file of the default workspace, or of an additional one, has the policy Replace,
-- `WorkspaceHasReplaceFiles` answers true.
pub workspace_has_replace_files-covers :
    (ws : WorkspaceSpec)
    → ((path : String)
        → workspace_file_policy (some ws) path ≡ replace
        → workspace_has_replace_files (some ws) ≡ true)
      × All
          (λ aw.
            (path : String)
            → additional_workspace_file_policy (some ws) (some aw) path ≡ replace
            → workspace_has_replace_files (some ws) ≡ true)
          ws.additional_workspaces
unfolding workspace_file_policy workspace_has_replace_files IsCovered
workspace_has_replace_files-covers ws = (
  λ path p. ground (
    arith,
    ap is_replace,
    replaced_or_default ws.managed_files path (defaulted_policy ws.file_update_policy) p,
  ),
  covered ws ws.additional_workspaces (λ q. ground (arith, q)),
)
