-- ===== src/Workspace/Policies/Reported.antt =====
-- Which files the status reports, by internal/resources/workspace_files.go.
use openclaw_operator.Prelude.{
  String, ◌≡◌, refl, ap, ◌∙◌, Bool, true, false, not, ◌&&◌, ◌||◌, Option, none, some, List, [], ◌∷◌,
  ◌++◌, arith, ◌==◌, eq_iff, if◌then◌else◌, contains,
}
use openclaw_operator.GoMap.{GoMap, get}
use openclaw_operator.Workspace.{UpdatePolicy, ManagedFile, AdditionalWorkspace, WorkspaceSpec}
use openclaw_operator.Workspace.Policies.{
  is_replace, workspace_file_policy, additional_workspace_file_policy, sources_of, insert,
  sorted_keys, insert_workspace, sort_workspaces, before, ManagedFileStatus, with_source,
  without_source, statuses_of, additional_statuses, managed_workspace_file_statuses, or_empty,
}

abbrev pub is_there : Option String → Bool
is_there none = false
is_there (some v) = true

contains-insert :
    (s p : String) (l : List String) → contains (insert s l) p ≡ (s == p || contains l p)
unfolding contains insert
contains-insert s p [] = refl
contains-insert s p (t ∷ l) = ground (arith, contains-insert s p l)

contains-sorted_keys :
    (m : GoMap String) (p : String) → contains (sorted_keys m) p ≡ is_there (get p m)
unfolding contains sorted_keys get
contains-sorted_keys [] p = refl
contains-sorted_keys ((k, v) ∷ m) p =
    ground (arith, contains-insert k p (sorted_keys m), contains-sorted_keys m p)

-- Whether a path of a workspace is reported.
unfoldable pub reports : String → String → List ManagedFileStatus → Bool
reports workspace path [] = false
reports workspace path (st ∷ l) =
    (st.workspace == workspace && st.path == path) || reports workspace path l

-- Whether a path is listed in `managedFiles`.
unfoldable pub lists : String → List ManagedFile → Bool
lists path [] = false
lists path (file ∷ files) = file.path == path || lists path files

reports-append :
    (workspace path : String) (l m : List ManagedFileStatus)
    → reports workspace path (l ++ m) ≡ (reports workspace path l || reports workspace path m)
unfolding reports
reports-append workspace path [] m = refl
reports-append workspace path (st ∷ l) m = ground (arith, reports-append workspace path l m)

-- What the status should report of a path: a file with a source where it is replaced, and one
-- without a source where it is listed.
abbrev pub should_report : (String → UpdatePolicy) → GoMap String → List ManagedFile → String → Bool
should_report policy sources files path =
    (is_there (get path sources) && is_replace (policy path))
    || (lists path files && not (is_there (get path sources)))

-- The same of the additional workspaces with a name.
abbrev pub should_report_in :
    WorkspaceSpec → GoMap (GoMap String) → List AdditionalWorkspace → String → String → Bool
should_report_in ws external [] workspace path = false
should_report_in ws external (aw ∷ l) workspace path =
    (aw.name == workspace
      && should_report (additional_workspace_file_policy (some ws) (some aw))
          (sources_of aw.initial_files (or_empty (get aw.name external))) aw.managed_files path)
    || should_report_in ws external l workspace path

or_swap : (a b c : Bool) → (a || (b || c)) ≡ (b || (a || c))
or_swap a b c = ground arith

should_report_in-insert :
    (ws : WorkspaceSpec) (external : GoMap (GoMap String)) (aw : AdditionalWorkspace)
    (l : List AdditionalWorkspace) (workspace path : String)
    → should_report_in ws external (insert_workspace aw l) workspace path
      ≡ should_report_in ws external (aw ∷ l) workspace path
unfolding insert_workspace
should_report_in-insert ws external aw [] workspace path = refl
should_report_in-insert ws external aw (other ∷ l) workspace path =
    by (before aw.name other.name) (should_report_in-insert ws external aw l workspace path)
  where
    by :
        (b : Bool)
        → should_report_in ws external (insert_workspace aw l) workspace path
          ≡ should_report_in ws external (aw ∷ l) workspace path
        → should_report_in ws external
            (if b then aw ∷ other ∷ l else other ∷ insert_workspace aw l)
            workspace
            path
          ≡ should_report_in ws external (aw ∷ other ∷ l) workspace path
    by true e = refl
    by false e = ap (◌||◌ _) e ∙ or_swap _ _ (should_report_in ws external l workspace path)

should_report_in-sort :
    (ws : WorkspaceSpec) (external : GoMap (GoMap String)) (l : List AdditionalWorkspace)
    (workspace path : String)
    → should_report_in ws external (sort_workspaces l) workspace path
      ≡ should_report_in ws external l workspace path
unfolding sort_workspaces
should_report_in-sort ws external [] workspace path = refl
should_report_in-sort ws external (aw ∷ l) workspace path =
    should_report_in-insert ws external aw (sort_workspaces l) workspace path
    ∙ ap (◌||◌ _) (should_report_in-sort ws external l workspace path)

module _ (hash : String → String) where
  reports-with_source :
      (w v path : String) (policy : String → UpdatePolicy) (sources : GoMap String)
      (paths : List String)
      → reports v path (with_source hash w policy sources paths)
        ≡ (w == v && (contains paths path && is_replace (policy path)))
  unfolding reports with_source contains
  reports-with_source w v path policy sources [] = ground arith
  reports-with_source w v path policy sources (k ∷ paths) =
      ground (arith, eq_iff k path, reports-with_source w v path policy sources paths)

  reports-without_source :
      (w v path : String) (policy : String → UpdatePolicy) (sources : GoMap String)
      (files : List ManagedFile)
      → reports v path (without_source hash w policy sources files)
        ≡ (w == v && (lists path files && not (is_there (get path sources))))
  unfolding reports without_source lists
  reports-without_source w v path policy sources [] = ground arith
  reports-without_source w v path policy sources (file ∷ files) =
      ground (arith, eq_iff file.path path, reports-without_source w v path policy sources files)

  reports-statuses_of :
      (w v path : String) (policy : String → UpdatePolicy) (sources : GoMap String)
      (files : List ManagedFile)
      → reports v path (statuses_of hash w policy sources files)
        ≡ (w == v && should_report policy sources files path)
  unfolding statuses_of
  reports-statuses_of w v path policy sources files = ground (
    arith,
    reports-append v path (with_source hash w policy sources (sorted_keys sources))
        (without_source hash w policy sources files),
    reports-with_source w v path policy sources (sorted_keys sources),
    contains-sorted_keys sources path,
    reports-without_source w v path policy sources files,
  )

  reports-additional_statuses :
      (ws : WorkspaceSpec) (external : GoMap (GoMap String)) (l : List AdditionalWorkspace)
      (v path : String)
      → reports v path (additional_statuses hash ws external l)
        ≡ should_report_in ws external l v path
  unfolding additional_statuses reports
  reports-additional_statuses ws external [] v path = refl
  reports-additional_statuses ws external (aw ∷ l) v path =
      let policy = additional_workspace_file_policy (some ws) (some aw) in
      let sources = sources_of aw.initial_files (or_empty (get aw.name external)) in
      reports-append v path (statuses_of hash aw.name policy sources aw.managed_files)
        (additional_statuses hash ws external l)
      ∙ ap (λ (b : Bool). b || reports v path (additional_statuses hash ws external l))
          (reports-statuses_of aw.name v path policy sources aw.managed_files)
      ∙ ap (◌||◌ _) (reports-additional_statuses ws external l v path)

-- The status reports a path of a workspace exactly where it has a source and the policy Replace, or
-- is listed in managedFiles and has no source: a listed path with a source and another policy is not
-- reported. The default workspace is the one without a name.
pub reports-managed_workspace_file_statuses :
    (hash : String → String) (ws : WorkspaceSpec) (external : GoMap String)
    (additional_external : GoMap (GoMap String)) (workspace path : String)
    → reports workspace path
        (managed_workspace_file_statuses hash (some ws) external additional_external)
      ≡ (("" == workspace
            && should_report
                (workspace_file_policy (some ws))
                (sources_of ws.initial_files external)
                ws.managed_files
                path)
          || should_report_in ws additional_external ws.additional_workspaces workspace path)
unfolding managed_workspace_file_statuses
reports-managed_workspace_file_statuses hash ws external additional_external workspace path =
    let policy = workspace_file_policy (some ws) in
    let sources = sources_of ws.initial_files external in
    let sorted = sort_workspaces ws.additional_workspaces in
    reports-append workspace path (statuses_of hash "" policy sources ws.managed_files)
      (additional_statuses hash ws additional_external sorted)
    ∙ ap
        (λ (b : Bool).
          b || reports workspace path (additional_statuses hash ws additional_external sorted))
        (reports-statuses_of hash "" workspace path policy sources ws.managed_files)
    ∙ ap (◌||◌ _) (
        reports-additional_statuses hash ws additional_external sorted workspace path
        ∙ should_report_in-sort ws additional_external ws.additional_workspaces workspace path)
