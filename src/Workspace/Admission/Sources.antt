-- ===== src/Workspace/Admission/Sources.antt =====
-- What the ConfigMap of internal/resources/workspace_configmap.go has for the workspaces that
-- internal/webhook/openclawinstance_webhook.go accepts.
use openclaw_operator.Prelude.{
  String, ◌≡◌, refl, ap, ◌∙◌, Bool, true, false, Option, none, some, List, [], ◌∷◌, All, contains,
  map, arith, eq_iff, eq_refl, ◌==◌, if◌then◌else◌,
}
use openclaw_operator.GoMap.{GoMap, get, or_else}
use openclaw_operator.Workspace.{AdditionalWorkspace, WorkspaceSpec}
use openclaw_operator.Workspace.Keys.{additional_workspace_cm_key}
use openclaw_operator.Workspace.ConfigMap.{
  ResolvedSkillPacks, Instance, Contents, additional_of, build_workspace_config_map,
}
use openclaw_operator.Workspace.ConfigMap.Priority.{default_source}
use openclaw_operator.Workspace.ConfigMap.Additional.{
  AreNamed, additional_source, source_of, get-build_workspace_config_map-additional,
}
use openclaw_operator.Workspace.Admission.{validate_workspace_spec}
use openclaw_operator.Workspace.Admission.Admitted.{
  AreNew, IsAdmitted, validate_workspace_spec-IsAdmitted,
}

abbrev names_of : List AdditionalWorkspace → List String
names_of l = map (λ aw. aw.name) l

-- What was seen is not among new texts.
contains-AreNew :
    (seen l : List String) (s : String)
    → AreNew seen l
    → contains seen s ≡ true
    → contains l s ≡ false
unfolding contains
contains-AreNew seen [] s h p = refl
contains-AreNew seen (t ∷ l) s h p = ground (
  arith,
  p,
  h.0,
  eq_iff t s,
  ap (contains seen),
  contains-AreNew (t ∷ seen) l s h.1 (ground (arith, p)),
)

-- The name of one workspace is none of the others'.
AreOther : String → List AdditionalWorkspace → Type 0
AreOther name l = All (λ aw. (name == aw.name) ≡ false) l

AreOther-of :
    (name : String) (l : List AdditionalWorkspace)
    → contains (names_of l) name ≡ false
    → AreOther name l
unfolding AreOther contains
AreOther-of name [] p = tt
AreOther-of name (aw ∷ l) p = (
  ground (arith, p, eq_iff aw.name name, eq_iff name aw.name),
  AreOther-of name l (ground (arith, p)),
)

skipped : (o x : Option String) (b : Bool) → b ≡ false → or_else o (if b then x else none) ≡ o
skipped none x true e = ground (arith, e)
skipped none x false e = refl
skipped (some v) x b e = refl

taken :
    (o x : Option String) (b : Bool) → o ≡ none → b ≡ true → or_else o (if b then x else none) ≡ x
taken o x b p e = rw p (rw e refl)

module _ (own : Contents) (external : GoMap (GoMap String)) (packs : Option ResolvedSkillPacks)
    (f : String) where
  no_source :
      (l : List AdditionalWorkspace) (name : String)
      → contains (names_of l) name ≡ false
      → source_of own external packs l name f ≡ none
  unfolding contains
  no_source [] name p = refl
  no_source (aw ∷ l) name p = ground (arith, p, no_source l name)

  -- Each workspace of a list has its own sources among those of another list.
  HaveOwn : List AdditionalWorkspace → List AdditionalWorkspace → Type 0
  HaveOwn l m =
      All
        (λ aw. source_of own external packs l aw.name f ≡ additional_source own external packs aw f)
        m

  HaveOwn-behind :
      (aw : AdditionalWorkspace) (l m : List AdditionalWorkspace)
      → AreOther aw.name m
      → HaveOwn l m
      → HaveOwn (aw ∷ l) m
  unfolding AreOther HaveOwn
  HaveOwn-behind aw l [] h p = tt
  HaveOwn-behind aw l (b ∷ m) h p =
      (skipped _ _ (aw.name == b.name) h.0 ∙ p.0, HaveOwn-behind aw l m h.1 p.1)

  HaveOwn-AreNew :
      (seen : List String) (l : List AdditionalWorkspace) → AreNew seen (names_of l) → HaveOwn l l
  unfolding HaveOwn contains
  HaveOwn-AreNew seen [] h = tt
  HaveOwn-AreNew seen (aw ∷ l) h =
      let fresh =
        contains-AreNew (aw.name ∷ seen) (names_of l) aw.name h.1
          (ground (arith, eq_refl aw.name)) in
      (
        taken _ _ (aw.name == aw.name) (no_source l aw.name fresh) (eq_refl aw.name),
        HaveOwn-behind aw l l (AreOther-of aw.name l fresh) (HaveOwn-AreNew (aw.name ∷ seen) l h.1),
      )

-- The key of each file of a workspace has what that workspace's sources say, and else what the
-- default workspace has.
ReadsOwn :
    Contents
    → GoMap String
    → GoMap (GoMap String)
    → Option ResolvedSkillPacks
    → Instance
    → String
    → AdditionalWorkspace
    → Type 0
ReadsOwn own external additional_external packs inst f aw =
    get (additional_workspace_cm_key aw.name f)
      (build_workspace_config_map own inst external additional_external packs)
    ≡ or_else (additional_source own additional_external packs aw f)
        (default_source own inst external packs (additional_workspace_cm_key aw.name f))

AreNamed-of : (l : List AdditionalWorkspace) → All IsAdmitted l → AreNamed l
AreNamed-of [] h = tt
AreNamed-of (aw ∷ l) h = (h.0.0, AreNamed-of l h.1)

ReadsOwn-of :
    (own : Contents) (external : GoMap String) (additional_external : GoMap (GoMap String))
    (packs : Option ResolvedSkillPacks) (inst : Instance) (f : String)
    (l : List AdditionalWorkspace)
    → AreNamed (additional_of inst.workspace)
    → AreNamed l
    → HaveOwn own additional_external packs f (additional_of inst.workspace) l
    → All (ReadsOwn own external additional_external packs inst f) l
unfolding HaveOwn ReadsOwn
ReadsOwn-of own external additional_external packs inst f [] n m h = tt
ReadsOwn-of own external additional_external packs inst f (aw ∷ l) n m h = (
  get-build_workspace_config_map-additional own inst external additional_external packs aw.name f n
        m.0
      ∙ ap
          (λ (o : Option String).
            or_else o
              (default_source own inst external packs (additional_workspace_cm_key aw.name f)))
          h.0,
  ReadsOwn-of own external additional_external packs inst f l n m.1 h.1,
)

-- Where the webhook accepts the workspaces of an instance, the key of a file in an additional
-- workspace has the text of the first of that workspace's sources that has one, and else what the
-- default workspace has under that key: no other additional workspace writes it.
pub validate_workspace_spec-sources :
    (own : Contents) (external : GoMap String) (additional_external : GoMap (GoMap String))
    (packs : Option ResolvedSkillPacks) (ws : WorkspaceSpec) (self_configure : Bool) (f : String)
    → validate_workspace_spec ws ≡ none
    → All
        (λ aw.
          get (additional_workspace_cm_key aw.name f) (
            build_workspace_config_map own
              (record { workspace = some ws; self_configure_enabled = self_configure })
              external
              additional_external
              packs)
          ≡ or_else (additional_source own additional_external packs aw f) (
              default_source own
                (record { workspace = some ws; self_configure_enabled = self_configure })
                external
                packs
                (additional_workspace_cm_key aw.name f)))
        ws.additional_workspaces
unfolding ReadsOwn
validate_workspace_spec-sources own external additional_external packs ws self_configure f p =
    let admitted = validate_workspace_spec-IsAdmitted ws p in
    let named = AreNamed-of ws.additional_workspaces admitted.1 in
    ReadsOwn-of own external additional_external packs
      (record { workspace = some ws; self_configure_enabled = self_configure }) f
      ws.additional_workspaces named named
      (HaveOwn-AreNew own additional_external packs f [] ws.additional_workspaces admitted.2)
