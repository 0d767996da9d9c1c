-- ===== src/SelfConfig/ManagedFields.antt =====
-- The managed fields of server-side apply, as internal/controller/selfconfig_managed_fields.go
-- reads them.
pub mod Owned
use openclaw_operator.Prelude.{
  String, Bool, true, false, not, ◌&&◌, Option, none, some, List, [], ◌∷◌, concat, append, len,
  slice, ◌==◌, if◌then◌else◌,
}
use openclaw_operator.GoMap.{GoMap}
use openclaw_operator.GoMap as Map
use openclaw_operator.Json.{Json, Fields, Raw, obj, end, field, get, unmarshal_object}
use openclaw_operator.SelfConfig.Removal.{self_config_field_manager}
use text.Mathlib.Text.{starts_with}

-- `metav1.ManagedFieldsOperationType`
pub data Operation : Type 0 where
  apply update : Operation

-- `metav1.ManagedFieldsEntry`; `fields_v1` is a pointer to the bytes of a document.
pub record ManagedFieldsEntry : Type 0 where
  pub manager : String
  pub operation : Operation
  pub fields_v1 : Option Raw

-- `entry.Operation == metav1.ManagedFieldsOperationApply`
abbrev pub is_apply : Operation → Bool
is_apply apply = true
is_apply update = false

-- The fields of an entry; a pointer that is nil and an error are the same to every caller.
unfoldable pub decode_fields : Option Raw → Option Fields
decode_fields none = none
decode_fields (some raw) = unmarshal_object raw

-- `findSelfConfigFields`: the first entry of the field manager decides.
unfoldable pub find_self_config_fields : List ManagedFieldsEntry → Option Fields
find_self_config_fields [] = none
find_self_config_fields (e ∷ entries) =
    if e.manager == self_config_field_manager && is_apply e.operation
    then decode_fields e.fields_v1
    else find_self_config_fields entries

-- `next.(map[string]interface{})`
unfoldable pub as_object : Option Json → Option Fields
as_object (some (obj m)) = some m
as_object _ = none

-- `navigateFields`
unfoldable pub navigate_fields : Option Fields → List String → Option Fields
navigate_fields none path = none
navigate_fields (some m) [] = some m
navigate_fields (some m) (segment ∷ path) = navigate_fields (as_object (get segment m)) path

-- `_, ok := container[key]`
unfoldable pub has_key : String → Option Fields → Bool
has_key key none = false
has_key key (some container) = elim (get key container) [ none ↦ false | some v ↦ true ]

-- The container of an entry that counts in the search for a field manager.
unfoldable pub container_of : ManagedFieldsEntry → List String → Option Fields
container_of e path =
    if is_apply e.operation then navigate_fields (decode_fields e.fields_v1) path else none

-- `findFieldManagerByKey`
unfoldable pub find_field_manager_by_key : List ManagedFieldsEntry → String → List String → String
find_field_manager_by_key [] key path = ""
find_field_manager_by_key (e ∷ entries) key path =
    if has_key key (container_of e path)
    then e.manager
    else find_field_manager_by_key entries key path

-- What is behind a prefix of two characters, for the keys that have it.
unfoldable pub behind : String → Fields → List String
behind prefix end = []
behind prefix (field key v m) =
    if starts_with key prefix then slice key 2 (len key) ∷ behind prefix m else behind prefix m

-- The loops that collect such names; nil where there is no container.
unfoldable pub owned_behind : String → Option Fields → Option (List String)
owned_behind prefix none = none
owned_behind prefix (some container) = some (behind prefix container)

abbrev pub skills_path : List String
skills_path = "f:spec" ∷ "f:skills" ∷ []

abbrev pub env_path : List String
env_path = "f:spec" ∷ "f:env" ∷ []

abbrev pub files_path : List String
files_path = "f:spec" ∷ "f:workspace" ∷ "f:initialFiles" ∷ []

-- `extractOwnedSkills`
unfoldable pub extract_owned_skills : List ManagedFieldsEntry → Option (List String)
extract_owned_skills entries =
    owned_behind "v:" (navigate_fields (find_self_config_fields entries) skills_path)

-- `extractOwnedWorkspaceFiles`
unfoldable pub extract_owned_workspace_files : List ManagedFieldsEntry → Option (List String)
extract_owned_workspace_files entries =
    owned_behind "f:" (navigate_fields (find_self_config_fields entries) files_path)

-- `findSkillFieldManager`
unfoldable pub find_skill_field_manager : List ManagedFieldsEntry → String → String
find_skill_field_manager entries skill =
    find_field_manager_by_key entries (append "v:" skill) skills_path

-- `findEnvVarFieldManager`
unfoldable pub find_env_var_field_manager : List ManagedFieldsEntry → String → String
find_env_var_field_manager entries name =
    find_field_manager_by_key entries (concat ("k:{\"name\":\"" ∷ name ∷ "\"}" ∷ [])) env_path

-- `findWorkspaceFileFieldManager`
unfoldable pub find_workspace_file_field_manager : List ManagedFieldsEntry → String → String
find_workspace_file_field_manager entries filename =
    find_field_manager_by_key entries (append "f:" filename) files_path

-- `parse` is what `json.Unmarshal` reads of a text into a map of texts, `none` being its error.
module _ (parse : String → Option (GoMap String)) where
  -- `extractNameFromMapKey`
  unfoldable pub extract_name_from_map_key : String → String
  extract_name_from_map_key key = elim (parse (slice key 2 (len key))) [
    | none ↦ ""
    | some m ↦ elim (Map.get "name" m) [ none ↦ "" | some name ↦ name ]
  ]

  unfoldable pub names_of : Fields → List String
  names_of end = []
  names_of (field key v m) =
      let name = extract_name_from_map_key key in
      let rest = names_of m in
      if starts_with key "k:" && not (name == "") then name ∷ rest else rest

  -- `extractOwnedEnvVars`
  unfoldable pub extract_owned_env_vars : List ManagedFieldsEntry → Option (List String)
  extract_owned_env_vars entries =
      elim (navigate_fields (find_self_config_fields entries) env_path) [
        | none ↦ none
        | some container ↦ some (names_of container)
      ]
