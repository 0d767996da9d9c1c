-- ===== src/SelfConfig/Files.antt =====
-- `buildWorkspaceFilesApply` of internal/controller/selfconfig_apply.go, and `mergeStringMap` of
-- internal/controller/maps.go, which fills a map in the same way.
use openclaw_operator.Prelude.{
  String, ◌≡◌, true, not, none, [], arith, if◌then◌else◌, loop, contains,
}
use openclaw_operator.GoMap.{GoMap, get, IsKeyed, or_else, set_where, get-loop-set_where}
use openclaw_operator.SelfConfig.{OpenClawSelfConfigSpec}

unfoldable pub build_workspace_files_apply : GoMap String → OpenClawSelfConfigSpec → GoMap String
build_workspace_files_apply current sc =
    let kept =
      loop (set_where (λ name. not (contains sc.remove_workspace_files name))) [] current in
    loop (set_where (λ name. true)) kept sc.add_workspace_files

-- A file has the added content if it is added; if it is not, it is kept unless it is removed. So
-- an addition wins over a removal of the same name.
pub get-build_workspace_files_apply :
    (n : String) (current : GoMap String) (sc : OpenClawSelfConfigSpec)
    → IsKeyed current
    → IsKeyed sc.add_workspace_files
    → get n (build_workspace_files_apply current sc)
      ≡ or_else
          (get n sc.add_workspace_files)
          (if contains sc.remove_workspace_files n then none else get n current)
unfolding build_workspace_files_apply get
get-build_workspace_files_apply n current sc k a =
    let keep = λ (name : String). not (contains sc.remove_workspace_files name) in
    ground (
      arith,
      get-loop-set_where keep n [] current k,
      get-loop-set_where (λ name. true) n (loop (set_where keep) [] current) sc.add_workspace_files
          a,
    )

-- A nil map is made empty first, and reads the same.
unfoldable pub merge_string_map : GoMap String → GoMap String → GoMap String
merge_string_map current desired = loop (set_where (λ k. true)) current desired

-- The desired entries win, and every key that is not desired keeps its value.
pub get-merge_string_map :
    (n : String) (current desired : GoMap String)
    → IsKeyed desired
    → get n (merge_string_map current desired) ≡ or_else (get n desired) (get n current)
unfolding merge_string_map
get-merge_string_map n current desired k = get-loop-set_where (λ k. true) n current desired k
