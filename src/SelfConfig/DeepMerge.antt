-- ===== src/SelfConfig/DeepMerge.antt =====
-- `deepMerge` of internal/controller/selfconfig_apply.go.
pub mod Laws
pub mod Paths
use openclaw_operator.Prelude.{
  String, ◌≡◌, refl, sym, ◌∙◌, ap, true, false, Option, none, some, List, [], ◌∷◌, arith, ◌==◌,
  eq_iff, eq_refl, if◌then◌else◌, Bool-cases, inl, inr, Bool, Option-cases,
}
use openclaw_operator.Json.{
  Json, Items, Fields, null, bool, num, str, arr, obj, end, field, get, set, at,
}
use openclaw_operator.Json.Laws.{get-set}

-- The value that the loop over `src` puts at a key: two objects are merged, and otherwise the
-- value of `src` stands. The map `result` starts as a copy of `dst`.
unfoldable mutual
  pub merge_value : Option Json → Json → Json
  merge_value (some (obj dst)) (obj src) = obj (deep_merge dst src)
  merge_value _ (obj src) = obj src
  merge_value _ v = v

  pub deep_merge : Fields → Fields → Fields
  deep_merge result end = result
  deep_merge result (field k v src) = deep_merge (set k (merge_value (get k result) v) result) src
