-- ===== src/Json.antt =====
-- The values that `encoding/json` decodes into `interface{}`.
pub mod Laws
use openclaw_operator.Prelude.{
  String, Bool, true, false, Option, none, some, List, [], ◌∷◌, ◌==◌, if◌then◌else◌,
}

-- A number stands for itself by its text: the program never computes with one. An object is a Go
-- map, with the first field of a name as its entry.
mutual
  pub data Json : Type 0 where
    null : Json
    bool : Bool → Json
    num str : String → Json
    arr : Items → Json
    obj : Fields → Json

  pub data Items : Type 0 where
    nil : Items
    cons : Json → Items → Items

  pub data Fields : Type 0 where
    end : Fields
    field : String → Json → Fields → Fields

-- `v, ok := m[k]`
unfoldable pub get : String → Fields → Option Json
get k end = none
get k (field j v m) = if j == k then some v else get k m

-- `m[k] = v`
unfoldable pub set : String → Json → Fields → Fields
set k v end = field k v end
set k v (field j w m) = if j == k then field k v m else field j w (set k v m)

-- `m, _ := v.(map[string]interface{})`, made empty where that is nil.
unfoldable pub object_or_empty : Option Json → Fields
object_or_empty (some (obj m)) = m
object_or_empty _ = end

-- The bytes of a document, up to what `json.Unmarshal` reads in them.
pub data Raw : Type 0 where
  empty malformed : Raw
  doc : Json → Raw

-- What stands at a path of keys.
unfoldable pub at : List String → Json → Option Json
at [] v = some v
at (k ∷ p) (obj m) = elim (get k m) [ none ↦ none | some v ↦ at p v ]
at (k ∷ p) _ = none

-- `json.Unmarshal(raw, &m)` into a `map[string]interface{}`: `none` is an error, and the document
-- `null` leaves the map nil, which reads like an empty one.
unfoldable pub unmarshal_object : Raw → Option Fields
unmarshal_object (doc (obj m)) = some m
unmarshal_object (doc null) = some end
unmarshal_object _ = none

-- `len(raw) == 0`
abbrev pub is_empty_raw : Raw → Bool
is_empty_raw empty = true
is_empty_raw _ = false
