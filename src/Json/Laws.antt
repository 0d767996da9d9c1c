-- ===== src/Json/Laws.antt =====
-- Laws of objects.
use openclaw_operator.Prelude.{String, ◌≡◌, refl, some, arith, ◌==◌, eq_iff, if◌then◌else◌}
use openclaw_operator.Json.{Json, Fields, end, field, get, set}

pub get-set :
    (k j : String) (v : Json) (m : Fields)
    → get j (set k v m) ≡ (if k == j then some v else get j m)
unfolding get set
get-set k j v end = refl
get-set k j v (field i w m) = ground (arith, eq_iff k j, eq_iff i k, eq_iff i j, get-set k j v m)
