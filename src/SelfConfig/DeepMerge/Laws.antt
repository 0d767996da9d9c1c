-- ===== src/SelfConfig/DeepMerge/Laws.antt =====
-- A merge key by key, and merging the same patch twice.
use openclaw_operator.Prelude.{
  String, ◌≡◌, refl, sym, ◌∙◌, ap, Option, none, some, arith, ◌==◌, eq_iff, eq_refl, Bool-cases,
  inl, inr,
}
use openclaw_operator.Json.{Json, Fields, obj, end, field, get, set}
use openclaw_operator.Json.Laws.{get-set}
use openclaw_operator.SelfConfig.DeepMerge.{merge_value, deep_merge}

-- The keys of every object are distinct, as those of a decoded object are.
abbrev mutual
  pub IsKeyed : Json → Type 0
  IsKeyed (obj m) = AreKeyed m
  IsKeyed _ = Unit

  pub AreKeyed : Fields → Type 0
  AreKeyed end = Unit
  AreKeyed (field k v m) = (get k m ≡ none) × IsKeyed v × AreKeyed m

-- What stands at a key after a merge.
abbrev pub merged : Option Json → Option Json → Option Json
merged old none = old
merged old (some v) = some (merge_value old v)

-- A merge is done key by key: a key that the patch does not have keeps its value.
pub get-deep_merge :
    (k : String) (dst src : Fields)
    → AreKeyed src
    → get k (deep_merge dst src) ≡ merged (get k dst) (get k src)
unfolding deep_merge get
get-deep_merge k dst end h = refl
get-deep_merge k dst (field j v src) h =
    get-deep_merge k (set j (merge_value (get j dst) v) dst) src h.2 ∙ elim (Bool-cases (j == k)) [
      | inl same ↦
          ground (arith, get-set j k (merge_value (get j dst) v) dst, eq_iff j k, h.0, same)
      | inr other ↦ ground (arith, get-set j k (merge_value (get j dst) v) dst, other)
    ]

-- A key that the patch does not have keeps its value, whatever else the patch holds.
pub get-deep_merge_of_none :
    (k : String) (dst src : Fields) → get k src ≡ none → get k (deep_merge dst src) ≡ get k dst
unfolding deep_merge get
get-deep_merge_of_none k dst end h = refl
get-deep_merge_of_none k dst (field j v src) h =
    get-deep_merge_of_none k (set j (merge_value (get j dst) v) dst) src (ground arith)
    ∙ ground (arith, get-set j k (merge_value (get j dst) v) dst)

-- Writing what is there already.
set_same : (k : String) (v : Json) (m : Fields) → get k m ≡ some v → set k v m ≡ m
unfolding get set
set_same k v end h = cc
set_same k v (field j w m) h = ground (arith, eq_iff j k, set_same k v m)

-- Every key of the patch has been merged into the object.
abbrev Absorbs : Fields → Fields → Type 0
Absorbs m end = Unit
Absorbs m (field k v src) = ((o : Option Json) × (get k m ≡ some (merge_value o v))) × Absorbs m src

Absorbs-of_get :
    (m dst whole src : Fields)
    → ((k : String) → get k m ≡ merged (get k dst) (get k whole))
    → ((k : String) (v : Json) → get k src ≡ some v → get k whole ≡ some v)
    → AreKeyed src
    → Absorbs m src
unfolding get
Absorbs-of_get m dst whole end h sub keyed = tt
Absorbs-of_get m dst whole (field k v src) h sub keyed =
    let there : get k whole ≡ some v = sub k v (ground (arith, eq_refl k)) in
    (
      (get k dst, ground (arith, h k)),
      Absorbs-of_get m dst whole src h (λ j w e. sub j w (ground (arith, eq_iff k j, keyed.0)))
          keyed.2,
    )

pub merge_value-none : (v : Json) → merge_value none v ≡ v
unfolding merge_value
merge_value-none (obj src) = refl
merge_value-none v = refl

Absorbs-self : (src : Fields) → AreKeyed src → Absorbs src src
unfolding get
Absorbs-self src h = Absorbs-of_get src end src src (λ k. itself (get k src)) (λ k v e. e) h
  where
    itself : (o : Option Json) → o ≡ merged none o
    itself none = refl
    itself (some v) = ap some (sym (merge_value-none v))

mutual
  unfolding merge_value

  merge_value_twice :
      (o : Option Json) (v : Json)
      → IsKeyed v
      → merge_value (some (merge_value o v)) v ≡ merge_value o v
  merge_value_twice (some (obj dst)) (obj src) h = ap obj (
      deep_merge_of_Absorbs (deep_merge dst src) src
        (Absorbs-of_get (deep_merge dst src) dst src src (λ k. get-deep_merge k dst src h)
          (λ k v e. e) h)
        h)
  merge_value_twice o (obj src) h = ap obj (deep_merge_of_Absorbs src src (Absorbs-self src h) h)
  merge_value_twice o v h = refl

  deep_merge_of_Absorbs : (m src : Fields) → Absorbs m src → AreKeyed src → deep_merge m src ≡ m
  deep_merge_of_Absorbs m end a h = refl
  deep_merge_of_Absorbs m (field k v src) ((o, there), a) (_, hv, h) =
      let kept : merge_value (get k m) v ≡ merge_value o v =
        ap (λ x. merge_value x v) there ∙ merge_value_twice o v hv in
      ap (λ x. deep_merge (set k x m) src) kept
      ∙ ap (λ x. deep_merge x src) (set_same k (merge_value o v) m there)
      ∙ deep_merge_of_Absorbs m src a h

-- Merging the same patch again changes nothing, not even the order of the keys.
pub deep_merge_idem :
    (dst src : Fields) → AreKeyed src → deep_merge (deep_merge dst src) src ≡ deep_merge dst src
deep_merge_idem dst src h =
    deep_merge_of_Absorbs (deep_merge dst src) src
      (Absorbs-of_get (deep_merge dst src) dst src src (λ k. get-deep_merge k dst src h)
        (λ k v e. e) h)
      h
