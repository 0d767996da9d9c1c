-- ===== src/SelfConfig/DeepMerge/Paths.antt =====
-- A merge as it is seen at the paths of a document.
use openclaw_operator.Prelude.{
  String, ◌≡◌, refl, sym, ◌∙◌, ap, Option, none, some, List, [], ◌∷◌, arith, ◌==◌, Bool-cases, inl,
  inr, Option-cases, subst,
}
use openclaw_operator.Json.{Json, Fields, obj, end, field, get, at}
use openclaw_operator.SelfConfig.DeepMerge.{merge_value, deep_merge}
use openclaw_operator.SelfConfig.DeepMerge.Laws.{
  IsKeyed, AreKeyed, merged, get-deep_merge, merge_value-none,
}

-- Anything but an object: a patch puts it in place of what was there.
abbrev pub IsLeaf : Json → Type 0
IsLeaf (obj m) = ⊥
IsLeaf _ = Unit

-- The patch has objects down to where it says nothing of the path.
abbrev pub IsSilent : List String → Json → Type 0
IsSilent [] v = ⊥
IsSilent (k ∷ p) (obj m) = elim (get k m) [ none ↦ Unit | some v ↦ IsSilent p v ]
IsSilent (k ∷ p) _ = ⊥

abbrev IsSilentUnder : List String → Option Json → Type 0
IsSilentUnder p o = elim o [ none ↦ Unit | some v ↦ IsSilent p v ]

IsKeyed-get : (k : String) (m : Fields) (v : Json) → AreKeyed m → get k m ≡ some v → IsKeyed v
unfolding get
IsKeyed-get k end v h e = cc
IsKeyed-get k (field j w m) v (_, hw, h) e = elim (Bool-cases (j == k)) [
  | inl same ↦ subst IsKeyed (ground (arith, same)) hw
  | inr other ↦ IsKeyed-get k m v h (ground (arith, other))
]

merge_value_leaf : (o : Option Json) (v : Json) → IsLeaf v → merge_value o v ≡ v
unfolding merge_value
merge_value_leaf o (obj m) h = absurd h
merge_value_leaf (some (obj d)) v h = refl
merge_value_leaf o v h = refl

-- `at` one key further down.
abbrev under : List String → Option Json → Option Json
under p o = elim o [ none ↦ none | some v ↦ at p v ]

under-some :
    (p : List String) (o : Option Json) (w : Json)
    → under p o ≡ some w
    → (v : Json) × (o ≡ some v) × (at p v ≡ some w)
under-some p none w e = cc
under-some p (some v) w e = (v, refl, e)

-- An object is merged with an object, and takes the place of anything else.
abbrev NoObject : Option Json → Type 0
NoObject (some (obj m)) = ⊥
NoObject _ = Unit

at-merge_obj :
    (k : String) (p : List String) (o : Option Json) (src : Fields) (r : Option Json)
    → ((dst : Fields) → under p (get k (deep_merge dst src)) ≡ r)
    → (NoObject o → at (k ∷ p) (obj src) ≡ r)
    → at (k ∷ p) (merge_value o (obj src)) ≡ r
unfolding merge_value at
at-merge_obj k p (some (obj dst)) src r d e = d dst
at-merge_obj k p o src r d e = e tt

-- Whatever a patch has at a path that is no object is what the merged document has there.
pub at-merge_value :
    (p : List String) (o : Option Json) (v w : Json)
    → IsKeyed v
    → at p v ≡ some w
    → IsLeaf w
    → at p (merge_value o v) ≡ some w
unfolding at
at-merge_value [] o v w h e l =
    let same : v ≡ w = cc in ap some (merge_value_leaf o v (subst IsLeaf (sym same) l) ∙ same)
at-merge_value (k ∷ p) o (obj src) w h e l =
    let (v, there, below) = under-some p (get k src) w e in
    let deeper = λ (dst : Fields).
      ap (under p) (get-deep_merge k dst src h ∙ ap (merged (get k dst)) there)
      ∙ at-merge_value p (get k dst) v w (IsKeyed-get k src v h there) below l in
    at-merge_obj k p o src (some w) deeper (λ dull. e)
at-merge_value (k ∷ p) o v w h e l = cc

at_of_IsSilent : (p : List String) (v : Json) → IsSilent p v → at p v ≡ none
unfolding at
at_of_IsSilent [] v h = absurd h
at_of_IsSilent (k ∷ p) (obj m) h = elim (Option-cases (get k m)) [
  | inl missing ↦ ap (under p) missing
  | inr (v, there) ↦ ap (under p) there ∙ at_of_IsSilent p v (subst (IsSilentUnder p) there h)
]
at_of_IsSilent (k ∷ p) v h = absurd h

under-merged :
    (p : List String) (old new : Option Json)
    → ((b v : Json) → new ≡ some v → IsSilent p v → at p (merge_value (some b) v) ≡ at p b)
    → IsSilentUnder p new
    → under p (merged old new) ≡ under p old
under-merged p old none ih s = refl
under-merged p none (some v) ih s = ap (at p) (merge_value-none v) ∙ at_of_IsSilent p v s
under-merged p (some b) (some v) ih s = ih b v refl s

-- What the patch says nothing of stands as it was.
pub at-merge_value_of_IsSilent :
    (p : List String) (b v : Json)
    → IsKeyed v
    → IsSilent p v
    → at p (merge_value (some b) v) ≡ at p b
unfolding at merge_value
at-merge_value_of_IsSilent [] b v h s = absurd s
at-merge_value_of_IsSilent (k ∷ p) (obj dst) (obj src) h s =
    ap (under p) (get-deep_merge k dst src h)
    ∙ under-merged p (get k dst) (get k src)
        (λ b v e q. at-merge_value_of_IsSilent p b v (IsKeyed-get k src v h e) q) s
at-merge_value_of_IsSilent (k ∷ p) b (obj src) h s = at_of_IsSilent (k ∷ p) (obj src) s
at-merge_value_of_IsSilent (k ∷ p) b v h s = absurd s
