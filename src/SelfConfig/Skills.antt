-- ===== src/SelfConfig/Skills.antt =====
-- `buildSkillsApply` of internal/controller/selfconfig_apply.go.
use openclaw_operator.Prelude.{
  String, ◌≡◌, refl, sym, ◌∙◌, ap, true, false, ◌&&◌, ◌||◌, not, List, [], ◌∷◌, ◌++◌, arith, ◌==◌,
  eq_iff, if◌then◌else◌, loop, loop-append, contains, contains-append, IsDistinct, append_assoc,
  append-nil, eq_refl,
}
use openclaw_operator.SelfConfig.{OpenClawSelfConfigSpec}

-- The variables of the two loops: the set `seen` and the slice `result`.
pub record Merge : Type 0 where
  pub seen : List String
  pub result : List String

abbrev pub append_seen : Merge → String → Merge
append_seen m s = record { seen = s ∷ m.seen; result = m.result ++ s ∷ [] }

-- One round of the loop over `current`.
unfoldable pub keep_skill : List String → Merge → String → Merge
keep_skill remove_set m s =
    if contains remove_set s then m else if not (contains m.seen s) then append_seen m s else m

-- One round of the loop over `sc.Spec.AddSkills`.
unfoldable pub add_skill : List String → Merge → String → Merge
add_skill remove_set m s =
    if not (contains m.seen s) && not (contains remove_set s) then append_seen m s else m

unfoldable pub build_skills_apply : List String → OpenClawSelfConfigSpec → List String
build_skills_apply current sc =
    let kept = loop (keep_skill sc.remove_skills) (record { seen = []; result = [] }) current in
    (loop (add_skill sc.remove_skills) kept sc.add_skills).result

-- Both loops are one loop over the two lists behind one another.
add_skill-eq-keep_skill :
    (r : List String) (m : Merge) (s : String) → add_skill r m s ≡ keep_skill r m s
unfolding add_skill keep_skill
add_skill-eq-keep_skill r m s = ground arith

loop-add_skill :
    (r : List String) (m : Merge) (xs : List String)
    → loop (add_skill r) m xs ≡ loop (keep_skill r) m xs
loop-add_skill r m [] = refl
loop-add_skill r m (x ∷ xs) =
    rw (add_skill-eq-keep_skill r m x) (loop-add_skill r (keep_skill r m x) xs)

empty_merge : Merge
empty_merge = record { seen = []; result = [] }

build-eq-loop :
    (current : List String) (sc : OpenClawSelfConfigSpec)
    → build_skills_apply current sc
      ≡ (loop (keep_skill sc.remove_skills) empty_merge (current ++ sc.add_skills)).result
unfolding build_skills_apply empty_merge
build-eq-loop current sc =
    let keep = keep_skill sc.remove_skills in
    let kept = loop keep empty_merge current in
    ap (λ (m : Merge). m.result)
      (loop-add_skill sc.remove_skills kept sc.add_skills
        ∙ sym (loop-append keep empty_merge current sc.add_skills))

-- `seen` holds what `result` holds, and `result` holds nothing twice.
record IsSync (m : Merge) : Type 0 where
  same : (s : String) → contains m.seen s ≡ contains m.result s
  distinct : IsDistinct m.result

IsDistinct-concat :
    (xs : List String) (x : String)
    → IsDistinct xs
    → contains xs x ≡ false
    → IsDistinct (xs ++ x ∷ [])
unfolding contains
IsDistinct-concat [] x d h = (refl, tt)
IsDistinct-concat (y ∷ xs) x d h = (
  ground (arith, contains-append xs (x ∷ []) y, eq_iff x y, eq_iff y x),
  IsDistinct-concat xs x d.1 (ground arith),
)

keep_skill-IsSync :
    (r : List String) (m : Merge) (s : String) → IsSync m → IsSync (keep_skill r m s)
unfolding keep_skill contains
keep_skill-IsSync r m s i = record {
  same = λ t. ground (arith, i.same t, contains-append m.result (s ∷ []) t);
  distinct = ground (arith, i.distinct, i.same s, IsDistinct-concat m.result s);
}

contains-keep_skill :
    (r : List String) (m : Merge) (s t : String)
    → IsSync m
    → contains (keep_skill r m s).result t ≡ (contains m.result t || (s == t && not (contains r t)))
unfolding keep_skill contains
contains-keep_skill r m s t i =
    ground (arith, i.same s, contains-append m.result (s ∷ []) t, eq_iff s t)

loop-IsSync :
    (r : List String) (m : Merge) (xs : List String) → IsSync m → IsSync (loop (keep_skill r) m xs)
loop-IsSync r m [] i = i
loop-IsSync r m (x ∷ xs) i = loop-IsSync r (keep_skill r m x) xs (keep_skill-IsSync r m x i)

contains-loop :
    (r : List String) (m : Merge) (xs : List String) (t : String)
    → IsSync m
    → contains (loop (keep_skill r) m xs).result t
      ≡ (contains m.result t || (contains xs t && not (contains r t)))
unfolding contains
contains-loop r m [] t i = ground arith
contains-loop r m (x ∷ xs) t i = ground (
  arith,
  contains-loop r (keep_skill r m x) xs t (keep_skill-IsSync r m x i),
  contains-keep_skill r m x t i,
)

empty_merge-IsSync : IsSync empty_merge
unfolding empty_merge
empty_merge-IsSync = record { same = λ s. refl; distinct = tt }

-- The new list holds a skill exactly when it was listed or is added, and is not removed: where a
-- request adds and removes the same skill, it is gone.
pub contains-build_skills_apply :
    (current : List String) (sc : OpenClawSelfConfigSpec) (s : String)
    → contains (build_skills_apply current sc) s
      ≡ ((contains current s || contains sc.add_skills s) && not (contains sc.remove_skills s))
unfolding empty_merge contains
contains-build_skills_apply current sc s = rw build-eq-loop (
    ground (
      arith,
      contains-loop sc.remove_skills empty_merge (current ++ sc.add_skills) s empty_merge-IsSync,
      contains-append current sc.add_skills s,
    ))

-- No skill is listed twice.
pub build_skills_apply-IsDistinct :
    (current : List String) (sc : OpenClawSelfConfigSpec)
    → IsDistinct (build_skills_apply current sc)
build_skills_apply-IsDistinct current sc =
    rw build-eq-loop
      (loop-IsSync sc.remove_skills empty_merge (current ++ sc.add_skills)
        empty_merge-IsSync).distinct

-- Where nothing is in the set of removals and no skill occurs twice, a loop appends what it meets.
record IsFresh (r : List String) (m : Merge) (xs : List String) : Type 0 where
  kept : (s : String) → contains xs s ≡ true → contains r s ≡ false
  apart : (s : String) → contains xs s ≡ true → contains m.seen s ≡ false
  distinct : IsDistinct xs

IsFresh-keep_skill :
    (r : List String) (m : Merge) (x : String) (xs : List String)
    → IsFresh r m (x ∷ xs)
    → IsFresh r (append_seen m x) xs
unfolding contains
IsFresh-keep_skill r m x xs f = record {
  kept = λ s h. f.kept s (ground arith);
  apart = λ s h. ground (arith, f.apart s, f.distinct, eq_iff x s);
  distinct = f.distinct.1;
}

keep_skill_of_IsFresh :
    (r : List String) (m : Merge) (x : String) (xs : List String)
    → IsFresh r m (x ∷ xs)
    → keep_skill r m x ≡ append_seen m x
unfolding keep_skill contains
keep_skill_of_IsFresh r m x xs f = ground (arith, f.kept x, f.apart x, eq_refl x)

loop_of_IsFresh :
    (r : List String) (m : Merge) (xs : List String)
    → IsFresh r m xs
    → (loop (keep_skill r) m xs).result ≡ m.result ++ xs
loop_of_IsFresh r m [] f = sym (append-nil m.result)
loop_of_IsFresh r m (x ∷ xs) f =
    ap (λ (n : Merge). (loop (keep_skill r) n xs).result) (keep_skill_of_IsFresh r m x xs f)
    ∙ loop_of_IsFresh r (append_seen m x) xs (IsFresh-keep_skill r m x xs f)
    ∙ append_assoc m.result (x ∷ []) xs

-- A loop over skills that are removed or already seen changes nothing.
loop_of_seen :
    (r : List String) (m : Merge) (xs : List String)
    → ((s : String) → contains xs s ≡ true → (contains m.seen s || contains r s) ≡ true)
    → loop (keep_skill r) m xs ≡ m
unfolding keep_skill contains
loop_of_seen r m [] h = refl
loop_of_seen r m (x ∷ xs) h =
    let same : keep_skill r m x ≡ m = ground (arith, h x, eq_refl x) in
    rw same (loop_of_seen r m xs (λ s k. h s (ground arith)))

-- Applying the same request again changes nothing.
pub build_skills_apply_idem :
    (current : List String) (sc : OpenClawSelfConfigSpec)
    → build_skills_apply (build_skills_apply current sc) sc ≡ build_skills_apply current sc
unfolding empty_merge contains
build_skills_apply_idem current sc =
    let once = build_skills_apply current sc in
    let r = sc.remove_skills in
    let fresh : IsFresh r empty_merge once = record {
      kept = λ s h. ground (arith, contains-build_skills_apply current sc s);
      apart = λ s h. refl;
      distinct = build_skills_apply-IsDistinct current sc;
    } in
    let first = loop (keep_skill r) empty_merge once in
    let result : first.result ≡ once = loop_of_IsFresh r empty_merge once fresh in
    let sync = loop-IsSync r empty_merge once empty_merge-IsSync in
    let rest : loop (keep_skill r) first sc.add_skills ≡ first =
      loop_of_seen r first sc.add_skills
        (λ s h. ground (arith, sync.same s, result, contains-build_skills_apply current sc s)) in
    build-eq-loop once sc
    ∙ ap (λ (m : Merge). m.result)
        (loop-append (keep_skill r) empty_merge once sc.add_skills ∙ rest)
    ∙ result
