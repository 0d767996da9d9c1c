-- ===== src/Registry/Latest.antt =====
-- What `LatestSemver` of internal/registry/resolver.go gives.
use openclaw_operator.Prelude.{
  Bool-cases, String, ◌≡◌, ◌⊎◌, inl, inr, refl, sym, ap, ◌∙◌, subst, Bool, true, false, Option,
  none, some, List, [], ◌∷◌, arith, if◌then◌else◌, Result, ok, err, loop, contains, eq_iff,
}
use openclaw_operator.Semver.{Semver}
use openclaw_operator.Registry.{Error, no_stable_tags}
use openclaw_operator.Registry.Resolver.{candidate, better, latest_semver}

module _ (semver : Semver) (check : semver.Version → Bool) where
  open semver use {Version, parse, is_prerelease, greater, greater_irrefl, greater_trans}

  -- No tag of a set has a version that is greater than `v`.
  abbrev IsMaximal : (String → Type 0) → Version → Type 0
  IsMaximal S v =
      (s : String) (u : Version) → S s → candidate semver check s ≡ some u → greater u v ≡ false

  -- The best of the tags of a set, with its version.
  abbrev IsBest : (String → Type 0) → Option (Version × String) → Type 0
  IsBest S none = (s : String) → S s → candidate semver check s ≡ none
  IsBest S (some b) = S b.1 × (candidate semver check b.1 ≡ some b.0) × IsMaximal S b.0

  abbrev WithTag : String → (String → Type 0) → String → Type 0
  WithTag tag S s = (s ≡ tag) ⊎ S s

  abbrev WithTags : List String → (String → Type 0) → String → Type 0
  WithTags [] S = S
  WithTags (t ∷ ts) S = WithTags ts (WithTag t S)

  true_not_false : true ≡ false → ⊥
  true_not_false p = ground (arith, p)

  false_not_true : false ≡ true → ⊥
  false_not_true p = ground (arith, p)

  none_not_some : {v : Version} → ◌≡◌ {A = Option Version} none (some v) → ⊥
  none_not_some p = ground (arith, p)

  some-eq : {u v : Version} → some u ≡ some v → u ≡ v
  some-eq p = cc

  -- A version that is greater than one that Nothing exceeds is exceeded by Nothing either.
  exceeded_not : (u v b : Version) → greater v b ≡ true → greater u b ≡ false → greater u v ≡ false
  exceeded_not u v b p q = elim (Bool-cases (greater u v)) [
    | inl r ↦ absurd (true_not_false (sym (greater_trans u v b r p) ∙ q))
    | inr r ↦ r
  ]

  IsMaximal-WithTag :
      (S : String → Type 0) (tag : String) (v w : Version)
      → candidate semver check tag ≡ some w
      → greater w v ≡ false
      → IsMaximal S v
      → IsMaximal (WithTag tag S) v
  IsMaximal-WithTag S tag v w c g h s u (inl p) q =
      subst (λ x. greater x v ≡ false) (some-eq (sym c ∙ ap (candidate semver check) (sym p) ∙ q)) g
  IsMaximal-WithTag S tag v w c g h s u (inr m) q = h s u m q

  IsMaximal-without :
      (S : String → Type 0) (tag : String) (v : Version)
      → candidate semver check tag ≡ none
      → IsMaximal S v
      → IsMaximal (WithTag tag S) v
  IsMaximal-without S tag v c h s u (inl p) q =
      absurd (none_not_some (sym c ∙ ap (candidate semver check) (sym p) ∙ q))
  IsMaximal-without S tag v c h s u (inr m) q = h s u m q

  IsBest-greater :
      (S : String → Type 0) (b : Version × String) (tag : String) (v : Version) (g : Bool)
      → candidate semver check tag ≡ some v
      → greater v b.0 ≡ g
      → IsBest S (some b)
      → IsBest (WithTag tag S) (if g then some (v, tag) else some b)
  IsBest-greater S b tag v true c q h = (
    inl refl,
    c,
    IsMaximal-WithTag S tag v v c (greater_irrefl v)
        (λ s u m r. exceeded_not u v b.0 q (h.2 s u m r)),
  )
  IsBest-greater S b tag v false c q h = (inr h.0, h.1, IsMaximal-WithTag S tag b.0 v c q h.2)

  IsBest-step :
      (S : String → Type 0) (best : Option (Version × String)) (tag : String) (c : Option Version)
      → candidate semver check tag ≡ c
      → IsBest S best
      → IsBest (WithTag tag S) (elim c [
        | none ↦ best
        | some v ↦ elim best [
          | none ↦ some (v, tag)
          | some b ↦ if greater v b.0 then some (v, tag) else some b
        ]
      ])
  IsBest-step S none tag none c h =
      λ s m. elim m [ inl p ↦ ap (candidate semver check) p ∙ c | inr m ↦ h s m ]
  IsBest-step S (some b) tag none c h = (inr h.0, h.1, IsMaximal-without S tag b.0 c h.2)
  IsBest-step S none tag (some v) c h = (
    inl refl,
    c,
    IsMaximal-WithTag S tag v v c (greater_irrefl v)
        (λ s u m q. absurd (none_not_some (sym (h s m) ∙ q))),
  )
  IsBest-step S (some b) tag (some v) c h = IsBest-greater S b tag v (greater v b.0) c refl h

  IsBest-better :
      (S : String → Type 0) (best : Option (Version × String)) (tag : String)
      → IsBest S best
      → IsBest (WithTag tag S) (better semver check best tag)
  unfolding better
  IsBest-better S best tag h = IsBest-step S best tag (candidate semver check tag) refl h

  IsBest-loop :
      (S : String → Type 0) (best : Option (Version × String)) (tags : List String)
      → IsBest S best
      → IsBest (WithTags tags S) (loop (better semver check) best tags)
  IsBest-loop S best [] h = h
  IsBest-loop S best (t ∷ ts) h =
      IsBest-loop (WithTag t S) (better semver check best t) ts (IsBest-better S best t h)

  -- The tags that the loop has seen are the ones in the list.
  WithTags-of :
      (tags : List String) (S : String → Type 0) (s : String)
      → (contains tags s ≡ true) ⊎ S s
      → WithTags tags S s
  unfolding contains
  WithTags-of [] S s (inl p) = absurd (false_not_true p)
  WithTags-of [] S s (inr m) = m
  WithTags-of (t ∷ ts) S s m = WithTags-of ts (WithTag t S) s (ground (arith, m, eq_iff t s))

  of-WithTags :
      (tags : List String) (S : String → Type 0) (s : String)
      → WithTags tags S s
      → (contains tags s ≡ true) ⊎ S s
  unfolding contains
  of-WithTags [] S s m = inr m
  of-WithTags (t ∷ ts) S s m = ground (arith, of-WithTags ts (WithTag t S) s m, eq_iff t s)

  Nothing : String → Type 0
  Nothing s = ⊥

  -- `t` is one of the tags, it is a stable version within the constraint, and no other such tag is
  -- greater.
  abbrev pub IsLatest : List String → String → Type 0
  IsLatest tags t =
      (contains tags t ≡ true)
      × ((v : Version) × (candidate semver check t ≡ some v)
          × ((s : String) (u : Version)
              → contains tags s ≡ true
              → candidate semver check s ≡ some u
              → greater u v ≡ false))

  IsBest-latest :
      (tags : List String) → IsBest (WithTags tags Nothing) (loop (better semver check) none tags)
  unfolding Nothing
  IsBest-latest tags = IsBest-loop Nothing none tags (λ s m. absurd m)

  in_tags : (tags : List String) (s : String) → WithTags tags Nothing s → contains tags s ≡ true
  unfolding Nothing
  in_tags tags s m = elim (of-WithTags tags Nothing s m) [ inl p ↦ p | inr n ↦ absurd n ]

  ok-eq : {a b : String} → ◌≡◌ {A = Result Error String} (ok a) (ok b) → a ≡ b
  ok-eq p = cc

  of_best :
      (tags : List String) (best : Option (Version × String)) (t : String)
      → IsBest (WithTags tags Nothing) best
      → ◌≡◌ {A = Result Error String}
          (elim best [ none ↦ err no_stable_tags | some b ↦ ok b.1 ])
          (ok t)
      → IsLatest tags t
  of_best tags none t h p = ground (arith, p)
  of_best tags (some b) t h p =
      subst (IsLatest tags) (ok-eq p) (
        in_tags tags b.1 h.0,
        (b.0, h.1, λ s u m q. h.2 s u (WithTags-of tags Nothing s (inl m)) q),
      )

  -- A tag that `LatestSemver` gives is one of the tags, a stable version within the constraint, and
  -- no other stable version within the constraint is greater.
  pub latest_semver-IsLatest :
      (tags : List String) (t : String) → latest_semver semver check tags ≡ ok t → IsLatest tags t
  unfolding latest_semver
  latest_semver-IsLatest tags t p =
      of_best tags (loop (better semver check) none tags) t (IsBest-latest tags) p

  none_of :
      (tags : List String) (best : Option (Version × String)) (e : Error)
      → IsBest (WithTags tags Nothing) best
      → ◌≡◌ {A = Result Error String}
          (elim best [ none ↦ err no_stable_tags | some b ↦ ok b.1 ])
          (err e)
      → (s : String) → contains tags s ≡ true
      → candidate semver check s ≡ none
  none_of tags none e h p s m = h s (WithTags-of tags Nothing s (inl m))
  none_of tags (some b) e h p s m = ground (arith, p)

  -- Where `LatestSemver` fails, none of the tags is a stable version within the constraint.
  pub latest_semver-none :
      (tags : List String) (e : Error)
      → latest_semver semver check tags ≡ err e
      → (s : String) → contains tags s ≡ true
      → candidate semver check s ≡ none
  unfolding latest_semver
  latest_semver-none tags e p =
      none_of tags (loop (better semver check) none tags) e (IsBest-latest tags) p
