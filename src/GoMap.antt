-- ===== src/GoMap.antt =====
-- Go's `map[string]V`, as an association list that is read by its first entry for a key. The order
-- of the entries stands for the order in which a `range` loop meets them.
use openclaw_operator.Prelude.{
  String, ◌≡◌, Option, none, some, List, [], ◌∷◌, arith, ◌==◌, eq_iff, if◌then◌else◌, refl, Bool,
  loop, ◌∙◌,
}

abbrev pub GoMap {ℓ} : Type ℓ → Type ℓ
GoMap V = List (String × V)

module _ {ℓ} {V : Type ℓ} where
  -- `v, ok := m[k]`
  unfoldable pub get : String → GoMap V → Option V
  get k [] = none
  get k ((j, v) ∷ m) = if j == k then some v else get k m

  -- `m[k] = v`
  unfoldable pub set : String → V → GoMap V → GoMap V
  set k v [] = (k, v) ∷ []
  set k v ((j, w) ∷ m) = if j == k then (k, v) ∷ m else (j, w) ∷ set k v m

  pub get-set :
      (k j : String) (v : V) (m : GoMap V)
      → get j (set k v m) ≡ (if k == j then some v else get j m)
  unfolding get set
  get-set k j v [] = refl
  get-set k j v ((i, w) ∷ m) = ground (arith, eq_iff k j, eq_iff i k, eq_iff i j, get-set k j v m)

  -- The keys of a map are distinct, as those of every Go map are.
  abbrev pub IsKeyed : GoMap V → Type ℓ
  IsKeyed [] = Unit
  IsKeyed ((k, v) ∷ m) = (get k m ≡ none) × IsKeyed m

  -- `a`, or `b` where `a` is missing.
  abbrev pub or_else : Option V → Option V → Option V
  or_else none b = b
  or_else (some v) b = some v

  -- One round of `for k, v := range m { if p(k) { r[k] = v } }`.
  abbrev pub set_where : (String → Bool) → GoMap V → String × V → GoMap V
  set_where p r (k, v) = if p k then set k v r else r

  -- The whole loop: under its test the keys of `m` win over those of `r`.
  pub get-loop-set_where :
      (p : String → Bool) (n : String) (r m : GoMap V)
      → IsKeyed m
      → get n (loop (set_where p) r m) ≡ (if p n then or_else (get n m) (get n r) else get n r)
  unfolding get
  get-loop-set_where p n r [] k = ground arith
  get-loop-set_where p n r ((j, v) ∷ m) k =
      get-loop-set_where p n (set_where p r (j, v)) m k.1
      ∙ ground (arith, get-set j n v r, eq_iff j n, k.0)
