-- ===== src/Duration/Fuel.antt =====
-- The loop of `time.ParseDuration` ends: each round consumes a character.
use openclaw_operator.Prelude.{
  ℕ, zero, suc, ◌+◌, ◌-◌, ◌*◌, ◌/◌, ◌≤◌, ◌<◌, ◌≡◌, refl, ap, Bool, true, false, not, ◌&&◌, ◌||◌,
  Option, none, some, List, [], ◌∷◌, length, ltb, arith, if◌then◌else◌,
}
use openclaw_operator.Duration.{
  leading_int, leading_fraction, split_unit, fraction, unit_of, segment, segments, scaled, limit,
}

leading_int-length :
    (x : ℕ) (s : List ℕ) (v : ℕ) (r : List ℕ) → leading_int x s ≡ some (v, r) → length r ≤ length s
unfolding leading_int
leading_int-length x [] v r h = ground (arith, h)
leading_int-length x (c ∷ s) v r h =
    ground (arith, h, leading_int-length (x * 10 + (c - b'0')) s v r)

leading_fraction-length :
    (x scale : ℕ) (o : Bool) (s : List ℕ) → length (leading_fraction x scale o s).2 ≤ length s
unfolding leading_fraction
leading_fraction-length x scale o [] = omega arith
leading_fraction-length x scale o (c ∷ s) =
    let y = x * 10 + (c - b'0') in
    let full = o || ltb ((limit - 1) / 10) x || ltb limit y in
    let rest =
      leading_fraction-length (if full then x else y) (if full then scale else scale * 10) full s in
    ground (arith, rest)

fraction-length : (s : List ℕ) → length (fraction s).3 ≤ length s
unfolding fraction
fraction-length [] = omega arith
fraction-length (c ∷ s) = ground (arith, leading_fraction-length 0 1 false s)

split_unit-length : (s : List ℕ) → length (split_unit s).0 + length (split_unit s).1 ≡ length s
unfolding split_unit
split_unit-length [] = refl
split_unit-length (c ∷ s) = ground (arith, split_unit-length s)

unit_of-length : (u : List ℕ) (unit : ℕ) → unit_of u ≡ some unit → 0 < length u
unfolding unit_of
unit_of-length [] unit h = ground (arith, h)
unit_of-length (c ∷ u) unit h = omega arith

-- What follows a round that gives a value.
value-length :
    (value : Option ℕ) (s₃ : List ℕ) (n ns : ℕ) (rest : List ℕ)
    → length s₃ < n
    → ◌≡◌ {A = Option (ℕ × List ℕ)}
        (elim value [ none ↦ none | some ns ↦ some (ns, s₃) ])
        (some (ns, rest))
    → length rest < n
value-length none s₃ n ns rest p h = ground (arith, h)
value-length (some v) s₃ n ns rest p h = ground (arith, h, p)

-- Behind the number and the fraction, with the unit that was found.
found-length :
    (s₂ : List ℕ) (unit : Option ℕ) (value : ℕ → Option ℕ) (early : Bool) (ns : ℕ) (rest : List ℕ)
    → unit_of (split_unit s₂).0 ≡ unit
    → ◌≡◌ {A = Option (ℕ × List ℕ)}
        (if early then none else elim unit [
          | none ↦ none
          | some unit ↦ elim (value unit) [ none ↦ none | some ns ↦ some (ns, (split_unit s₂).1) ]
        ])
        (some (ns, rest))
    → length rest < length s₂
found-length s₂ unit value true ns rest e h = ground (arith, h)
found-length s₂ none value false ns rest e h = ground (arith, h)
found-length s₂ (some unit) value false ns rest e h =
    let some_unit = unit_of-length (split_unit s₂).0 unit e in
    let parts = split_unit-length s₂ in
    value-length (value unit) (split_unit s₂).1 (length s₂) ns rest
      (omega (arith, some_unit, parts)) h

segment-length :
    (s : List ℕ) (ns : ℕ) (rest : List ℕ) → segment s ≡ some (ns, rest) → length rest < length s
unfolding segment
segment-length s ns rest h = by_number (leading_int 0 s) refl h
  where
    by_number :
        (o : Option (ℕ × List ℕ))
        → leading_int 0 s ≡ o
        → ◌≡◌ {A = Option (ℕ × List ℕ)}
            (elim o [
              | none ↦ none
              | some (v, s₁) ↦
                  let (post, f, scale, s₂) = fraction s₁ in
                  let (u, s₃) = split_unit s₂ in
                  if not (ltb (length s₁) (length s)) && not post then none else elim (unit_of u) [
                    | none ↦ none
                    | some unit ↦ elim (scaled v f scale unit) [
                      | none ↦ none
                      | some ns ↦ some (ns, s₃)
                    ]
                  ]
            ])
            (some (ns, rest))
        → length rest < length s
    by_number none e h = ground (arith, h)
    by_number (some (v, s₁)) e h =
        let (post, f, scale, s₂) = fraction s₁ in
        let shorter =
          found-length s₂ (unit_of (split_unit s₂).0) (scaled v f scale)
            (not (ltb (length s₁) (length s)) && not post) ns rest refl h in
        let number = leading_int-length 0 s v s₁ e in
        let behind = fraction-length s₁ in omega (arith, shorter, number, behind)

-- One round, given its outcome.
round-fuel :
    (f g d : ℕ) (s : List ℕ) (o : Option (ℕ × List ℕ))
    → segment s ≡ o
    → length s ≤ suc f
    → length s ≤ suc g
    → ((d : ℕ) (r : List ℕ) → length r ≤ f → length r ≤ g → segments f d r ≡ segments g d r)
    → ◌≡◌ {A = Option ℕ}
        (elim o [
          | none ↦ none
          | some (ns, rest) ↦
              let next = segments f (d + ns) rest in if ltb limit (d + ns) then none else next
        ])
        (elim o [
          | none ↦ none
          | some (ns, rest) ↦
              let next = segments g (d + ns) rest in if ltb limit (d + ns) then none else next
        ])
round-fuel f g d s none e p q ih = refl
round-fuel f g d s (some (ns, rest)) e p q ih =
    let shorter = segment-length s ns rest e in
    ap (λ next. if ltb limit (d + ns) then none else next)
      (ih (d + ns) rest (omega (arith, shorter, p)) (omega (arith, shorter, q)))

-- With as much fuel as there are characters, or more, the loop gives the same whatever the fuel is.
segments-fuel :
    (f g d : ℕ) (s : List ℕ) → length s ≤ f → length s ≤ g → segments f d s ≡ segments g d s
unfolding segments
segments-fuel zero zero d [] p q = refl
segments-fuel zero (suc g) d [] p q = refl
segments-fuel (suc f) zero d [] p q = refl
segments-fuel (suc f) (suc g) d [] p q = refl
segments-fuel zero g d (c ∷ s) p q = absurd (omega (arith, p))
segments-fuel (suc f) zero d (c ∷ s) p q = absurd (omega (arith, q))
segments-fuel (suc f) (suc g) d (c ∷ s) p q =
    round-fuel f g d (c ∷ s) (segment (c ∷ s)) refl p q (λ d r p q. segments-fuel f g d r p q)
