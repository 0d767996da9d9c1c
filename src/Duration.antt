-- ===== src/Duration.antt =====
-- `time.ParseDuration`, and the comparisons of a `time.Duration` with a bound. A duration is its
-- sign and its nanoseconds. Where a number has a fraction, Go multiplies floats; the model takes
-- the whole nanoseconds of the exact product.
pub mod Fuel
use Prim.Native.Char.{code}
use openclaw_operator.Prelude.{
  ℕ, zero, suc, ◌+◌, ◌-◌, ◌*◌, ◌/◌, String, Bool, true, false, not, ◌&&◌, ◌||◌, Option, none, some,
  List, [], ◌∷◌, length, ltb, leb, eqb, if◌then◌else◌,
}

pub record Duration : Type 0 where
  pub negative : Bool
  pub nanos : ℕ

abbrev pub second : ℕ
second = 1_000_000_000

abbrev pub minute : ℕ
minute = 60 * second

abbrev pub hour : ℕ
hour = 60 * minute

abbrev codes : String → List ℕ
codes String.[] = []
codes (String.◌∷◌ c s) = code c ∷ codes s

abbrev same_codes : List ℕ → List ℕ → Bool
same_codes [] [] = true
same_codes (a ∷ l) (b ∷ m) = eqb a b && same_codes l m
same_codes _ _ = false

abbrev is_digit : ℕ → Bool
is_digit c = leb b'0' c && leb c b'9'

-- `1 << 63`
abbrev limit : ℕ
limit = 9_223_372_036_854_775_808

-- `unitMap`; the signs of "µs" are the micro sign and the Greek letter.
unit_of : List ℕ → Option ℕ
unit_of u =
    if same_codes u (codes "ns")
    then some 1
    else if same_codes u (codes "us")
        || same_codes u (0xb5 ∷ codes "s")
        || same_codes u (0x3bc ∷ codes "s")
    then some 1_000
    else if same_codes u (codes "ms")
    then some 1_000_000
    else if same_codes u (codes "s")
    then some second
    else if same_codes u (codes "m")
    then some minute
    else if same_codes u (codes "h")
    then some hour
    else none

-- `leadingInt`: the number, or none where it overflows, and what follows the digits.
leading_int : ℕ → List ℕ → Option (ℕ × List ℕ)
leading_int x [] = some (x, [])
leading_int x (c ∷ s) =
    let y = x * 10 + (c - b'0') in
    let rest = leading_int y s in
    if not (is_digit c)
    then some (x, c ∷ s)
    else if ltb (limit / 10) x || ltb limit y
    then none
    else rest

-- `leadingFraction`: the digits that fit, the power of ten that they are over, and what follows.
leading_fraction : ℕ → ℕ → Bool → List ℕ → ℕ × ℕ × List ℕ
leading_fraction x scale overflow [] = (x, scale, [])
leading_fraction x scale overflow (c ∷ s) =
    let y = x * 10 + (c - b'0') in
    let full = overflow || ltb ((limit - 1) / 10) x || ltb limit y in
    let rest =
      leading_fraction (if full then x else y) (if full then scale else scale * 10) full s in
    if not (is_digit c) then (x, scale, c ∷ s) else rest

-- The characters up to the next digit or point, and the rest.
split_unit : List ℕ → List ℕ × List ℕ
split_unit [] = ([], [])
split_unit (c ∷ s) =
    let (u, rest) = split_unit s in if eqb c b'.' || is_digit c then ([], c ∷ s) else (c ∷ u, rest)

-- The fraction behind a point: whether it has digits, its value, its scale and what follows.
fraction : List ℕ → Bool × ℕ × ℕ × List ℕ
fraction [] = (false, 0, 1, [])
fraction (c ∷ s) =
    let (f, scale, rest) = leading_fraction 0 1 false s in
    if eqb c b'.' then (ltb (length rest) (length s), f, scale, rest) else (false, 0, 1, c ∷ s)

-- The number that stands before a unit, times the unit.
abbrev scaled : ℕ → ℕ → ℕ → ℕ → Option ℕ
scaled v f scale unit =
    let total = v * unit + f * unit / scale in
    if ltb (limit / unit) v || ltb limit total then none else some total

-- One round of the loop: `[0-9]*(\.[0-9]*)?[a-z]+`, as nanoseconds, and what follows.
segment : List ℕ → Option (ℕ × List ℕ)
unfolding unit_of leading_int leading_fraction split_unit fraction
segment s = elim (leading_int 0 s) [
  | none ↦ none
  | some (v, s₁) ↦
      let (post, f, scale, s₂) = fraction s₁ in
      let (u, s₃) = split_unit s₂ in
      if not (ltb (length s₁) (length s)) && not post then none else elim (unit_of u) [
        | none ↦ none
        | some unit ↦ elim (scaled v f scale unit) [ none ↦ none | some ns ↦ some (ns, s₃) ]
      ]
]

-- The loop. Each round that succeeds consumes a unit, so as many rounds as characters are enough.
segments : ℕ → ℕ → List ℕ → Option ℕ
segments fuel d [] = some d
segments zero d (c ∷ s) = none
segments (suc fuel) d (c ∷ s) = elim (segment (c ∷ s)) [
  | none ↦ none
  | some (ns, rest) ↦
      let next = segments fuel (d + ns) rest in if ltb limit (d + ns) then none else next
]

-- What follows the sign.
unsigned : Bool → List ℕ → Option Duration
unfolding segments segment
unsigned negative s =
    if same_codes s (codes "0")
    then some (record { negative = false; nanos = 0 })
    else if leb (length s) 0
    then none
    else elim (segments (length s) 0 s) [
      | none ↦ none
      | some d ↦
          if not negative && ltb (limit - 1) d
          then none
          else some (record { negative = negative && ltb 0 d; nanos = d })
    ]

signed : List ℕ → Option Duration
signed [] = none
signed (c ∷ s) =
    if eqb c b'-'
    then unsigned true s
    else if eqb c b'+'
    then unsigned false s
    else unsigned false (c ∷ s)

-- An error of `time.ParseDuration` is `none`.
unfoldable pub parse_duration : String → Option Duration
unfolding signed unsigned
parse_duration s = signed (codes s)

-- `d < n` and `n < d`, for n at least 0.
abbrev pub below : Duration → ℕ → Bool
below d n = if d.negative then true else ltb d.nanos n

abbrev pub above : Duration → ℕ → Bool
above d n = if d.negative then false else ltb n d.nanos
