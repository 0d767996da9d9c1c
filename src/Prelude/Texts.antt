-- ===== src/Prelude/Texts.antt =====
-- Texts put together from pieces, as `fmt.Sprintf` and `+` do.
use Prim.Native.Nat.{ℕ, ◌+◌, ◌<◌}
use Prim.Native.String
use Prim.Native.String.{String, [], ◌∷◌, len, slice}
use Prim.Native.String.len
use mathlib.Core.Path.{◌≡◌, refl}
use mathlib.Core.Logic.{◌≢◌}
use native.Mathlib.Omega.{arith}
use mathlib.Core.List.{List}
use text.Mathlib.TextPositions.{len-append, len_utf8-pos, slice-append_right}

abbrev pub append : String → String → String
append s t = String.◌++◌ s t

abbrev pub concat : List String → String
concat List.[] = ""
concat (List.◌∷◌ s l) = append s (concat l)

pub len-append_lem : (s t : String) → len (append s t) ≡ len s + len t
len-append_lem s t = len-append s t

pub len_pos : (s : String) → s ≢ "" → 0 < len s
len_pos [] p = absurd (p refl)
len_pos (c ∷ s) p = let q = len.cons c s in let w = len_utf8-pos c in omega (arith, q, w.1)

-- What is behind the first part of a text.
pub slice-behind : (s t : String) (n : ℕ) → len s ≡ n → slice (append s t) n (len (append s t)) ≡ t
slice-behind s t n l = rw (← l) (rw (len-append_lem s t) (slice-append_right s t))
