-- ===== src/GoStrings.antt =====
-- The functions of Go's packages strings and path that the operator uses.
use Prim.Native.String.{String, [], ◌∷◌}
use Prim.Native.Char.{Char, code}
use openclaw_operator.Prelude.{
  ℕ, Bool, true, false, ◌&&◌, ◌||◌, Option, none, some, List, eqb, leb, ◌==◌, if◌then◌else◌, len,
  slice, ◌++◌, append,
}
use text.Mathlib.Text.{starts_with, find?}

-- A text in front of the first piece.
abbrev pub cons_head : Char → List String → List String
cons_head c List.[] = List.◌∷◌ (c ∷ []) List.[]
cons_head c (List.◌∷◌ s l) = List.◌∷◌ (c ∷ s) l

-- `strings.Split`, at one character.
unfoldable pub split : ℕ → String → List String
split sep [] = List.◌∷◌ [] List.[]
split sep (c ∷ s) =
    let rest = split sep s in if eqb (code c) sep then List.◌∷◌ [] rest else cons_head c rest

-- `strings.SplitN(s, sep, 2)`, where it gives two parts.
unfoldable pub cut : ℕ → String → Option (String × String)
cut sep [] = none
cut sep (c ∷ s) =
    let rest = cut sep s in
    if eqb (code c) sep
    then some ([], s)
    else elim rest [ none ↦ none | some p ↦ some (c ∷ p.0, p.1) ]

unfoldable pub trim_left : (Char → Bool) → String → String
trim_left p [] = []
trim_left p (c ∷ s) = let rest = trim_left p s in if p c then rest else c ∷ s

unfoldable pub trim_right : (Char → Bool) → String → String
trim_right p [] = []
trim_right p (c ∷ s) = let rest = trim_right p s in if p c && rest == "" then [] else c ∷ rest

-- `unicode.IsSpace`
abbrev is_space : Char → Bool
is_space c =
    (leb 9 (code c) && leb (code c) 13)
    || eqb (code c) 32
    || eqb (code c) 133
    || eqb (code c) 160
    || eqb (code c) 5760
    || (leb 8192 (code c) && leb (code c) 8202)
    || eqb (code c) 8232
    || eqb (code c) 8233
    || eqb (code c) 8239
    || eqb (code c) 8287
    || eqb (code c) 12288

-- `strings.TrimSpace`
abbrev pub trim_space : String → String
trim_space s = trim_right is_space (trim_left is_space s)

-- `strings.Trim(s, "\"")`
abbrev pub trim_quotes : String → String
trim_quotes s = trim_right (λ c. eqb (code c) 34) (trim_left (λ c. eqb (code c) 34) s)

-- `strings.Contains`
abbrev pub has_text : String → String → Bool
has_text s t = elim (find? s t) [ none ↦ false | some i ↦ true ]

-- `strings.TrimPrefix`
abbrev pub trim_prefix : String → String → String
trim_prefix s p = if starts_with s p then slice s (len p) (len s) else s

-- `strings.HasSuffix`
unfoldable pub ends_with : String → String → Bool
ends_with [] t = t == ""
ends_with (c ∷ s) t = (c ∷ s) == t || ends_with s t

-- `strings.ReplaceAll(s, "/", "--")`, at one character for a text.
unfoldable pub replace_all : String → ℕ → String → String
replace_all [] old new = []
replace_all (c ∷ s) old new =
    let rest = replace_all s old new in if eqb (code c) old then append new rest else c ∷ rest

-- The texts before and behind the place that `strings.Index(s, "--")` finds.
unfoldable pub cut_dashes : String → Option (String × String)
cut_dashes [] = none
cut_dashes (c ∷ s) =
    let rest = cut_dashes s in
    if eqb (code c) 45 && starts_with s "-"
    then some ([], slice s 1 (len s))
    else elim rest [ none ↦ none | some p ↦ some (c ∷ p.0, p.1) ]

-- `strings.Join(l, "/")`
unfoldable pub join_slash : List String → String
join_slash List.[] = ""
join_slash (List.◌∷◌ s List.[]) = s
join_slash (List.◌∷◌ s (List.◌∷◌ t l)) = append s (append "/" (join_slash (List.◌∷◌ t l)))

-- A list without its last element.
abbrev pub drop_last : List String → List String
drop_last List.[] = List.[]
drop_last (List.◌∷◌ s List.[]) = List.[]
drop_last (List.◌∷◌ s (List.◌∷◌ t l)) = List.◌∷◌ s (drop_last (List.◌∷◌ t l))

abbrev pub last_is : String → List String → Bool
last_is t List.[] = false
last_is t (List.◌∷◌ s List.[]) = s == t
last_is t (List.◌∷◌ s (List.◌∷◌ r l)) = last_is t (List.◌∷◌ r l)

-- What `..` makes of the elements before it: at the root of an absolute path nothing is above.
abbrev pub go_up : Bool → List String → List String
go_up rooted List.[] = if rooted then List.[] else List.◌∷◌ ".." List.[]
go_up rooted (List.◌∷◌ s l) =
    if last_is ".." (List.◌∷◌ s l)
    then List.◌∷◌ s l ++ List.◌∷◌ ".." List.[]
    else drop_last (List.◌∷◌ s l)

-- The elements of a path, one by one, behind those that are done.
unfoldable pub clean_onto : Bool → List String → List String → List String
clean_onto rooted out List.[] = out
clean_onto rooted out (List.◌∷◌ s l) =
    clean_onto rooted
      (if s == "" || s == "."
        then out
        else if s == ".."
        then go_up rooted out
        else out ++ List.◌∷◌ s List.[])
      l

-- `path.Clean`
unfoldable pub clean : String → String
clean path =
    let rooted = starts_with path "/" in
    let cleaned = join_slash (clean_onto rooted List.[] (split 47 path)) in
    if rooted then append "/" cleaned else if cleaned == "" then "." else cleaned
