-- ===== src/Workspace/Paths/Accepted.antt =====
-- Which paths internal/resources/validation.go accepts.
use Prim.Native.String.{String, [], ◌∷◌}
use Prim.Native.String.append
use Prim.Native.Char.{Char, code}
use openclaw_operator.Prelude.{
  ℕ, ◌≤◌, ◌≡◌, ◌≢◌, ◌↔◌, refl, sym, ap, ◌∙◌, subst, Bool, true, false, ◌||◌, Option, none, some,
  List, All, arith, ltb, eqb, len, contains, ◌==◌, eq_iff, if◌then◌else◌,
}
use openclaw_operator.GoStrings.{split, cons_head, has_text, ends_with}
use openclaw_operator.Workspace.Paths.{PathError, check_segments, validate_workspace_file_path}
use text.Mathlib.Text.{starts_with}
use text.Mathlib.TextEquality.{starts_with_iff}

-- A segment of a path that names a file or a directory, and no hidden one.
abbrev pub IsSafe : String → Type 0
IsSafe seg = (seg ≢ "") × (has_text seg ".." ≡ false) × (starts_with seg "." ≡ false)

-- What the comment on `ValidateWorkspaceFilePath` asks of a path.
abbrev pub IsFilePath : String → Type 0
IsFilePath path =
    (len path ≤ 253)
    × (has_text path "\\" ≡ false)
    × (path ≢ "openclaw.json")
    × All IsSafe (split 47 path)

pub is_false : (s t : String) → ((s == t) ≡ false) ↔ (s ≢ t)
is_false s t = ground (arith, eq_iff s t)

-- Tests one behind the other give no error exactly where none of them holds.
pass :
    (b : Bool) (e : PathError) (o : Option PathError)
    → ((if b then some e else o) ≡ none) ↔ ((b ≡ false) × (o ≡ none))
pass true e o = (λ p. absurd (ground (arith, p)), λ h. absurd (ground (arith, h)))
pass false e o = (λ p. (refl, p), λ h. h.1)

check_segments-IsSafe : (segs : List String) → (check_segments segs ≡ none) ↔ All IsSafe segs
unfolding check_segments
check_segments-IsSafe List.[] = (λ p. tt, λ h. refl)
check_segments-IsSafe (List.◌∷◌ seg segs) =
    let rest = check_segments-IsSafe segs in
    let a = pass (seg == "") PathError.empty_segment _ in
    let b = pass (has_text seg "..") PathError.has_dots _ in
    let c = pass (starts_with seg ".") PathError.hidden (check_segments segs) in
    (
      λ p.
          let q = a.0 p in
          let r = b.0 q.1 in let t = c.0 r.1 in (((is_false seg "").0 q.0, r.0, t.0), rest.0 t.1),
      λ h. a.1 ((is_false seg "").1 h.0.0, b.1 (h.0.1, c.1 (h.0.2, rest.1 h.1))),
    )

-- A leading slash leaves an empty first segment, and a trailing one an empty last segment.
abbrev IsEmptyFree : List String → Type 0
IsEmptyFree segs = All (λ seg. seg ≢ "") segs

abbrev first_code : String → ℕ
first_code [] = 0
first_code (c ∷ s) = code c

pub starts_with-code :
    (d c : Char) (s : String) → starts_with (c ∷ s) (d ∷ []) ≡ true → code c ≡ code d
starts_with-code d c s p =
    let (t, e) = (starts_with_iff (c ∷ s) (d ∷ [])).0 p in
    sym (ap first_code (sym (append.cons d [] t) ∙ e))

split-at : (c : Char) (s : String) → code c ≡ 47 → split 47 (c ∷ s) ≡ List.◌∷◌ "" (split 47 s)
unfolding split
split-at c s e = ground (arith, e)

pub split-past :
    (c : Char) (s : String) → eqb (code c) 47 ≡ false → split 47 (c ∷ s) ≡ cons_head c (split 47 s)
unfolding split
split-past c s e = ground (arith, e)

pub starts_with-slash : (s : String) → starts_with s "/" ≡ true → IsEmptyFree (split 47 s) → ⊥
starts_with-slash [] p h = ground (arith, p)
starts_with-slash (c ∷ s) p h =
    (subst IsEmptyFree (split-at c s (starts_with-code "/" c s p)) h).0 refl

abbrev later : List String → List String
later List.[] = List.[]
later (List.◌∷◌ s l) = l

later-cons_head :
    (c : Char) (l : List String)
    → contains (later l) "" ≡ true
    → contains (later (cons_head c l)) "" ≡ true
unfolding contains
later-cons_head c List.[] p = p
later-cons_head c (List.◌∷◌ s l) p = p

contains-later : (l : List String) → contains (later l) "" ≡ true → contains l "" ≡ true
unfolding contains
contains-later List.[] p = p
contains-later (List.◌∷◌ s l) p = ground (arith, p)

later-slash : contains (later (split 47 "/")) "" ≡ true
unfolding split contains
later-slash = refl

later-split : (s : String) → ends_with s "/" ≡ true → contains (later (split 47 s)) "" ≡ true
unfolding ends_with
later-split [] p = absurd (ground (arith, p))
later-split (c ∷ s) p = by ((c ∷ s) == "/") refl (later-split s) p
  where
    later_of :
        (b : Bool)
        → eqb (code c) 47 ≡ b
        → contains (later (split 47 s)) "" ≡ true
        → contains (later (split 47 (c ∷ s))) "" ≡ true
    later_of true e q = rw (split-at c s (ground (arith, e))) (contains-later (split 47 s) q)
    later_of false e q = rw (split-past c s e) (later-cons_head c (split 47 s) q)

    by :
        (b : Bool)
        → ((c ∷ s) == "/") ≡ b
        → (ends_with s "/" ≡ true → contains (later (split 47 s)) "" ≡ true)
        → (b || ends_with s "/") ≡ true
        → contains (later (split 47 (c ∷ s))) "" ≡ true
    by true e rec q =
        subst (λ (t : String). contains (later (split 47 t)) "" ≡ true)
          (sym ((eq_iff (c ∷ s) "/").0 e)) later-slash
    by false e rec q = later_of (eqb (code c) 47) refl (rec q)

IsEmptyFree-contains : (l : List String) → IsEmptyFree l → contains l "" ≡ true → ⊥
unfolding contains
IsEmptyFree-contains List.[] h p = ground (arith, p)
IsEmptyFree-contains (List.◌∷◌ s l) h p =
    ground (arith, p, h, (is_false s "").1 h.0, IsEmptyFree-contains l h.1)

pub IsEmptyFree-of : (l : List String) → All IsSafe l → IsEmptyFree l
IsEmptyFree-of List.[] h = tt
IsEmptyFree-of (List.◌∷◌ s l) h = (h.0.0, IsEmptyFree-of l h.1)

pub no_empty : All IsSafe (split 47 "") → ⊥
unfolding split
no_empty h = h.0.0 refl

pub not_true : (b : Bool) → (b ≡ true → ⊥) → b ≡ false
not_true true n = absurd (n refl)
not_true false n = refl

-- `ValidateWorkspaceFilePath` accepts exactly the paths that its comment asks for: at most 253 bytes
-- without a backslash, other than openclaw.json, whose segments are not empty, do not begin with a
-- dot and have no two dots in a row. That covers empty and absolute paths and those with a slash at
-- the end.
pub validate_workspace_file_path_iff :
    (path : String) → (validate_workspace_file_path path ≡ none) ↔ IsFilePath path
unfolding validate_workspace_file_path
validate_workspace_file_path_iff path =
    let segs = check_segments-IsSafe (split 47 path) in
    let a = pass (path == "") PathError.empty _ in
    let b = pass (ltb 253 (len path)) PathError.too_long _ in
    let c = pass (has_text path "\\") PathError.has_backslash _ in
    let d = pass (starts_with path "/") PathError.absolute _ in
    let e = pass (ends_with path "/") PathError.trailing_slash _ in
    let f = pass (path == "openclaw.json") PathError.reserved (check_segments (split 47 path)) in
    (
      λ p.
          let h = b.0 (a.0 p).1 in
          let i = c.0 h.1 in
          let j = f.0 (e.0 (d.0 i.1).1).1 in
          (ground (arith, h.0), i.0, (is_false path "openclaw.json").0 j.0, segs.0 j.1),
      λ h.
          let free = IsEmptyFree-of (split 47 path) h.3 in
          a.1 (
            (is_false path "").1
                (λ q. no_empty (subst (λ (t : String). All IsSafe (split 47 t)) q h.3)),
            b.1 (
              ground (arith, h.0),
              c.1 (
                h.1,
                d.1 (
                  not_true _ (λ q. starts_with-slash path q free),
                  e.1 (
                    not_true _ (λ q.
                        IsEmptyFree-contains (split 47 path) free
                          (contains-later _ (later-split path q))),
                    f.1 ((is_false path "openclaw.json").1 h.2, segs.1 h.3),
                  ),
                ),
              ),
            ),
          ),
    )
