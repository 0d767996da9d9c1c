-- ===== src/Workspace/Paths/Cleaned.antt =====
-- Where the accepted paths of internal/resources/validation.go lead.
use Prim.Native.String.{String, [], ◌∷◌}
use Prim.Native.String.append
use Prim.Native.Char.{Char, code}
use openclaw_operator.Prelude.{
  ◌≡◌, refl, sym, ap, ◌∙◌, subst, Bool, true, false, none, List, All, arith, eqb, append, ◌==◌,
  eq_iff, if◌then◌else◌, ◌++◌, append_assoc, append-nil,
}
use openclaw_operator.GoStrings.{split, cons_head, clean, clean_onto, join_slash}
use openclaw_operator.Workspace.Paths.{
  validate_workspace_file_path, validate_managed_workspace_path,
}
use openclaw_operator.Workspace.Paths.Accepted.{
  IsSafe, validate_workspace_file_path_iff, starts_with-code, split-past, no_empty,
  starts_with-slash, IsEmptyFree-of, is_false, not_true,
}
use text.Mathlib.Text.{starts_with}
use text.Mathlib.TextEquality.{starts_with_iff, Char-path}
use text.Mathlib.TextLemmas.{append_assoc as text_assoc}

abbrev IsCons : List String → Type 0
IsCons List.[] = ⊥
IsCons (List.◌∷◌ s l) = Unit {0}

IsCons-cons_head : (c : Char) (l : List String) → IsCons (cons_head c l)
IsCons-cons_head c List.[] = tt
IsCons-cons_head c (List.◌∷◌ s l) = tt

IsCons-split : (s : String) → IsCons (split 47 s)
unfolding split
IsCons-split [] = tt
IsCons-split (c ∷ s) = by (eqb (code c) 47)
  where
    by : (b : Bool) → IsCons (if b then List.◌∷◌ "" (split 47 s) else cons_head c (split 47 s))
    by true = tt
    by false = IsCons-cons_head c (split 47 s)

-- Joining what was split at the slashes.
join-behind_slash :
    (c : Char) (l : List String)
    → code c ≡ 47
    → IsCons l
    → join_slash (List.◌∷◌ "" l) ≡ c ∷ join_slash l
unfolding join_slash
join-behind_slash c List.[] e h = absurd h
join-behind_slash c (List.◌∷◌ s l) e h =
    append.nil _
    ∙ append.cons "/" [] _
    ∙ ap (λ t. "/" ∷ t) (append.nil _)
    ∙ ap (λ d. d ∷ join_slash (List.◌∷◌ s l)) (sym (Char-path c "/" e))

join-cons_head :
    (c : Char) (l : List String) → IsCons l → join_slash (cons_head c l) ≡ c ∷ join_slash l
unfolding join_slash
join-cons_head c List.[] h = absurd h
join-cons_head c (List.◌∷◌ s List.[]) h = refl
join-cons_head c (List.◌∷◌ s (List.◌∷◌ t l)) h = append.cons c s _

join-split : (s : String) → join_slash (split 47 s) ≡ s
unfolding join_slash split
join-split [] = refl
join-split (c ∷ s) = by (eqb (code c) 47) refl (join-split s)
  where
    by :
        (b : Bool)
        → eqb (code c) 47 ≡ b
        → join_slash (split 47 s) ≡ s
        → join_slash (if b then List.◌∷◌ "" (split 47 s) else cons_head c (split 47 s)) ≡ c ∷ s
    by true e rec =
        join-behind_slash c (split 47 s) (ground (arith, e)) (IsCons-split s) ∙ ap (λ t. c ∷ t) rec
    by false e rec = join-cons_head c (split 47 s) (IsCons-split s) ∙ ap (λ t. c ∷ t) rec

-- A safe segment is none of those that `path.Clean` looks at.
differs : (s t : String) → IsSafe s → starts_with t "." ≡ true → (s == t) ≡ false
differs s t h p = (is_false s t).1 (λ e. ground (arith, h.2, p, ap (λ r. starts_with r ".") e))

clean_onto-IsSafe :
    (out segs : List String) → All IsSafe segs → clean_onto false out segs ≡ out ++ segs
unfolding clean_onto
clean_onto-IsSafe out List.[] h = sym (append-nil out)
clean_onto-IsSafe out (List.◌∷◌ s l) h = rw ((is_false s "").1 h.0.0) (
    rw (differs s "." h.0 refl) (
      rw (differs s ".." h.0 refl) (
        clean_onto-IsSafe (out ++ List.◌∷◌ s List.[]) l h.1
        ∙ append_assoc out (List.◌∷◌ s List.[]) l)))

starts_with-dot : (c : Char) (s : String) → code c ≡ 46 → starts_with (c ∷ s) "." ≡ true
starts_with-dot c s e = (starts_with_iff (c ∷ s) ".").1 (
  s,
  append.cons "." [] s
      ∙ ap (λ t. "." ∷ t) (append.nil s)
      ∙ ap (λ d. d ∷ s) (sym (Char-path c "." e)),
)

dot_head : (c : Char) (l : List String) → code c ≡ 46 → All IsSafe (cons_head c l) → ⊥
dot_head c List.[] e h = ground (arith, h.0.2, starts_with-dot c [] e)
dot_head c (List.◌∷◌ s l) e h = ground (arith, h.0.2, starts_with-dot c s e)

first_dot : (path : String) → All IsSafe (split 47 path) → starts_with path "." ≡ true → ⊥
first_dot [] h p = no_empty h
first_dot (c ∷ s) h p =
    let e = starts_with-code "." c s p in
    dot_head c (split 47 s) e (subst (All IsSafe) (split-past c s (ground (arith, e))) h)

starts_with-dots : (path : String) → starts_with path "../" ≡ true → starts_with path "." ≡ true
starts_with-dots path p =
    let (t, e) = (starts_with_iff path "../").0 p in
    (starts_with_iff path ".").1 (append "./" t, sym (text_assoc "." "./" t) ∙ e)

clean_of :
    (path : String)
    → starts_with path "/" ≡ false
    → (path == "") ≡ false
    → All IsSafe (split 47 path)
    → clean path ≡ path
unfolding clean
clean_of path a n h =
    by (starts_with path "/") a
      (ap join_slash (clean_onto-IsSafe List.[] (split 47 path) h) ∙ join-split path)
  where
    by :
        (b : Bool)
        → b ≡ false
        → join_slash (clean_onto false List.[] (split 47 path)) ≡ path
        → (if b
            then append "/" (join_slash (clean_onto b List.[] (split 47 path)))
            else if join_slash (clean_onto b List.[] (split 47 path)) == ""
            then "."
            else join_slash (clean_onto b List.[] (split 47 path)))
          ≡ path
    by true e j = absurd (ground (arith, e))
    by false e j = rw j (rw n refl)

managed_of :
    (path : String)
    → clean path ≡ path
    → (path == "") ≡ false
    → starts_with path "/" ≡ false
    → (path == "..") ≡ false
    → starts_with path "../" ≡ false
    → validate_managed_workspace_path path ≡ none
unfolding validate_managed_workspace_path
managed_of path c n a d t = rw c (rw n (rw a (rw d (rw t refl))))

-- A path that `ValidateWorkspaceFilePath` accepts is in the shortest form of `path.Clean`, and
-- `ValidateManagedWorkspacePath` accepts it too: it leads to a place inside the workspace.
pub clean-validate_workspace_file_path :
    (path : String)
    → validate_workspace_file_path path ≡ none
    → (clean path ≡ path) × (validate_managed_workspace_path path ≡ none)
clean-validate_workspace_file_path path p =
    let safe = ((validate_workspace_file_path_iff path).0 p).3 in
    let absolute =
      not_true (starts_with path "/")
        (λ q. starts_with-slash path q (IsEmptyFree-of (split 47 path) safe)) in
    let dots =
      not_true (starts_with path "../") (λ q. first_dot path safe (starts_with-dots path q)) in
    let up =
      not_true (path == "..")
        (λ q. first_dot path safe (ap (λ t. starts_with t ".") ((eq_iff path "..").0 q))) in
    let filled =
      not_true (path == "")
        (λ q. no_empty (subst (λ t. All IsSafe (split 47 t)) ((eq_iff path "").0 q) safe)) in
    let c = clean_of path absolute filled safe in (c, managed_of path c filled absolute up dots)
