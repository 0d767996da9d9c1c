-- ===== src/Workspace/Keys/Markers.antt =====
-- Which files share a marker, by `managedMarkerPath` of internal/resources/workspace_files.go.
use Prim.Native.String.{[], ◌∷◌}
use Prim.Native.String.append
use Prim.Native.Char.{Char, code}
use openclaw_operator.Prelude.{
  String, ◌≡◌, refl, sym, ap, ◌∙◌, subst, Bool, true, false, arith, eqb, append, ◌==◌, eq_iff,
  if◌then◌else◌,
}
use openclaw_operator.GoStrings.{replace_all}
use openclaw_operator.Workspace.Keys.{
  is_words, is_workspace_name, skill_pack_cm_key, managed_marker_dir, managed_marker_path,
}
use openclaw_operator.Workspace.Paths.Accepted.{not_true}
use text.Mathlib.TextLemmas.{append_assoc}

-- One round of the replacement.
replaced : Bool → Char → String → String
replaced b c s = if b then append "--" s else c ∷ s

replace_all-append :
    (s t : String)
    → replace_all (append s t) 47 "--" ≡ append (replace_all s 47 "--") (replace_all t 47 "--")
unfolding replace_all
replace_all-append [] t =
    ap (λ (r : String). replace_all r 47 "--") (append.nil t) ∙ sym (append.nil _)
replace_all-append (c ∷ s) t =
    ap (λ (r : String). replace_all r 47 "--") (append.cons c s t)
    ∙ by (eqb (code c) 47) (replace_all-append s t)
  where
    by :
        (b : Bool)
        → replace_all (append s t) 47 "--" ≡ append (replace_all s 47 "--") (replace_all t 47 "--")
        → (if b
            then append "--" (replace_all (append s t) 47 "--")
            else c ∷ replace_all (append s t) 47 "--")
          ≡ append
              (if b then append "--" (replace_all s 47 "--") else c ∷ replace_all s 47 "--")
              (replace_all t 47 "--")
    by true e = ap (append "--") e ∙ sym (append_assoc "--" (replace_all s 47 "--") _)
    by false e = ap (λ (r : String). c ∷ r) e ∙ sym (append.cons c (replace_all s 47 "--") _)

-- A key is its own key.
replace_all_idem :
    (s : String) → replace_all (replace_all s 47 "--") 47 "--" ≡ replace_all s 47 "--"
unfolding replace_all
replace_all_idem [] = refl
replace_all_idem (c ∷ s) = by (eqb (code c) 47) refl (replace_all_idem s)
  where
    by :
        (b : Bool)
        → eqb (code c) 47 ≡ b
        → replace_all (replace_all s 47 "--") 47 "--" ≡ replace_all s 47 "--"
        → replace_all
            (if b then append "--" (replace_all s 47 "--") else c ∷ replace_all s 47 "--")
            47
            "--"
          ≡ (if b then append "--" (replace_all s 47 "--") else c ∷ replace_all s 47 "--")
    by true e rec = replace_all-append "--" (replace_all s 47 "--") ∙ ap (append "--") rec
    by false e rec = rw e (ap (λ (r : String). c ∷ r) rec)

replace_all-is_words :
    (inside : Bool) (name : String) → is_words inside name ≡ true → replace_all name 47 "--" ≡ name
unfolding replace_all is_words
replace_all-is_words inside [] p = refl
replace_all-is_words inside (c ∷ s) p =
    ground (arith, p, replace_all-is_words true s, replace_all-is_words false s)

no_words : is_words false "" ≡ true → ⊥
unfolding is_words
no_words p = ground (arith, p)

filled : (s : String) → is_words false s ≡ true → (s == "") ≡ false
filled s p =
    not_true _
      (λ q. no_words (subst (λ (t : String). is_words false t ≡ true) ((eq_iff s "").0 q) p))

marker_of :
    (name path : String)
    → is_workspace_name name ≡ true
    → managed_marker_path name path
      ≡ append managed_marker_dir
          (append "/" (append "ws-" (append name (append "--" (skill_pack_cm_key path)))))
unfolding managed_marker_path
marker_of name path p = rw (filled name p) refl

literals :
    (name rest : String)
    → append (replace_all "ws-" 47 "--") (append name (append (replace_all "--" 47 "--") rest))
      ≡ append "ws-" (append name (append "--" rest))
unfolding replace_all
literals name rest = refl

scoped :
    (name path : String)
    → is_workspace_name name ≡ true
    → replace_all (append "ws-" (append name (append "--" path))) 47 "--"
      ≡ append "ws-" (append name (append "--" (replace_all path 47 "--")))
scoped name path p =
    replace_all-append "ws-" (append name (append "--" path))
    ∙ ap (append (replace_all "ws-" 47 "--")) (
        replace_all-append name (append "--" path)
        ∙ ap (λ (r : String). append r (replace_all (append "--" path) 47 "--"))
            (replace_all-is_words false name p)
        ∙ ap (append name) (replace_all-append "--" path))
    ∙ literals name (replace_all path 47 "--")

-- Two files of one workspace, the default one or any other, share a marker where one is called as
-- the other's path is encoded; and a file of an additional workspace, whose name the webhook accepts,
-- shares its marker with the file of the default workspace that is called "ws-", the workspace's
-- name, "--" and the file's path.
pub managed_marker_path-IsShared :
    (any name path : String)
    → is_workspace_name name ≡ true
    → (managed_marker_path any path ≡ managed_marker_path any (skill_pack_cm_key path))
      × (managed_marker_path name path
          ≡ managed_marker_path "" (append "ws-" (append name (append "--" path))))
unfolding managed_marker_path
managed_marker_path-IsShared any name path p = (
  ap
      (λ (key : String).
        append managed_marker_dir
          (append "/" (if any == "" then key else append "ws-" (append any (append "--" key)))))
      (sym (replace_all_idem path)),
  marker_of name path p
      ∙ ap (λ (key : String). append managed_marker_dir (append "/" key))
          (sym (scoped name path p)),
)
