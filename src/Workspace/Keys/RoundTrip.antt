-- ===== src/Workspace/Keys/RoundTrip.antt =====
-- The round trip of the keys of additional workspaces in internal/resources/workspace_configmap.go.
use Prim.Native.String.{[], ◌∷◌}
use Prim.Native.String.append
use Prim.Native.Char.{Char, code}
use openclaw_operator.Prelude.{
  String, ◌≡◌, refl, ap, ◌∙◌, subst, Bool, true, false, ◌&&◌, some, arith, eqb, append,
  slice-behind,
}
use openclaw_operator.GoStrings.{cut_dashes}
use openclaw_operator.Workspace.Keys.{
  is_word_char, is_words, is_workspace_name, additional_workspace_cm_key,
  parse_additional_workspace_cm_key,
}
use openclaw_operator.Workspace.Paths.Accepted.{starts_with-code, not_true}
use text.Mathlib.Text.{starts_with}
use text.Mathlib.TextPositions.{starts_with-append}

word_not_dash : (c : Char) → is_word_char c ≡ true → eqb (code c) 45 ≡ false
word_not_dash c p = ground (arith, p)

-- A word does not begin with a dash.
starts_with-is_words :
    (s t : String) → is_words false s ≡ true → starts_with (append s t) "-" ≡ false
unfolding is_words
starts_with-is_words [] t p = absurd (ground (arith, p))
starts_with-is_words (c ∷ s) t p = not_true _ (λ q. ground (
  arith,
  p,
  starts_with-code "-" c (append s t)
      (subst (λ (r : String). starts_with r "-" ≡ true) (append.cons c s t) q),
))

-- A name goes on behind a dash, so that no second one follows.
no_dashes :
    (inside : Bool) (c : Char) (s t : String)
    → is_words inside (c ∷ s) ≡ true
    → (eqb (code c) 45 && starts_with (append s t) "-") ≡ false
unfolding is_words
no_dashes inside c s t p = ground (arith, p, word_not_dash c, starts_with-is_words s t)

later_words :
    (inside : Bool) (c : Char) (s : String)
    → is_words inside (c ∷ s) ≡ true
    → is_words (is_word_char c) s ≡ true
unfolding is_words
later_words inside c s p = ground (arith, p)

dashes : (file : String) → append [] (append "--" file) ≡ "-" ∷ append "-" file
dashes file = append.nil _ ∙ append.cons "-" "-" file

one_dash : (file : String) → append "-" file ≡ "-" ∷ file
one_dash file = append.cons "-" [] file ∙ ap (λ (t : String). "-" ∷ t) (append.nil file)

cut_here : (file : String) → cut_dashes ("-" ∷ append "-" file) ≡ some ([], file)
unfolding cut_dashes
cut_here file = rw (starts_with-append "-" file) (rw (slice-behind "-" file 1 refl) refl)

cut_later :
    (c : Char) (s : String) (p : String × String)
    → (eqb (code c) 45 && starts_with s "-") ≡ false
    → cut_dashes s ≡ some p
    → cut_dashes (c ∷ s) ≡ some (c ∷ p.0, p.1)
unfolding cut_dashes
cut_later c s p n e = rw n (rw e refl)

cut_dashes-is_words :
    (inside : Bool) (name file : String)
    → is_words inside name ≡ true
    → cut_dashes (append name (append "--" file)) ≡ some (name, file)
cut_dashes-is_words inside [] file p = ap cut_dashes (dashes file) ∙ cut_here file
cut_dashes-is_words inside (c ∷ s) file p =
    ap cut_dashes (append.cons c s (append "--" file))
    ∙ cut_later c (append s (append "--" file)) (s, file)
        (no_dashes inside c s (append "--" file) p)
        (cut_dashes-is_words (is_word_char c) s file (later_words inside c s p))

-- The key of a file in an additional workspace is parsed back into the workspace's name and the
-- file's name, whatever the file is called, where the webhook accepts the name.
pub parse_additional_workspace_cm_key-of_key :
    (name file : String)
    → is_workspace_name name ≡ true
    → parse_additional_workspace_cm_key (additional_workspace_cm_key name file) ≡ some (name, file)
unfolding parse_additional_workspace_cm_key additional_workspace_cm_key
parse_additional_workspace_cm_key-of_key name file p =
    rw (starts_with-append "--ws--" (append name (append "--" file))) (
      rw (slice-behind "--ws--" (append name (append "--" file)) 6 refl)
        (cut_dashes-is_words false name file p))
