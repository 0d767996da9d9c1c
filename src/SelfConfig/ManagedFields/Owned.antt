-- ===== src/SelfConfig/ManagedFields/Owned.antt =====
-- Which names the self-config field manager owns, by
-- internal/controller/selfconfig_managed_fields.go.
use openclaw_operator.Prelude.{
  String, ◌≡◌, refl, Bool, true, false, Option, none, some, List, append, len, slice, ◌==◌, eq_iff,
  contains, arith, Bool-cases, inl, inr, sym, ap, ◌∙◌, subst, slice-behind,
}
use openclaw_operator.Json.{Fields, end, field, get}
use openclaw_operator.SelfConfig.ManagedFields.{
  ManagedFieldsEntry, find_self_config_fields, navigate_fields, has_key, behind, owned_behind,
  skills_path, files_path, extract_owned_skills, extract_owned_workspace_files,
}
use openclaw_operator.SelfConfig.Removal.{is_owned}
use text.Mathlib.Text.{starts_with}
use text.Mathlib.TextEquality.{starts_with_iff}
use text.Mathlib.TextLemmas.{append_assoc}

-- Two tests that imply one another.
same_test : (a b : Bool) → (a ≡ true → b ≡ true) → (b ≡ true → a ≡ true) → a ≡ b
same_test true b p q = sym (p refl)
same_test false true p q = q refl
same_test false false p q = refl

append_inj : (s t u : String) → append s t ≡ append s u → t ≡ u
append_inj s t u e =
    sym (slice-behind s t (len s) refl)
    ∙ ap (λ (v : String). slice v (len s) (len v)) e
    ∙ slice-behind s u (len s) refl

names_append :
    (prefix t s : String)
    → len prefix ≡ 2
    → (slice (append prefix t) 2 (len (append prefix t)) == s)
      ≡ (append prefix t == append prefix s)
names_append prefix t s l = rw (slice-behind prefix t 2 l) (
    same_test (t == s) (append prefix t == append prefix s)
      (λ p. (eq_iff (append prefix t) (append prefix s)).1 (ap (append prefix) ((eq_iff t s).0 p)))
      (λ p. (eq_iff t s).1 (append_inj prefix t s ((eq_iff _ _).0 p))))

-- A key with the prefix names `s` exactly where it is the key of `s`.
names_iff :
    (prefix key s : String)
    → len prefix ≡ 2
    → starts_with key prefix ≡ true
    → (slice key 2 (len key) == s) ≡ (key == append prefix s)
names_iff prefix key s l p =
    let (t, e) = (starts_with_iff key prefix).0 p in
    subst (λ (k : String). (slice k 2 (len k) == s) ≡ (k == append prefix s)) e
      (names_append prefix t s l)

other_key :
    (prefix key s : String) → starts_with key prefix ≡ false → (key == append prefix s) ≡ false
other_key prefix key s p =
    same_test (key == append prefix s) false
      (λ q. sym p ∙ (starts_with_iff key prefix).1 (s, sym ((eq_iff key (append prefix s)).0 q)))
      (λ q. absurd (ground (arith, q)))

contains-behind :
    (prefix s : String) (m : Fields)
    → len prefix ≡ 2
    → contains (behind prefix m) s ≡ has_key (append prefix s) (some m)
unfolding behind contains has_key get
contains-behind prefix s end l = refl
contains-behind prefix s (field key v m) l = elim (Bool-cases (starts_with key prefix)) [
  | inl p ↦ ground (arith, p, names_iff prefix key s l p, contains-behind prefix s m l)
  | inr p ↦ ground (arith, p, other_key prefix key s p, contains-behind prefix s m l)
]

owned_lem :
    (prefix s : String) (container : Option Fields)
    → len prefix ≡ 2
    → is_owned (owned_behind prefix container) s ≡ has_key (append prefix s) container
unfolding owned_behind has_key
owned_lem prefix s none l = refl
owned_lem prefix s (some m) l = contains-behind prefix s m l

-- A skill counts as owned exactly where the self-config entry has the key "v:" and the name, and a
-- workspace file where it has "f:" and the name: the names are taken as the keys spell them.
pub is_owned-extract_owned :
    (entries : List ManagedFieldsEntry) (s : String)
    → (is_owned (extract_owned_skills entries) s
        ≡ has_key (append "v:" s) (navigate_fields (find_self_config_fields entries) skills_path))
      × (is_owned (extract_owned_workspace_files entries) s
          ≡ has_key (append "f:" s) (navigate_fields (find_self_config_fields entries) files_path))
unfolding extract_owned_skills extract_owned_workspace_files
is_owned-extract_owned entries s = (owned_lem "v:" s _ refl, owned_lem "f:" s _ refl)

-- Every key of a container has the prefix.
abbrev pub HaveKeyPrefix : String → Fields → Type 0
HaveKeyPrefix prefix end = Unit {0}
HaveKeyPrefix prefix (field key v m) = (starts_with key prefix ≡ true) × HaveKeyPrefix prefix m

-- The container of skills spells its keys as the comment in the source does, `v:"skill-name"`.
abbrev pub IsQuoted : Option Fields → Type 0
IsQuoted none = Unit {0}
IsQuoted (some m) = HaveKeyPrefix "v:\"" m

quoted_behind : (s : String) → starts_with (append "v:" s) "v:\"" ≡ true → starts_with s "\"" ≡ true
quoted_behind s p =
    let (t, e) = (starts_with_iff (append "v:" s) "v:\"").0 p in
    (starts_with_iff s "\"").1
      (t, append_inj "v:" (append "\"" t) s (sym (append_assoc "v:" "\"" t) ∙ e))

quote_or_not : (s : String) → starts_with s "\"" ≡ false → starts_with s "\"" ≡ true → ⊥
quote_or_not s n p = ground (arith, n, p)

unquoted_missing :
    (s : String) (m : Fields)
    → starts_with s "\"" ≡ false
    → HaveKeyPrefix "v:\"" m
    → has_key (append "v:" s) (some m) ≡ false
unfolding has_key get
unquoted_missing s end n h = refl
unquoted_missing s (field key v m) n h =
    let key_not : key ≡ append "v:" s → ⊥ = λ e.
      quote_or_not s n
        (quoted_behind s (subst (λ (k : String). starts_with k "v:\"" ≡ true) e h.0)) in
    ground (arith, eq_iff key (append "v:" s), key_not, unquoted_missing s m n h.1)

missing_of_container :
    (s : String) (container : Option Fields)
    → starts_with s "\"" ≡ false
    → IsQuoted container
    → has_key (append "v:" s) container ≡ false
unfolding has_key
missing_of_container s none n h = refl
missing_of_container s (some m) n h = unquoted_missing s m n h

-- Where the keys are spelled with quotes, as the comment in the source says, no skill whose name
-- does not begin with a quote counts as owned, whatever the self-config field manager owns.
pub is_owned-of_IsQuoted :
    (entries : List ManagedFieldsEntry) (s : String)
    → IsQuoted (navigate_fields (find_self_config_fields entries) skills_path)
    → starts_with s "\"" ≡ false
    → is_owned (extract_owned_skills entries) s ≡ false
is_owned-of_IsQuoted entries s h n =
    (is_owned-extract_owned entries s).0 ∙ missing_of_container s _ n h
