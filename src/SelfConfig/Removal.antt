-- ===== src/SelfConfig/Removal.antt =====
-- `checkRemovalOwnership` of internal/controller/selfconfig_apply.go.
use openclaw_operator.Prelude.{
  ◌<◌, String, ◌≡◌, ◌≢◌, ap, Bool, true, false, not, Option, none, some, List, [], ◌∷◌, arith,
  concat, append, len, len-append_lem, contains, ◌==◌, eq_iff, if◌then◌else◌, refl,
}

abbrev pub self_config_field_manager : String
self_config_field_manager = "openclaw-selfconfig"

-- `owned != nil && owned[name]`
abbrev pub is_owned : Option (List String) → String → Bool
is_owned none name = false
is_owned (some owned) name = contains owned name

-- The warning; `quote` is what `%q` prints for a text.
unfoldable pub check_removal_ownership :
    (String → String) → String → String → Option (List String) → (String → String) → String
check_removal_ownership quote name kind owned find_manager =
    if is_owned owned name
    then ""
    else append "cannot remove " (
        concat (
          kind
          ∷ " "
          ∷ quote name
          ∷ (if not (find_manager name == "")
              then ": managed by field manager " ∷ quote (find_manager name) ∷ []
              else ": not managed by " ∷ self_config_field_manager ∷ [])))

prefixed_not_empty : (s t : String) → 0 < len s → append s t ≢ ""
prefixed_not_empty s t p q =
    let l = len-append_lem s t in let e = ap len q in omega (arith, l, e, p)

test_not_empty : (s t : String) → 0 < len s → (append s t == "") ≡ false
test_not_empty s t p = let n = prefixed_not_empty s t p in ground (arith, eq_iff (append s t) "", n)

pick-empty : (b : Bool) (t : String) → ((if b then "" else append "cannot remove " t) == "") ≡ b
pick-empty true t = refl
pick-empty false t = test_not_empty "cannot remove " t (omega arith)

-- There is no warning exactly where the name is owned.
check_removal_ownership-empty :
    (quote : String → String) (name kind : String) (owned : Option (List String))
    (find_manager : String → String)
    → (check_removal_ownership quote name kind owned find_manager == "") ≡ is_owned owned name
unfolding check_removal_ownership
check_removal_ownership-empty quote name kind owned find_manager =
    pick-empty (is_owned owned name) _
