-- ===== src/SelfConfig/ConfigPatch.antt =====
-- `buildConfigApply` of internal/controller/selfconfig_apply.go.
use openclaw_operator.Prelude.{
  String, ◌≡◌, refl, sym, ◌∙◌, ap, subst, true, Option, none, some, List, [], ◌∷◌, arith, eq_iff,
  if◌then◌else◌, contains, Result, ok, err, ◌>>=◌, ◌>>◌, >>=-eq-ok, Option-cases, inl, inr,
}
use openclaw_operator.Json.{
  Json, Fields, Raw, obj, null, end, field, empty, doc, get, at, unmarshal_object, is_empty_raw,
}
use openclaw_operator.SelfConfig.{
  OpenClawSelfConfigSpec, ApplyError, protected_config_key, invalid_config_patch, unreadable_config,
}
use openclaw_operator.SelfConfig.DeepMerge.{deep_merge, merge_value}
use openclaw_operator.SelfConfig.DeepMerge.Laws.{IsKeyed, AreKeyed, get-deep_merge_of_none}
use openclaw_operator.SelfConfig.DeepMerge.Paths.{at-merge_value, IsLeaf}

-- `protectedConfigKeys`
abbrev pub protected_config_keys : List String
protected_config_keys = "gateway" ∷ []

-- The loop over the keys of the patch.
unfoldable pub check_keys : Fields → Result ApplyError (Unit {0})
check_keys end = ok tt
check_keys (field k v m) =
    if contains protected_config_keys k then err (protected_config_key k) else check_keys m

-- The error of a call of `json.Unmarshal` that fails.
abbrev pub or_error : Option Fields → ApplyError → Result ApplyError Fields
or_error none e = err e
or_error (some m) e = ok m

-- The map `base`.
unfoldable pub decode_base : Option Raw → Result ApplyError Fields
decode_base none = ok end
decode_base (some raw) =
    if is_empty_raw raw then ok end else or_error (unmarshal_object raw) unreadable_config

unfoldable pub patch_config : Option Raw → Raw → Result ApplyError (Option Raw)
patch_config current raw = do
  patch ← or_error (unmarshal_object raw) invalid_config_patch
  check_keys patch
  base ← decode_base current
  ok (some (doc (obj (deep_merge base patch))))

unfoldable pub build_config_apply :
    Option Raw → OpenClawSelfConfigSpec → Result ApplyError (Option Raw)
build_config_apply current sc = elim sc.config_patch [
  | none ↦ ok none
  | some raw ↦ if is_empty_raw raw then ok none else patch_config current raw
]

check_keys_sound :
    (k : String) (m : Fields)
    → check_keys m ≡ ok tt
    → contains protected_config_keys k ≡ true
    → get k m ≡ none
unfolding check_keys get
check_keys_sound k end h p = refl
check_keys_sound k (field j v m) h p = ground (arith, check_keys_sound k m, eq_iff j k)

-- What stands at a path of a document, and of a configuration that may be missing.
abbrev pub at_raw : List String → Raw → Option Json
at_raw p (doc v) = at p v
at_raw p _ = none

abbrev pub at_config : List String → Option Raw → Option Json
at_config p none = none
at_config p (some raw) = at_raw p raw

or_error-eq-ok :
    (o : Option Fields) (e : ApplyError) (m : Fields) → or_error o e ≡ ok m → o ≡ some m
or_error-eq-ok none e m h = cc
or_error-eq-ok (some x) e m h = cc

-- The parts of a patch that was accepted.
pub record IsPatched (current : Option Raw) (raw merged : Raw) : Type 0 where
  pub patch : Fields
  pub read : unmarshal_object raw ≡ some patch
  pub allowed : check_keys patch ≡ ok tt
  pub base : Fields
  pub decoded : decode_base current ≡ ok base
  pub is : merged ≡ doc (obj (deep_merge base patch))

patch_config-IsPatched :
    (current : Option Raw) (raw merged : Raw)
    → patch_config current raw ≡ ok (some merged)
    → IsPatched current raw merged
unfolding patch_config
patch_config-IsPatched current raw merged h =
    let (patch, read, h₁) = >>=-eq-ok (or_error (unmarshal_object raw) invalid_config_patch) _ h in
    let (u, allowed, h₂) = >>=-eq-ok (check_keys patch) _ h₁ in
    let (base, decoded, h₃) = >>=-eq-ok (decode_base current) _ h₂ in
    record {
      patch = patch;
      read = or_error-eq-ok _ invalid_config_patch patch read;
      allowed = allowed;
      base = base;
      decoded = decoded;
      is = cc;
    }

-- A request whose patch gives a configuration holds a patch that was accepted.
pub build_config_apply-IsPatched :
    (current : Option Raw) (sc : OpenClawSelfConfigSpec) (merged : Raw)
    → build_config_apply current sc ≡ ok (some merged)
    → (raw : Raw) × (sc.config_patch ≡ some raw) × IsPatched current raw merged
unfolding build_config_apply
build_config_apply-IsPatched current sc merged h = elim (Option-cases sc.config_patch) [
  | inl missing ↦ ground (arith, missing)
  | inr (raw, given) ↦
      (raw, given, patch_config-IsPatched current raw merged (ground (arith, given)))
]

same_at :
    (k : String) (p : List String) (a b : Fields) → a ≡ b → at (k ∷ p) (obj a) ≡ at (k ∷ p) (obj b)
same_at k p a b e = ap (λ m. at (k ∷ p) (obj m)) e

-- The objects of a document have distinct keys.
abbrev pub HasKeys : Raw → Type 0
HasKeys (doc v) = IsKeyed v
HasKeys _ = Unit

AreKeyed-unmarshal :
    (raw : Raw) (m : Fields) → HasKeys raw → unmarshal_object raw ≡ some m → AreKeyed m
unfolding unmarshal_object
AreKeyed-unmarshal (doc (obj n)) m k h = subst AreKeyed (cc) k
AreKeyed-unmarshal (doc null) m k h = let e : end ≡ m = cc in subst AreKeyed e tt
AreKeyed-unmarshal raw m k h = cc

at_config-decode_base :
    (k : String) (p : List String) (current : Option Raw) (base : Fields)
    → decode_base current ≡ ok base
    → at_config (k ∷ p) current ≡ at (k ∷ p) (obj base)
unfolding decode_base unmarshal_object at get
at_config-decode_base k p none base h = same_at k p end base (cc)
at_config-decode_base k p (some empty) base h = same_at k p end base (cc)
at_config-decode_base k p (some (doc (obj m))) base h = same_at k p m base (cc)
at_config-decode_base k p (some (doc null)) base h = same_at k p end base (cc)
at_config-decode_base k p (some raw) base h = cc

-- A request that is accepted leaves everything under a protected key as it is.
pub build_config_apply_protected :
    (k : String) (p : List String) (current : Option Raw) (sc : OpenClawSelfConfigSpec)
    (merged : Raw)
    → build_config_apply current sc ≡ ok (some merged)
    → contains protected_config_keys k ≡ true
    → at_raw (k ∷ p) merged ≡ at_config (k ∷ p) current
unfolding at
build_config_apply_protected k p current sc merged h protected =
    let (raw, given, i) = build_config_apply-IsPatched current sc merged h in
    let untouched = check_keys_sound k i.patch i.allowed protected in
    ap (at_raw (k ∷ p)) i.is
    ∙ ap (λ (o : Option Json). elim o [ none ↦ none | some v ↦ at p v ])
        (get-deep_merge_of_none k i.base i.patch untouched)
    ∙ sym (at_config-decode_base k p current i.base i.decoded)

at_raw-unmarshal :
    (k : String) (p : List String) (raw : Raw) (m : Fields)
    → unmarshal_object raw ≡ some m
    → at_raw (k ∷ p) raw ≡ at (k ∷ p) (obj m)
unfolding unmarshal_object at get
at_raw-unmarshal k p (doc (obj n)) m h = same_at k p n m (cc)
at_raw-unmarshal k p (doc null) m h = same_at k p end m (cc)
at_raw-unmarshal k p raw m h = cc

-- The values that a patch has for its keys, at any depth and no objects, are in the result.
pub build_config_apply_patched :
    (k : String) (p : List String) (current : Option Raw) (sc : OpenClawSelfConfigSpec)
    (patch merged : Raw) (w : Json)
    → build_config_apply current sc ≡ ok (some merged)
    → sc.config_patch ≡ some patch
    → HasKeys patch
    → at_raw (k ∷ p) patch ≡ some w
    → IsLeaf w
    → at_raw (k ∷ p) merged ≡ some w
unfolding at merge_value
build_config_apply_patched k p current sc patch merged w h e keyed there leaf =
    let (raw, given, i) = build_config_apply-IsPatched current sc merged h in
    let same : raw ≡ patch = cc in
    let read : unmarshal_object patch ≡ some i.patch = cc (i.read, same) in
    ap (at_raw (k ∷ p)) i.is
    ∙ at-merge_value (k ∷ p) (some (obj i.base)) (obj i.patch) w
        (AreKeyed-unmarshal patch i.patch keyed read)
        (sym (at_raw-unmarshal k p patch i.patch read) ∙ there) leaf
