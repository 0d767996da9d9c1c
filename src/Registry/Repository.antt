-- ===== src/Registry/Repository.antt =====
-- The names of repositories in internal/registry/resolver.go.
use Prim.Native.String.{String, [], ◌∷◌}
use Prim.Native.String.append
use Prim.Native.Char.{Char, code}
use openclaw_operator.Prelude.{
  ◌≡◌, refl, sym, subst, ap, ◌∙◌, Bool, true, false, Option, none, some, arith, append, eqb,
  if◌then◌else◌, Result, ok, err,
}
use text.Mathlib.TextEquality.{Char-path}
use openclaw_operator.GoStrings.{cut, has_text}
use openclaw_operator.Registry.Resolver.{parse_repository}
use openclaw_operator.Registry.{Error, invalid_repository}

-- The two parts and the slash between them are the text.
abbrev AreParts : String → Option (String × String) → Type 0
AreParts s none = Unit
AreParts s (some p) = append p.0 (append "/" p.1) ≡ s

abbrev slash : Char
slash = "/"

slash-append : (s : String) → append "/" s ≡ slash ∷ s
slash-append s = append.cons slash [] s ∙ ap (λ t. slash ∷ t) (append.nil s)

AreParts-here : (c : Char) (s : String) → code c ≡ 47 → append [] (append "/" s) ≡ c ∷ s
AreParts-here c s p =
    append.nil (append "/" s) ∙ slash-append s ∙ ap (λ d. d ∷ s) (sym (Char-path c slash p))

AreParts-later :
    (c : Char) (s : String) (o : Option (String × String))
    → AreParts s o
    → AreParts (c ∷ s) (elim o [ none ↦ none | some p ↦ some (c ∷ p.0, p.1) ])
AreParts-later c s none h = tt
AreParts-later c s (some p) h = append.cons c p.0 (append "/" p.1) ∙ ap (λ t. c ∷ t) h

AreParts-cons :
    (c : Char) (s : String) (b : Bool)
    → eqb (code c) 47 ≡ b
    → AreParts s (cut 47 s)
    → AreParts
        (c ∷ s)
        (if b then some ([], s) else elim (cut 47 s) [ none ↦ none | some p ↦ some (c ∷ p.0, p.1) ])
AreParts-cons c s true e h = AreParts-here c s (ground (arith, e))
AreParts-cons c s false e h = AreParts-later c s (cut 47 s) h

AreParts-cut : (s : String) → AreParts s (cut 47 s)
unfolding cut
AreParts-cut [] = tt
AreParts-cut (c ∷ s) = AreParts-cons c s (eqb (code c) 47) refl (AreParts-cut s)

ok-eq : {a b : String × String} → ◌≡◌ {A = Result Error (String × String)} (ok a) (ok b) → a ≡ b
ok-eq p = cc

AreParts-checked :
    (s : String) (o : Option (String × String)) (p : String × String)
    → AreParts s o
    → ◌≡◌ {A = Result Error (String × String)}
        (elim o [
          | none ↦ err invalid_repository
          | some p ↦ if has_text p.0 "." then ok p else err invalid_repository
        ])
        (ok p)
    → (append p.0 (append "/" p.1) ≡ s) × (has_text p.0 "." ≡ true)
AreParts-checked s none p h q = ground (arith, q)
AreParts-checked s (some o) p h q = accepted o (has_text o.0 ".") refl h q
  where
    accepted :
        (o : String × String) (b : Bool)
        → has_text o.0 "." ≡ b
        → append o.0 (append "/" o.1) ≡ s
        → ◌≡◌ {A = Result Error (String × String)}
            (if b then ok o else err invalid_repository)
            (ok p)
        → (append p.0 (append "/" p.1) ≡ s) × (has_text p.0 "." ≡ true)
    accepted o true e h q =
        subst (λ p. (append p.0 (append "/" p.1) ≡ s) × (has_text p.0 "." ≡ true)) (ok-eq q) (h, e)
    accepted o false e h q = ground (arith, q)

-- A repository that is accepted is its host, a slash and its name, and the host has a dot.
pub parse_repository-parts :
    (repository : String) (p : String × String)
    → parse_repository repository ≡ ok p
    → (append p.0 (append "/" p.1) ≡ repository) × (has_text p.0 "." ≡ true)
unfolding parse_repository
parse_repository-parts repository p q =
    AreParts-checked repository (cut 47 repository) p (AreParts-cut repository) q
