-- ===== src/Backup/Deletion/Orphan.antt =====
-- The claim of an instance that is let go, by `removeFinalizer` and `orphanPVC` of
-- internal/controller/backup.go.
use openclaw_operator.Prelude.{
  ◌≤◌, String, ◌≡◌, refl, true, false, Bool, some, List, [], ◌∷◌, arith, contains, length, eqb,
  if◌then◌else◌, ◌==◌, eq_iff, ◌&&◌, not, ok, none, Option, ap, ◌∙◌,
}
use openclaw_operator.AutoUpdate.{World, rejected}
use openclaw_operator.AutoUpdate.Api.{
  ◌>>=◌, pure, attempt, gets, update, request, answer, on_option,
}
use openclaw_operator.Backup.Deletion.{
  without, orphan_pvc, keeps_claim, remove_finalizer, store_object, finalizer_name,
}
use openclaw_operator.Backup.Deletion.Progress.{is_gone, contains-without}

length-without : (x : String) (l : List String) → length (without x l) ≤ length l
unfolding without
length-without x [] = omega arith
length-without x (y ∷ l) = ground (arith, length-without x l)

-- A slice that loses nothing has no `x`.
contains_of_length :
    (x : String) (l : List String) → length (without x l) ≡ length l → contains l x ≡ false
unfolding without contains
contains_of_length x [] e = refl
contains_of_length x (y ∷ l) e = ground (arith, contains_of_length x l, length-without x l, e)

without_other :
    (x y : String) (l : List String) → contains (without x l) y ≡ (not (x == y) && contains l y)
unfolding without contains
without_other x y [] = ground arith
without_other x y (z ∷ l) = ground (arith, without_other x y l, eq_iff x y, eq_iff z x, eq_iff z y)

-- The owner references behind `orphanPVC`.
abbrev orphaned : String → Option (List String) → Option (List String)
orphaned uid none = none
orphaned uid (some owners) =
    if eqb (length (without uid owners)) (length owners)
    then some owners
    else some (without uid owners)

-- Whether the claim is there and has the owner `uid`.
abbrev pub is_owned_by : String → World → Bool
is_owned_by uid w = elim w.owners [ none ↦ false | some owners ↦ contains owners uid ]

orphan_lem :
    (w : World)
    → w.answers ≡ []
    → orphan_pvc w ≡ (ok tt, record w { owners = orphaned w.inst.uid w.owners })
unfolding orphan_pvc on_option gets pure update request answer ◌>>=◌
orphan_lem w a = by w.owners refl
  where
    by :
        (o : Option (List String))
        → w.owners ≡ o
        → orphan_pvc w ≡ (ok tt, record w { owners = orphaned w.inst.uid w.owners })
    by none e = ground (arith, a, e)
    by (some l) e = ground (arith, a, e)

contains-orphaned :
    (uid y : String) (o : Option (List String))
    → (elim (orphaned uid o) [ none ↦ false | some l ↦ contains l y ])
      ≡ (not (uid == y) && (elim o [ none ↦ false | some l ↦ contains l y ]))
contains-orphaned uid y none = ground arith
contains-orphaned uid y (some l) =
    ground
      (arith, without_other uid y l, contains_of_length uid l, length-without uid l, eq_iff uid y)

remove_lem :
    (w : World)
    → w.answers ≡ []
    → (remove_finalizer w).1.owners
      ≡ (if keeps_claim w.inst then orphaned w.inst.uid w.owners else w.owners)
unfolding remove_finalizer store_object attempt gets pure update request answer ◌>>=◌
remove_lem w a = ground (arith, a, orphan_lem w a)

-- Where the server accepts every request, letting an instance go takes the instance's owner
-- reference, and no other, from a claim that shall outlive the instance, and changes the owners of
-- no other claim.
pub remove_finalizer-is_owned_by :
    (w : World) (uid : String)
    → w.answers ≡ []
    → is_owned_by uid (remove_finalizer w).1 ≡ (
        if keeps_claim w.inst
        then not (w.inst.uid == uid) && is_owned_by uid w
        else is_owned_by uid w)
remove_finalizer-is_owned_by w uid a =
    ap (λ (o : Option (List String)). elim o [ none ↦ false | some l ↦ contains l uid ])
      (remove_lem w a)
    ∙ by (keeps_claim w.inst)
  where
    by :
        (b : Bool)
        → (elim (if b then orphaned w.inst.uid w.owners else w.owners) [
          | none ↦ false
          | some l ↦ contains l uid
        ])
          ≡ (if b then not (w.inst.uid == uid) && is_owned_by uid w else is_owned_by uid w)
    by true = contains-orphaned w.inst.uid uid w.owners
    by false = refl

-- Where the server refuses the first request, the finalizer is removed all the same, and a claim
-- that shall outlive the instance keeps the owner references it has.
pub remove_finalizer-of_refusal :
    (w : World) (text : String)
    → w.answers ≡ rejected text ∷ []
    → keeps_claim w.inst ≡ true
    → (is_gone (remove_finalizer w).1 ≡ true) × ((remove_finalizer w).1.owners ≡ w.owners)
unfolding remove_finalizer store_object orphan_pvc on_option attempt gets pure update request answer
    ◌>>=◌
remove_finalizer-of_refusal w text a k =
    ground (arith, a, k, contains-without finalizer_name w.inst.finalizers)
