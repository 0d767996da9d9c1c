-- ===== src/AutoUpdate/Api/Triples.antt =====
-- Pre- and postconditions of actions, with the errors, whatever the server answers.
use openclaw_operator.Prelude.{
  String, ◌≡◌, ◌≢◌, refl, Bool, true, false, Option, none, some, List, [], ◌∷◌, ◌++◌, arith, Result,
  ok, err, if◌then◌else◌,
}
use openclaw_operator.GoMap.{get}
use openclaw_operator.AutoUpdate.{
  World, Status, Event, Error, Answer, not_found, already_exists, api_failed, accepted,
  already_exists_answer, rejected,
}
use openclaw_operator.AutoUpdate.Api.{
  Action, ◌>>=◌, pure, raise, attempt, gets, update, modify_status, emit, request, answer, get_sts,
  list_pods, get_job, update_status, store_status, on_option, on_found, on_result,
}

-- What holds behind an action: `R` where it returned, and `Q` where it failed.
abbrev pub Post :
    {A : Type 0} → (A → World → Type 0) → (Error → World → Type 0) → Result Error A → World → Type 0
Post R Q (ok a) w = R a w
Post R Q (err e) w = Q e w

pub record Triple {A : Type 0} (P : World → Type 0) (m : Action A) (R : A → World → Type 0)
    (Q : Error → World → Type 0) : Type 0 where
  pub at : (w : World) → P w → Post R Q (m w).0 (m w).1

-- The same, whether the action returns or fails.
abbrev pub Ends : {A : Type 0} → (World → Type 0) → Action A → (World → Type 0) → Type 0
Ends P m Q = Triple P m (λ a. Q) (λ e. Q)

module _ {P : World → Type 0} {Q : Error → World → Type 0} where
  pub Triple-bind :
      {A B : Type 0} (R : A → World → Type 0) {S : B → World → Type 0} (m : Action A)
      (f : A → Action B)
      → Triple P m R Q
      → ((a : A) → Triple (R a) (f a) S Q)
      → Triple P (m >>= f) S Q
  unfolding ◌>>=◌
  Triple-bind {A} {B} R {S} m f tm tf = record { at = λ w h. next (m w).0 (m w).1 (tm.at w h) }
    where
      next :
          (r : Result Error A) (w' : World)
          → Post R Q r w'
          → let out = elim r as (λ r. Result Error B × World) [
            | ok a ↦ f a w'
            | err e ↦ (err e, w')
          ] in
            Post S Q out.0 out.1
      next (ok a) w' h = (tf a).at w' h
      next (err e) w' h = h

  pub Triple-attempt :
      {A : Type 0} (R : A → World → Type 0) {Q' : Error → World → Type 0} (m : Action A)
      → Triple P m R Q'
      → Triple P (attempt m) (Post R Q') Q
  unfolding attempt
  Triple-attempt R m t = record { at = t.at }

  pub Triple-pure :
      {A : Type 0} {R : A → World → Type 0} (a : A)
      → ((w : World) → P w → R a w)
      → Triple P (pure a) R Q
  unfolding pure
  Triple-pure a k = record { at = k }

  pub Triple-raise :
      {A : Type 0} {R : A → World → Type 0} (e : Error)
      → ((w : World) → P w → Q e w)
      → Triple P (raise e) R Q
  unfolding raise
  Triple-raise e k = record { at = k }

  pub Triple-if :
      {A : Type 0} {R : A → World → Type 0} (b : Bool) (m n : Action A)
      → (b ≡ true → Triple P m R Q)
      → (b ≡ false → Triple P n R Q)
      → Triple P (if b then m else n) R Q
  Triple-if true m n km kn = km refl
  Triple-if false m n km kn = kn refl

  pub Triple-gets :
      {A B : Type 0} {S : B → World → Type 0} (f : World → A) (k : A → Action B)
      → ((a : A) → Triple (λ w. P w × (f w ≡ a)) (k a) S Q)
      → Triple P (gets f >>= k) S Q
  unfolding ◌>>=◌ gets
  Triple-gets f k t = record { at = λ w h. (t (f w)).at w (h, refl) }

  pub Triple-update :
      {R : Unit {0} → World → Type 0} (f : World → World)
      → ((w : World) → P w → R tt (f w))
      → Triple P (update f) R Q
  unfolding update
  Triple-update f k = record { at = k }

  pub Triple-modify_status :
      {R : Unit {0} → World → Type 0} (f : Status → Status)
      → ((w : World) → P w → R tt (record w { inst = record w.inst { status = f w.inst.status } }))
      → Triple P (modify_status f) R Q
  unfolding modify_status
  Triple-modify_status f k = record { at = k }

  pub Triple-emit :
      {R : Unit {0} → World → Type 0} (e : Event)
      → ((w : World) → P w → R tt (record w { events = w.events ++ e ∷ [] }))
      → Triple P (emit e) R Q
  unfolding emit
  Triple-emit e k = record { at = k }

-- A weaker postcondition from a stronger precondition.
pub Triple-weaken :
    {P P' : World → Type 0} {A : Type 0} {R R' : A → World → Type 0} {Q Q' : Error → World → Type 0}
    (m : Action A)
    → ((w : World) → P w → P' w)
    → ((a : A) (w : World) → R' a w → R a w)
    → ((e : Error) (w : World) → Q' e w → Q e w)
    → Triple P' m R' Q'
    → Triple P m R Q
Triple-weaken {A = A} {R} {R'} {Q} {Q'} m p r q t = record {
  at = λ w h. post (m w).0 (m w).1 (t.at w (p w h));
}
  where
    post : (x : Result Error A) (w : World) → Post R' Q' x w → Post R Q x w
    post (ok a) w h = r a w h
    post (err e) w h = q e w h

-- A predicate that does not read the answers to come.
abbrev pub IsStable : (World → Type 0) → Type 0
IsStable P = (w : World) (l : List Answer) → P w → P (record w { answers = l })

already_exists_ne : ◌≢◌ {A = Error} already_exists not_found
already_exists_ne p = ground (arith, p)

api_failed_ne : (text : String) → ◌≢◌ {A = Error} (api_failed text) not_found
api_failed_ne text p = ground (arith, p)

module _ {P : World → Type 0} (stable : IsStable P) where
  -- The server refuses a request, or takes it; it does not say that an object is missing.
  pub Triple-request : Triple P request (λ a. P) (λ e w. P w × (e ≢ not_found))
  unfolding request answer
  Triple-request = record { at = λ w h. post w.answers w h }
    where
      post :
          (l : List Answer) (w : World)
          → P w
          → Post {A = Unit {0}}
              (λ a. P)
              (λ e w. P w × (e ≢ not_found))
              (answer l w).0
              (answer l w).1
      post [] w h = h
      post (accepted ∷ l) w h = stable w l h
      post (already_exists_answer ∷ l) w h = (stable w l h, already_exists_ne)
      post (rejected text ∷ l) w h = (stable w l h, api_failed_ne text)

  -- An object that is read, or is missing.
  Triple-read :
      {A : Type 0} (f : World → Option A) (o : Option A)
      → Triple
          (λ w. P w × (f w ≡ o))
          (on_option o (raise not_found) pure)
          (λ a w. P w × (f w ≡ some a))
          (λ e w. P w × (e ≡ not_found → f w ≡ none))
  unfolding on_option
  Triple-read f none = Triple-raise not_found (λ w h. (h.0, λ e. h.1))
  Triple-read f (some a) = Triple-pure a (λ w h. h)

  Triple-read_answer :
      {A : Type 0} (f : World → Option A)
      → Triple P
          (request >>= λ u. gets f >>= λ o. on_option o (raise not_found) pure)
          (λ a w. P w × (f w ≡ some a))
          (λ e w. P w × (e ≡ not_found → f w ≡ none))
  Triple-read_answer f =
      Triple-bind (λ a. P) request _
        (Triple-weaken request (λ w h. h) (λ a w h. h) (λ e w h. (h.0, λ p. absurd (h.1 p)))
          Triple-request)
        λ u. Triple-gets f _ (Triple-read f)

  pub Triple-get_sts :
      Triple P get_sts (λ s w. P w × (w.sts ≡ some s)) (λ e w. P w × (e ≡ not_found → w.sts ≡ none))
  unfolding get_sts
  Triple-get_sts = Triple-read_answer (λ w. w.sts)

  pub Triple-get_job :
      (name : String)
      → Triple P
          (get_job name)
          (λ job w. P w × (get name w.jobs ≡ some job))
          (λ e w. P w × (e ≡ not_found → get name w.jobs ≡ none))
  unfolding get_job
  Triple-get_job name = Triple-read_answer (λ w. get name w.jobs)

  pub Triple-list_pods : Triple P list_pods (λ n w. P w × (w.pods ≡ n)) (λ e. P)
  unfolding list_pods gets
  Triple-list_pods =
      Triple-bind (λ a. P) request _
        (Triple-weaken request (λ w h. h) (λ a w h. h) (λ e w h. h.0) Triple-request)
        λ u. record { at = λ w h. (h, refl) }

  -- The server takes the status: what is known then holds of the state that it stores.
  pub Triple-update_status :
      {R : World → Type 0}
      → ((w : World) → P w → R (store_status w))
      → Triple P update_status (λ a. R) (λ e. P)
  unfolding update_status
  Triple-update_status k =
      Triple-bind (λ a. P) request _
        (Triple-weaken request (λ w h. h) (λ a w h. h) (λ e w h. h.0) Triple-request)
        λ u. Triple-update store_status k

-- By the result of an attempt.
module _ {A B : Type 0} {S : A → World → Type 0} {Q : Error → World → Type 0} where
  pub Triple-result :
      (R : B → World → Type 0) (E : Error → World → Type 0) (r : Result Error B)
      (g : Error → Action A) (f : B → Action A)
      → ((e : Error) → Triple (E e) (g e) S Q)
      → ((b : B) → Triple (R b) (f b) S Q)
      → Triple (Post R E r) (on_result r g f) S Q
  unfolding on_result
  Triple-result R E (ok b) g f kg kf = kf b
  Triple-result R E (err e) g f kg kf = kg e

  pub Triple-found :
      (R : B → World → Type 0) (E : Error → World → Type 0) (r : Result Error B) (m : Action A)
      (f : B → Action A)
      → ((e : Error) (w : World) → E e w → Q e w)
      → Triple (E not_found) m S Q
      → ((b : B) → Triple (R b) (f b) S Q)
      → Triple (Post R E r) (on_found r m f) S Q
  unfolding on_found
  Triple-found R E (ok b) m f sub km kf = kf b
  Triple-found R E (err not_found) m f sub km kf = km
  Triple-found R E (err e) m f sub km kf = Triple-raise e (sub e)
