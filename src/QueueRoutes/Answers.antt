-- ===== src/QueueRoutes/Answers.antt =====
-- routes-queue.js and index.js: the statuses with which a request of the front end is answered.
use ugo.Base.{
  sym, ap, ◌∙◌, ◌≡◌, refl, inl, inr, String, true, not, ◌&&◌, List, ◌==◌, ℕ, Bool, [], ◌∷◌, Option,
  none, some, any, leb, arith, Bool-cases,
}
use ugo.Server.{
  Errors, status_of, stack_of, is_told, passes_rollbar_of, error_status, http_answer, error_handler,
}
use ugo.Model.Queue.{Item}
use ugo.World.{Services, World, Promise, Failure, fulfilled}
use ugo.Promise.{has_database}
use ugo.GitHub.Frame.{Settled-cases}
use ugo.QueueManager.{add_item, remove_item, get_items, no_meta}
use ugo.Model.User.{User, same_field, text}
use ugo.QueueRoutes.{
  Reply, replying, Method, get, post, delete, serve, get_queue, post_item, delete_item, next_status,
  next_failure, sent_items, validated, authorized, available, accepted_item,
}
use ugo.Base.{false}

-- The first reply that a promise of the routes ends with, and what holds of it.
abbrev pub Replied : {s : Services} → (Reply → Type 0) → Promise s (List Reply) → World s → Type 0
Replied {s} P m w =
    (r : Reply) × (rs : List Reply) × (w' : World s) × (m w ≡ fulfilled (r ∷ rs) w') × P r

module _ (s : Services) (P : Reply → Type 0) where
  Replied-replying :
      {A : Type 0} (m : Promise s A) (f : A → List Reply) (g : Failure → List Reply) (w : World s)
      → ((a : A) → (r : Reply) × (rs : List Reply) × (f a ≡ r ∷ rs) × P r)
      → ((e : Failure) → (r : Reply) × (rs : List Reply) × (g e ≡ r ∷ rs) × P r)
      → Replied P (replying s m f g) w
  Replied-replying m f g w some_f some_g = elim (Settled-cases (m w)) [
    | inl (a, v, e) ↦ let (r, rs, same, p) = some_f a in (r, rs, v, rw (e, same) refl, p)
    | inr (x, v, e) ↦ let (r, rs, same, p) = some_g x in (r, rs, v, rw (e, same) refl, p)
  ]

  Replied-authorized :
      (u : User) (x : Item) (m : Promise s (List Reply)) (w : World s)
      → P (next_status 401)
      → Replied P m w
      → Replied P (authorized s u x m) w
  Replied-authorized u x m w p h =
      elim (Bool-cases (not (same_field (text x.username) u.username) && not u.is_admin)) [
        | inl refused ↦ (next_status 401, [], w, rw refused refl, p)
        | inr passed ↦ rw passed h
      ]

  Replied-available :
      (m : Promise s (List Reply)) (w : World s)
      → P (next_status 503)
      → Replied P m w
      → Replied P (available s m) w
  Replied-available m w p h = elim (Bool-cases (has_database w)) [
    | inl on ↦ let (r, rs, w', e, q) = h in (r, rs, w', ground (arith, e), q)
    | inr off ↦ (next_status 503, [], w, ground arith, p)
  ]

  Replied-accepted_item :
      (o : Option Item) (next : Item → Promise s (List Reply)) (w : World s)
      → P (next_status 400)
      → ((x : Item) → Replied P (next x) w)
      → Replied P (accepted_item s o next) w
  Replied-accepted_item none next w p h = (next_status 400, [], w, refl, p)
  Replied-accepted_item (some x) next w p h = h x

-- The statuses with which a method is answered.
abbrev pub expected :
    (s : Services) (Body : Type 0) (validate : Body → Option Item) → Method s Body validate → List ℕ
expected s Body validate get = 200 ∷ 401 ∷ 500 ∷ 503 ∷ []
expected s Body validate (post body) = 201 ∷ 400 ∷ 401 ∷ 503 ∷ []
expected s Body validate (delete body) = 204 ∷ 400 ∷ 401 ∷ 503 ∷ []

and_true : (b : Bool) → b && true ≡ b
and_true false = refl
and_true true = refl

module _ (errors : Errors) (development : Bool) where
  -- A reply whose answer has one of some statuses; outside of development it shows no stack, the
  -- handler calls `rollbar.error` exactly from the status 500 on, and Rollbar's own middleware gets
  -- exactly what is answered from the status 400 on.
  abbrev pub IsAnsweredBy : List ℕ → Reply → Type 0
  IsAnsweredBy statuses r =
      (any (λ n. n == status_of (http_answer development errors r)) statuses ≡ true)
      × (development ≡ false
          → (stack_of (http_answer development errors r) ≡ none)
            × (is_told (http_answer development errors r)
                ≡ leb 500 (status_of (http_answer development errors r)))
            × (passes_rollbar_of (http_answer development errors r)
                ≡ leb 400 (status_of (http_answer development errors r))))

  pub next_status-IsAnsweredBy :
      (n : ℕ) (statuses : List ℕ)
      → any (λ m. m == error_status (some n)) statuses ≡ true
      → leb 400 (error_status (some n)) ≡ true
      → IsAnsweredBy statuses (next_status n)
  unfolding http_answer error_handler
  next_status-IsAnsweredBy n statuses h error = (
    rw (errors.status-created n) h,
    λ live. rw live (
      refl,
      and_true _,
      sym (ap (λ o. leb 400 (error_status o)) (errors.status-created n) ∙ error),
    ),
  )

  next_failure-IsAnsweredBy :
      (f : Failure) (statuses : List ℕ)
      → any (λ m. m == 500) statuses ≡ true
      → IsAnsweredBy statuses (next_failure f)
  unfolding http_answer error_handler error_status
  next_failure-IsAnsweredBy f statuses h = (
    rw (errors.status-thrown f) h,
    λ live.
        rw live
          (refl, and_true _, sym (ap (λ o. leb 400 (error_status o)) (errors.status-thrown f))),
  )

module _ (s : Services) (Body : Type 0) (validate : Body → Option Item) (user : User)
    (owner repo branch : String) (errors : Errors) (development : Bool) where
  abbrev IsAnswer : Method s Body validate → Reply → Type 0
  IsAnswer method = IsAnsweredBy errors development (expected s Body validate method)

  Answered-get : (w : World s) → Replied (IsAnswer get) (get_queue s owner repo branch) w
  unfolding get_queue error_status http_answer
  Answered-get w =
      Replied-available s (IsAnswer get)
        (replying s (get_items s owner repo branch) (λ items. sent_items items ∷ [])
          (λ e. next_failure e ∷ []))
        w (next_status-IsAnsweredBy errors development 503 (expected s Body validate get) refl refl)
        (Replied-replying s (IsAnswer get) (get_items s owner repo branch) _ _ w
          (λ _. (_, _, refl, (refl, λ _. (refl, refl, refl))))
          (λ f. (
            _,
            _,
            refl,
            next_failure-IsAnsweredBy errors development f (expected s Body validate get) refl,
          )))

  Answered-post :
      (body : Body) (x : Item) (w : World s)
      → Replied (IsAnswer (post body)) (post_item s owner repo branch x) w
  unfolding post_item http_answer
  Answered-post body x w =
      Replied-replying s (IsAnswer (post body)) (add_item s owner repo branch x) _ _ w
        (λ _. (_, _, refl, (refl, λ _. (refl, refl, refl))))
        (λ _. (_, _, refl, (refl, λ _. (refl, refl, refl))))

  Answered-delete :
      (body : Body) (x : Item) (w : World s)
      → Replied (IsAnswer (delete body)) (delete_item s owner repo branch x) w
  unfolding delete_item http_answer
  Answered-delete body x w =
      Replied-replying s (IsAnswer (delete body)) (remove_item s owner repo branch x no_meta) _ _ w
        (λ _. (_, _, refl, (refl, λ _. (refl, refl, refl))))
        (λ _. (_, _, refl, (refl, λ _. (refl, refl, refl))))

  -- A change of the queue, behind the tests of the database, of the body and of the user.
  Answered-change :
      (method : Method s Body validate) (body : Body) (change : Item → Promise s (List Reply))
      (w : World s)
      → IsAnswer method (next_status 400)
      → IsAnswer method (next_status 401)
      → IsAnswer method (next_status 503)
      → ((x : Item) → Replied (IsAnswer method) (change x) w)
      → Replied
          (IsAnswer method)
          (available s (validated s Body validate body (λ x. authorized s user x (change x))))
          w
  Answered-change method body change w bad refused absent h =
      Replied-available s (IsAnswer method)
        (accepted_item s (validate body) (λ x. authorized s user x (change x))) w absent
        (Replied-accepted_item s (IsAnswer method) (validate body)
          (λ x. authorized s user x (change x)) w bad
          (λ x. Replied-authorized s (IsAnswer method) user x (change x) w refused (h x)))

  -- Every request is answered, whatever the user, the method, the body and the state are, with a
  -- status that is expected of the method.
  pub serve-Answered :
      (method : Method s Body validate) (w : World s)
      → Replied (IsAnswer method) (serve s Body validate user owner repo branch method) w
  unfolding serve error_status
  serve-Answered get w = Answered-get w
  serve-Answered (post body) w =
      Answered-change (post body) body (post_item s owner repo branch) w
        (next_status-IsAnsweredBy errors development 400 (expected s Body validate (post body)) refl
          refl)
        (next_status-IsAnsweredBy errors development 401 (expected s Body validate (post body)) refl
          refl)
        (next_status-IsAnsweredBy errors development 503 (expected s Body validate (post body)) refl
          refl)
        (λ x. Answered-post body x w)
  serve-Answered (delete body) w =
      Answered-change (delete body) body (delete_item s owner repo branch) w
        (next_status-IsAnsweredBy errors development 400 (expected s Body validate (delete body))
          refl refl)
        (next_status-IsAnsweredBy errors development 401 (expected s Body validate (delete body))
          refl refl)
        (next_status-IsAnsweredBy errors development 503 (expected s Body validate (delete body))
          refl refl)
        (λ x. Answered-delete body x w)
