-- ===== src/QueueRoutes/Access.antt =====
-- The routes of the front end behind the authenticator: who can change what.
use ugo.Base.{
  ◌≡◌, refl, ap, ◌∙◌, inl, inr, ◌⊎◌, String, Bool, false, List, [], Option, none, some, keep,
  Option-cases,
}
use ugo.Model.Queue.{Item}
use ugo.Model.User.{User}
use ugo.World.{Services, World, Promise, fulfilled}
use ugo.Promise.{world_of}
use ugo.QueueManager.Bookings.{booked}
use ugo.Authenticator.{Access, development, authenticate}
use ugo.Authenticator.Laws.{IsGranted, authenticate-IsGranted}
use ugo.Authenticator.Frame.{authenticate_total}
use ugo.QueueRoutes.{Reply, next_status, Method, get, post, delete, serve}
use ugo.QueueRoutes.Api.{authenticated, queue_request}
use ugo.Server.{Errors, error_status}
use ugo.QueueRoutes.Answers.{
  Replied, IsAnsweredBy, expected, next_status-IsAnsweredBy, serve-Answered,
}
use ugo.QueueRoutes.Rights.{is_others, serve-others}

module _ (s : Services) (P : Reply → Type 0) (refused : P (next_status 401)) where
  -- A route that replies also replies behind the authenticator.
  Replied-authenticated :
      (a : Access) (route : User → Promise s (List Reply)) (w : World s)
      → ((u : User) (v : World s) → Replied P (route u) v)
      → Replied P (authenticated s a route) w
  Replied-authenticated a route w h = let (o, v, e, _) = authenticate_total s a w in go o v e
    where
      go :
          (o : Option User) (v : World s)
          → authenticate s a w ≡ fulfilled o v
          → Replied P (authenticated s a route) w
      go none v e = (next_status 401, [], v, rw e refl, refused)
      go (some u) v e = let (r, rs, w', done, p) = h u v in (r, rs, w', rw e done, p)

module _ (s : Services) (Body : Type 0) (validate : Body → Option Item) where
  -- Every request to the API of the queues is fulfilled with at least one reply, whatever it
  -- carries and whatever GitHub and the state are; what the client receives for the first reply has
  -- the status 401 or 503, for a post 201 or 400, for a delete 204 or 400, for a get 200 or 500;
  -- outside of development it shows no stack, Rollbar's middleware gets the error exactly if the
  -- status is 400 or more, and the handler of errors calls `rollbar.error` exactly from the status
  -- 500 on.
  pub queue_request-Answered :
      (errors : Errors) (development : Bool) (a : Access) (branch : String)
      (method : Method s Body validate) (w : World s)
      → Replied
          (IsAnsweredBy errors development (expected s Body validate method))
          (queue_request s Body validate a branch method)
          w
  unfolding queue_request error_status
  queue_request-Answered errors development a branch method w =
      Replied-authenticated s (IsAnsweredBy errors development (expected s Body validate method))
        (refused method) a (λ u. serve s Body validate u a.owner a.repository branch method) w
        (λ u v.
          serve-Answered s Body validate u a.owner a.repository branch errors development method v)
    where
      refused :
          (method : Method s Body validate)
          → IsAnsweredBy errors development (expected s Body validate method) (next_status 401)
      refused get =
          next_status-IsAnsweredBy errors development 401 (expected s Body validate get) refl refl
      refused (post body) =
          next_status-IsAnsweredBy errors development 401 (expected s Body validate (post body))
            refl refl
      refused (delete body) =
          next_status-IsAnsweredBy errors development 401 (expected s Body validate (delete body))
            refl refl

  -- Where the environment is not development: a request to the API of the queues leaves every queue
  -- as it was, or it is granted to a user; if that user is no administrator, the bookings of other
  -- users in every queue stay as they were, in their order.
  pub queue_request-IsGranted :
      (a : Access) (branch : String) (method : Method s Body validate) (w : World s)
      → development s ≡ false
      → let w' = world_of (queue_request s Body validate a branch method w) in
        ((k : String) → booked s w' k ≡ booked s w k)
        ⊎ ((u : User) × (v : World s) × IsGranted s a u w v
            × (u.is_admin ≡ false
                → (k : String)
                → keep (is_others u) (booked s w' k) ≡ keep (is_others u) (booked s w k)))
  unfolding queue_request
  queue_request-IsGranted a branch method w live =
      let (o, v, e, same) = authenticate_total s a w in
      elim (Option-cases o) [
        | inl refused ↦
            let done = e ∙ ap (λ o. fulfilled o v) refused in
            inl (λ k. rw done (rw same.queues refl))
        | inr (u, passed) ↦
            let done = e ∙ ap (λ o. fulfilled o v) passed in
            inr (
              u,
              v,
              (authenticate-IsGranted s a w u v live).0 done,
              λ plain k. rw done (
                  serve-others s Body validate u a.owner a.repository branch method v k plain
                  ∙ rw same.queues refl),
            )
      ]
