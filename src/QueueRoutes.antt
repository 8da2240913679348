-- ===== src/QueueRoutes.antt =====
-- routes-queue.js and routes-pullrequest.js: the requests of the front end, after
-- authenticator-github.js has put the user into the request. A route does not wait for the change that
-- it asks for before it replies.
pub mod Rights
pub mod Replies
pub mod Answers
pub mod Bounds
pub mod Api
pub mod Access
pub mod Found
use ugo.Base.{
  ℕ, String, Bool, true, false, not, ◌&&◌, List, [], ◌∷◌, Option, none, some, if◌then◌else◌, str_eq,
}
use ugo.Model.Queue.{Item}
use ugo.Model.PullRequest.{Info}
use ugo.Model.User.{User, same_field, text}
pub use ugo.Reply.{
  Reply, sent_items, sent_infos, sent_channel, sent_text, sent_status, next_status, next_failure,
}
use ugo.World.{Services, World, Promise, Failure, fulfilled}
use ugo.Promise.{◌>>=◌, catch, resolve}
use ugo.QueueManager as Queue
use ugo.PullRequestManager as Info

-- What is found of a repository; nothing is an error.
abbrev pub found_infos : List Info → List Reply
found_infos [] = next_status 404 ∷ []
found_infos (i ∷ infos) = sent_infos (i ∷ infos) ∷ []

module _ (s : Services) where
  -- `promise.then(…).catch(…)`, with what is done with the response in both cases.
  abbrev pub replying :
      {A : Type 0}
      → Promise s A
      → (A → List Reply)
      → (Failure → List Reply)
      → Promise s (List Reply)
  replying m f g = catch (m >>= λ a. resolve (f a)) (λ e. resolve (g e))

  -- The test that there is a database.
  abbrev pub available : Promise s (List Reply) → Promise s (List Reply)
  available m w = if Queue.enabled s w then m w else fulfilled (next_status 503 ∷ []) w

  unfoldable pub get_queue : String → String → String → Promise s (List Reply)
  get_queue owner repository branch = available (
      replying (Queue.get_items s owner repository branch) (λ items. sent_items items ∷ [])
        (λ e. next_failure e ∷ []))

  -- The test of the user: the booking is the user's own, or the user is an administrator.
  abbrev pub authorized : User → Item → Promise s (List Reply) → Promise s (List Reply)
  authorized user x m =
      if not (same_field (text x.username) user.username) && not user.is_admin
      then resolve (next_status 401 ∷ [])
      else m

  -- The reply is sent before the promise is settled.
  unfoldable pub post_item : String → String → String → Item → Promise s (List Reply)
  post_item owner repository branch x =
      replying (Queue.add_item s owner repository branch x) (λ _. sent_status 201 ∷ [])
        (λ e. sent_status 201 ∷ next_failure e ∷ [])

  unfoldable pub delete_item : String → String → String → Item → Promise s (List Reply)
  delete_item owner repository branch x =
      replying (Queue.remove_item s owner repository branch x Queue.no_meta)
        (λ _. sent_status 204 ∷ []) (λ e. sent_status 204 ∷ next_failure e ∷ [])

  -- A booking that the validator accepts is passed on.
  abbrev pub accepted_item : Option Item → (Item → Promise s (List Reply)) → Promise s (List Reply)
  accepted_item none next = resolve (next_status 400 ∷ [])
  accepted_item (some x) next = next x

  unfoldable pub get_pull_requests : String → String → Promise s (List Reply)
  get_pull_requests owner repository w =
      if Info.enabled s w
      then replying (Info.get_repository_pull_requests_info s owner repository) found_infos
          (λ e. next_failure e ∷ []) w
      else fulfilled (next_status 503 ∷ []) w

-- A body, and validator-queue.js: Joi gives the booking, or refuses the body.
module _ (s : Services) (Body : Type 0) (validate : Body → Option Item) where
  abbrev pub validated : Body → (Item → Promise s (List Reply)) → Promise s (List Reply)
  validated body next = accepted_item s (validate body) next

  -- The methods of `/:owner/:repository/:branch`.
  pub data Method : Type 0 where
    get : Method
    post : Body → Method
    delete : Body → Method

  unfoldable pub serve : User → String → String → String → Method → Promise s (List Reply)
  serve user owner repository branch get = get_queue s owner repository branch
  serve user owner repository branch (post body) =
      available s
        (validated body (λ x. authorized s user x (post_item s owner repository branch x)))
  serve user owner repository branch (delete body) =
      available s
        (validated body (λ x. authorized s user x (delete_item s owner repository branch x)))
