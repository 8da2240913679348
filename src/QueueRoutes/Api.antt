-- ===== src/QueueRoutes/Api.antt =====
-- routes-queue.js and routes-pullrequest.js: the routes of the front end behind the authenticator.
use ugo.Base.{String, List, [], ◌∷◌, Option, none, some}
use ugo.Model.Queue.{Item}
use ugo.Model.User.{User}
use ugo.World.{Services, Promise}
use ugo.Promise.{◌>>=◌, resolve}
use ugo.PusherHandler.{channel_id}
use ugo.Authenticator.{Access, authenticate}
use ugo.QueueRoutes.{Reply, next_status, sent_channel, Method, serve, get_pull_requests}

module _ (s : Services) where
  -- What follows if the authenticator calls `next` with the error 401, or with a user in the request.
  abbrev pub for_user : Option User → (User → Promise s (List Reply)) → Promise s (List Reply)
  for_user none route = resolve (next_status 401 ∷ [])
  for_user (some u) route = route u

  abbrev pub authenticated : Access → (User → Promise s (List Reply)) → Promise s (List Reply)
  authenticated a route = authenticate s a >>= λ o. for_user o route

  -- `/:owner/:repository/:branch/update-channel`.
  unfoldable pub channel_request : Access → String → Promise s (List Reply)
  channel_request a branch =
      authenticated a (λ _. resolve (sent_channel (channel_id a.owner a.repository branch) ∷ []))

  -- `/:owner/:repository` of the pull requests.
  unfoldable pub pull_requests_request : Access → Promise s (List Reply)
  pull_requests_request a = authenticated a (λ _. get_pull_requests s a.owner a.repository)

module _ (s : Services) (Body : Type 0) (validate : Body → Option Item) where
  -- `/:owner/:repository/:branch`.
  unfoldable pub queue_request : Access → String → Method s Body validate → Promise s (List Reply)
  queue_request a branch method =
      authenticated s a (λ u. serve s Body validate u a.owner a.repository branch method)
