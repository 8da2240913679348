-- ===== src/Service/SafeRoutes.antt =====
-- Double bookings along the requests of the front end, and along every request.
use ugo.Base.{◌≡◌, String, List, [], ◌∷◌, Option, none, some, arith}
use ugo.Model.Queue.{Item}
use ugo.Model.User.{User}
use ugo.World.{Services, World, fulfilled, Promise, Failure}
use ugo.Promise.{has_database, ◌>>=◌, world_of, resolve}
use ugo.Reply.{Reply, next_status}
use ugo.PullRequestManager.{get_repository_pull_requests_info}
use ugo.QueueManager as Queue
use ugo.Service.SafeBookings.{KeepsSafe-add_item, KeepsSafe-remove_item}
use ugo.Authenticator.{Access, authenticate}
use ugo.Authenticator.Frame.{authenticate_total}
use ugo.Authenticator.Named.{KeepsNames-authenticate}
use ugo.QueueRoutes as Routes
use ugo.QueueRoutes.Rights.{queues-get_queue}
use ugo.QueueRoutes.{
  Method, get, post, delete, serve, get_pull_requests, post_item, delete_item, get_queue,
}
use ugo.QueueRoutes.Api.{
  for_user, authenticated, queue_request, channel_request, pull_requests_request,
}
use ugo.Service.{Call, github, queue, channel, pull_requests, perform}
use ugo.Service.Safe.{
  Safe-refl, KeepsSafe-infos, KeepsSafe, KeepsSafe-then, KeepsSafe-catch, KeepsSafe-queues, either,
  either_at,
}
use ugo.Service.SafeRequests.{KeepsSafe-webhook}

module _ {s : Services} where
  KeepsSafe-for_user :
      (o : Option User) (route : User → Promise s (List Reply))
      → ((u : User) → KeepsSafe (route u))
      → KeepsSafe (for_user s o route)
  KeepsSafe-for_user none route h = Safe-refl
  KeepsSafe-for_user (some u) route h = h u

  queues-authenticate :
      (a : Access) (w : World s) → (world_of (authenticate s a w)).queues ≡ w.queues
  queues-authenticate a w = let (o, w', e, k) = authenticate_total s a w in rw e k.queues

  KeepsSafe-authenticated :
      (a : Access) (route : User → Promise s (List Reply))
      → ((u : User) → KeepsSafe (route u))
      → KeepsSafe (authenticated s a route)
  KeepsSafe-authenticated a route h =
      KeepsSafe-then (authenticate s a) (λ o. for_user s o route)
        (KeepsSafe-infos (authenticate s a) (queues-authenticate a) (KeepsNames-authenticate s a))
        (λ o. KeepsSafe-for_user o route h)

  KeepsSafe-route :
      {A : Type 0} (m : Promise s A) (f : A → List Reply) (g : Failure → List Reply)
      → KeepsSafe m
      → KeepsSafe (Routes.replying s m f g)
  KeepsSafe-route m f g h =
      KeepsSafe-catch (m >>= λ a. resolve (f a)) (λ e. resolve (g e))
        (KeepsSafe-then m _ h (λ a. Safe-refl)) (λ e. Safe-refl)

  KeepsSafe-available_route :
      (m : Promise s (List Reply)) → KeepsSafe m → KeepsSafe (Routes.available s m)
  KeepsSafe-available_route m h w =
      either_at w (has_database w) (m w) (fulfilled (next_status 503 ∷ []) w) (h w) (Safe-refl w)

  KeepsSafe-get_infos :
      (owner repo : String) → KeepsSafe (get_repository_pull_requests_info s owner repo)
  unfolding get_repository_pull_requests_info
  KeepsSafe-get_infos owner repo =
      KeepsSafe-queues (get_repository_pull_requests_info s owner repo)
        (λ w. (ground arith, ground arith))

  KeepsSafe-get_pull_requests : (owner repo : String) → KeepsSafe (get_pull_requests s owner repo)
  unfolding get_pull_requests
  KeepsSafe-get_pull_requests owner repo =
      KeepsSafe-available_route
        (Routes.replying s (get_repository_pull_requests_info s owner repo) _ _)
        (KeepsSafe-route (get_repository_pull_requests_info s owner repo) _ _
          (KeepsSafe-get_infos owner repo))

  infos-get_queue :
      (owner repo branch : String) (w : World s)
      → (world_of (get_queue s owner repo branch w)).installation_infos ≡ w.installation_infos
  unfolding get_queue Queue.get_items Queue.get_some_items
  infos-get_queue owner repo branch w = ground arith

  KeepsSafe-get_queue : (owner repo branch : String) → KeepsSafe (get_queue s owner repo branch)
  KeepsSafe-get_queue owner repo branch =
      KeepsSafe-queues (get_queue s owner repo branch)
        (λ w. (queues-get_queue s owner repo branch w, infos-get_queue owner repo branch w))

module _ (s : Services) (Body : Type 0) (validate : Body → Option Item) where
  KeepsSafe-change :
      (user : User) (body : Body) (change : Item → Promise s (List Reply))
      → ((x : Item) → KeepsSafe (change x))
      → KeepsSafe (
          Routes.available s
            (Routes.accepted_item s (validate body) (λ x. Routes.authorized s user x (change x))))
  KeepsSafe-change user body change h = KeepsSafe-available_route _ (accepted (validate body))
    where
      accepted :
          (o : Option Item)
          → KeepsSafe (Routes.accepted_item s o (λ x. Routes.authorized s user x (change x)))
      accepted none = Safe-refl
      accepted (some x) = either _ (resolve (next_status 401 ∷ [])) (change x) Safe-refl (h x)

  KeepsSafe-serve :
      (u : User) (owner repo branch : String) (method : Method s Body validate)
      → KeepsSafe (serve s Body validate u owner repo branch method)
  unfolding serve post_item delete_item
  KeepsSafe-serve u owner repo branch get = KeepsSafe-get_queue owner repo branch
  KeepsSafe-serve u owner repo branch (post body) =
      KeepsSafe-change u body (post_item s owner repo branch) (λ x.
        KeepsSafe-route (Queue.add_item s owner repo branch x) _ _
          (KeepsSafe-add_item s owner repo branch x))
  KeepsSafe-serve u owner repo branch (delete body) =
      KeepsSafe-change u body (delete_item s owner repo branch) (λ x.
        KeepsSafe-route (Queue.remove_item s owner repo branch x Queue.no_meta) _ _
          (KeepsSafe-remove_item s owner repo branch x Queue.no_meta))

  pub KeepsSafe-perform : (c : Call s Body validate) → KeepsSafe (perform s Body validate c)
  unfolding perform queue_request channel_request pull_requests_request
  KeepsSafe-perform (github r) = KeepsSafe-webhook r
  KeepsSafe-perform (queue a branch method) =
      KeepsSafe-authenticated a _ (λ u. KeepsSafe-serve u a.owner a.repository branch method)
  KeepsSafe-perform (channel a branch) = KeepsSafe-authenticated a _ (λ u. Safe-refl)
  KeepsSafe-perform (pull_requests a) =
      KeepsSafe-authenticated a _ (λ u. KeepsSafe-get_pull_requests a.owner a.repository)
