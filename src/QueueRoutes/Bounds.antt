-- ===== src/QueueRoutes/Bounds.antt =====
-- The routes of the front end: how many requests to GitHub one of their requests takes.
use ugo.Base.{
  ℕ, ◌+◌, ◌≤◌, String, List, [], ◌∷◌, Option, none, some, length, length-append, arith, inl, inr,
  Bool-cases, Option-cases, find?,
}
use ugo.Model.Queue.{Item}
use ugo.Model.User.{User, TokenInfo, Field}
use ugo.Model.Installation.{InstallationInfo}
use ugo.Model.Http.{get_user, list_repositories, Request}
use ugo.World.{Services, World, Promise, failure}
use ugo.Promise.{◌>>=◌, ◌>>◌, world_of, resolve, send, log_error}
use ugo.Requests.{AtMost, AtMost-then, AtMost-catch, AtMost-quiet, AtMost-send}
use ugo.GitHub.{authorization}
use ugo.GitHub.Accounts.{get_user_info, get_installation_pages, send_pages}
use ugo.TokenManager.{get_token_info, get_token_info_from_github, set_token}
use ugo.InstallationManager.{get_installation_id}
use ugo.InstallationInfoManager.{
  get_installation_info, get_installation_info_from_github, evolved, picked,
  set_installation_info_of,
}
use ugo.Authenticator.{
  Access, token_of, check_client, or_refuse, identify, user_at, with_token, permissions_of,
  check_permissions, user_with, is_repository_of, authenticate, development,
}
use ugo.QueueManager as Queue
use ugo.QueueRoutes.{
  Reply, Method, get, post, delete, serve, get_queue, post_item, delete_item, available, validated,
  authorized,
}
use ugo.QueueRoutes.Api.{for_user, queue_request}

module _ (s : Services) where
  requests-user_info : (token : String) → AtMost 1 (get_user_info s token)
  unfolding get_user_info
  requests-user_info token =
      AtMost-then 1 0 (send (get_user (authorization s (some token)))) _
        (AtMost-send (λ _. get_user (authorization s (some token)))) (λ r w. omega arith)

  quiet-set_token : (token : String) (i : TokenInfo) → AtMost 0 (set_token s token i)
  unfolding set_token
  quiet-set_token token i = AtMost-quiet (set_token s token i) (λ w. ground arith)

  requests-token_from_github : (token : String) → AtMost 1 (get_token_info_from_github s token)
  unfolding get_token_info_from_github
  requests-token_from_github token =
      AtMost-then 1 0 (get_user_info s token) (set_token s token) (requests-user_info token)
        (quiet-set_token token)

  requests-token_info : (token : String) → AtMost 1 (get_token_info s token)
  unfolding get_token_info
  requests-token_info token w = ground (arith, requests-token_from_github token w)

  requests-send_pages : (r : Request) → AtMost 1 (send_pages s r)
  requests-send_pages r w = ground (arith, length-append w.requests (r ∷ []))

  requests-pages : (token : String) (id : ℕ) → AtMost 1 (get_installation_pages s token id)
  unfolding get_installation_pages
  requests-pages token id =
      AtMost-then 1 0 (send_pages s (list_repositories (authorization s (some token)) id)) _
        (requests-send_pages (list_repositories (authorization s (some token)) id))
        (λ pages w. omega arith)

  quiet-set_info :
      (id : ℕ) (i : InstallationInfo) (token : String)
      → AtMost 0 (set_installation_info_of s id i token)
  unfolding set_installation_info_of
  quiet-set_info id i token =
      AtMost-quiet (set_installation_info_of s id i token) (λ w. ground arith)

  requests-info_from_github :
      (token : String) (id : ℕ) → AtMost 1 (get_installation_info_from_github s token id)
  unfolding get_installation_info_from_github
  requests-info_from_github token id =
      AtMost-then 1 0 (get_installation_pages s token id) _ (requests-pages token id) (λ pages.
        AtMost-then 0 0 (evolved s pages (picked pages.repositories)) _
          (AtMost-quiet (evolved s pages (picked pages.repositories)) (λ w. ground arith))
          (λ i. quiet-set_info id i token))

  requests-installation_info :
      (token : String) (id : ℕ) → AtMost 1 (get_installation_info s token id)
  unfolding get_installation_info
  requests-installation_info token id w = ground (arith, requests-info_from_github token id w)

  quiet-installation_id : (owner : String) → AtMost 0 (get_installation_id s owner)
  unfolding get_installation_id
  quiet-installation_id owner = AtMost-quiet (get_installation_id s owner) (λ w. ground arith)

  quiet-check_client : (i : TokenInfo) → AtMost 0 (check_client s i)
  unfolding check_client
  quiet-check_client i = AtMost-quiet (check_client s i) (λ w. ground arith)

  requests-user_at :
      (a : Access) (token : String) (username : Field) (id : ℕ)
      → AtMost 1 (user_at s a token username id)
  requests-user_at a token username id =
      AtMost-then 1 0 (get_installation_info s token id) checked
        (requests-installation_info token id)
        (λ info. AtMost-quiet (checked info) (λ w. ground arith))
    where
      checked : InstallationInfo → Promise s User
      checked info = do
        r ← or_refuse s "Repository not found" (find? (is_repository_of a) info.repositories)
        p ← permissions_of s r
        check_permissions s (user_with username p)

  requests-identify : (a : Access) (token : String) → AtMost 2 (identify s a token)
  unfolding identify
  requests-identify a token =
      AtMost-then 1 1 (get_token_info s token) _ (requests-token_info token) (λ i.
        AtMost-then 0 1 (check_client s i) _ (quiet-check_client i) (λ username.
          AtMost-then 0 1 (get_installation_id s a.owner) _ (quiet-installation_id a.owner)
            (λ found.
              AtMost-then 0 1 (or_refuse s "No installation id" found) (user_at s a token username)
                (AtMost-quiet (or_refuse s "No installation id" found) (λ w. ground arith))
                (requests-user_at a token username))))

  requests-with_token : (a : Access) (o : Option String) → AtMost 2 (with_token s a o)
  requests-with_token a none = λ w. omega arith
  requests-with_token a (some token) =
      AtMost-catch 2 0 (identify s a token >>= λ u. resolve (some u))
        (λ e. log_error (failure e) >> resolve none)
        (AtMost-then 2 0 (identify s a token) (λ u. resolve (some u)) (requests-identify a token)
          (λ u w. omega arith))
        (λ e w. omega arith)

  requests-authenticate : (a : Access) → AtMost 2 (authenticate s a)
  unfolding authenticate
  requests-authenticate a w = elim (Bool-cases (development s)) [
    | inl dev ↦ rw dev (omega arith)
    | inr live ↦ rw live (requests-with_token a (token_of a.authorization) w)
  ]

module _ (s : Services) (Body : Type 0) (validate : Body → Option Item) where
  quiet-change :
      (u : User) (body : Body) (change : Item → Promise s (List Reply))
      → ((x : Item) → AtMost 0 (change x))
      → AtMost 0 (available s (validated s Body validate body (λ x. authorized s u x (change x))))
  quiet-change u body change h w = elim (Option-cases (validate body)) [
    | inl refused ↦ ground (arith, refused)
    | inr (x, fits) ↦ ground (arith, fits, h x w)
  ]

  quiet-post_item :
      (owner repo branch : String) (x : Item) → AtMost 0 (post_item s owner repo branch x)
  unfolding post_item Queue.add_item
  quiet-post_item owner repo branch x =
      AtMost-quiet (post_item s owner repo branch x) (λ w. ground arith)

  quiet-delete_item :
      (owner repo branch : String) (x : Item) → AtMost 0 (delete_item s owner repo branch x)
  unfolding delete_item Queue.remove_item
  quiet-delete_item owner repo branch x =
      AtMost-quiet (delete_item s owner repo branch x) (λ w. ground arith)

  quiet-get_queue : (owner repo branch : String) → AtMost 0 (get_queue s owner repo branch)
  unfolding get_queue Queue.get_items Queue.get_some_items
  quiet-get_queue owner repo branch =
      AtMost-quiet (get_queue s owner repo branch) (λ w. ground arith)

  quiet-serve :
      (u : User) (owner repo branch : String) (method : Method s Body validate)
      → AtMost 0 (serve s Body validate u owner repo branch method)
  unfolding serve
  quiet-serve u owner repo branch get = quiet-get_queue owner repo branch
  quiet-serve u owner repo branch (post body) =
      quiet-change u body (post_item s owner repo branch) (quiet-post_item owner repo branch)
  quiet-serve u owner repo branch (delete body) =
      quiet-change u body (delete_item s owner repo branch) (quiet-delete_item owner repo branch)

  quiet-for_user :
      (a : Access) (branch : String) (method : Method s Body validate) (o : Option User)
      → AtMost 0 (for_user s o (λ u. serve s Body validate u a.owner a.repository branch method))
  quiet-for_user a branch method none = λ w. omega arith
  quiet-for_user a branch method (some u) = quiet-serve u a.owner a.repository branch method

  -- Whatever a request to the API of the queues carries, and whatever GitHub answers, at most two
  -- requests are sent to GitHub before its promise is settled, where the pages of a list count as
  -- one.
  pub requests-queue_request :
      (a : Access) (branch : String) (method : Method s Body validate) (w : World s)
      → length (world_of (queue_request s Body validate a branch method w)).requests
        ≤ length w.requests + 2
  unfolding queue_request
  requests-queue_request a branch method =
      AtMost-then 2 0 (authenticate s a)
        (λ o. for_user s o (λ u. serve s Body validate u a.owner a.repository branch method))
        (requests-authenticate s a) (quiet-for_user a branch method)
