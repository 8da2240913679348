-- ===== src/Authenticator.antt =====
-- authenticator-github.js: who is let through to the API of a repository.
pub mod Laws
pub mod Frame
pub mod Again
pub mod Named
use Prim.Native.Char.{code}
use Prim.Native.String.{[], ◌∷◌, ◌++◌}
use ugo.Base.{
  ℕ, String, Bool, true, false, not, ◌||◌, ◌&&◌, Option, none, some, if◌then◌else◌, ◌==◌, find?,
}
use ugo.Model.Installation.{Permissions, Repository, InstallationInfo}
use ugo.Model.PullRequest.{is_some_text}
use ugo.Model.User.{User, TokenInfo, Field, same_field, field_of, text}
use ugo.World.{Services, Promise, Failure, type_error, refused, failure}
use ugo.Promise.{◌>>=◌, ◌>>◌, catch, resolve, reject_with, log_error}
use ugo.InstallationManager.{get_installation_id}
use ugo.InstallationInfoManager.{get_installation_info}
use ugo.TokenManager.{get_token_info}

-- The header `authorization`, where there is one, and the parameters of the path.
pub record Access : Type 0 where
  pub authorization : Option String
  pub owner : String
  pub repository : String

-- What follows a prefix: `indexOf(prefix) === 0`, and `replace(prefix, '')`.
abbrev pub after_prefix : String → String → Option String
after_prefix [] s = some s
after_prefix (c ∷ p) [] = none
after_prefix (c ∷ p) (d ∷ s) = if code c == code d then after_prefix p s else none

abbrev pub token_prefix : String
token_prefix = "token "

unfoldable pub token_of : Option String → Option String
token_of none = none
token_of (some header) = after_prefix token_prefix header

abbrev pub is_permitted : Option Bool → Bool
is_permitted none = false
is_permitted (some b) = b

-- `req.user` from what the permissions are and who the user is.
abbrev pub user_with : Field → Permissions → User
user_with username p = record {
  username = username;
  can_push = is_permitted p.push;
  can_pull = is_permitted p.pull;
  is_admin = is_permitted p.admin;
}

abbrev pub developer : User
developer = record {
  username = text "username";
  can_push = false;
  can_pull = false;
  is_admin = true;
}

-- `${owner}/${repository}`.
abbrev pub full_name_of : Access → String
full_name_of a = a.owner ++ "/" ++ a.repository

abbrev pub is_repository_of : Access → Repository → Bool
is_repository_of a r = is_some_text r.full_name (full_name_of a)

module _ (s : Services) where
  open s use {environment}

  abbrev pub development : Bool
  development = is_some_text environment.node_env "development"

  unfoldable pub check_client : TokenInfo → Promise s Field
  check_client i =
      if same_field i.client_id (field_of environment.client_id)
      then resolve i.login
      else reject_with (refused "Wrong client id")

  -- `throwErrorIfNil(message)`.
  abbrev pub or_refuse : {A : Type 0} → String → Option A → Promise s A
  or_refuse message none = reject_with (refused message)
  or_refuse message (some a) = resolve a

  abbrev pub permissions_of : Repository → Promise s Permissions
  permissions_of r = elim r.permissions [ none ↦ reject_with type_error | some p ↦ resolve p ]

  abbrev pub check_permissions : User → Promise s User
  check_permissions u =
      if not u.can_push || not u.can_pull
      then reject_with (refused "Repository not accessible")
      else resolve u

  -- The user's permissions for the repository, by an installation.
  abbrev pub user_at : Access → String → Field → ℕ → Promise s User
  user_at a token username id = do
    info ← get_installation_info s token id
    r ← or_refuse "Repository not found" (find? (is_repository_of a) info.repositories)
    p ← permissions_of r
    check_permissions (user_with username p)

  -- The chain of promises for a token, up to `then(next)`.
  unfoldable pub identify : Access → String → Promise s User
  identify a token = do
    i ← get_token_info s token
    username ← check_client i
    found_id ← get_installation_id s a.owner
    id ← or_refuse "No installation id" found_id
    user_at a token username id

  -- The failure is logged, and the error 401 is next.
  abbrev pub or_unauthorized : Promise s User → Promise s (Option User)
  or_unauthorized m =
      catch (m >>= λ u. resolve (some u)) (λ e. log_error (failure e) >> resolve none)

  abbrev pub with_token : Access → Option String → Promise s (Option User)
  with_token a none = resolve none
  with_token a (some token) = or_unauthorized (identify a token)

  -- The user with whom the request goes on, or none for the error 401.
  unfoldable pub authenticate : Access → Promise s (Option User)
  authenticate a =
      if development then resolve (some developer) else with_token a (token_of a.authorization)
