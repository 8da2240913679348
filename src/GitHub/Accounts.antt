-- ===== src/GitHub/Accounts.antt =====
-- github.js: the requests for the user of a token, the repositories of an installation, and one pull
-- request.
use ugo.Base.{ℕ, String, List, [], ◌∷◌, ◌++◌, Option, none, some, length}
use ugo.Model.Event.{PullRequest}
use ugo.Model.Installation.{Repository}
use ugo.Model.User.{TokenInfo, field_of}
use ugo.Model.Http.{Request, Response, get_user, list_repositories, get_pull_request}
use ugo.Model.Message.{increment, gauge}
use ugo.World.{Services, Promise, fulfilled, rejected, request_error, type_error}
use ugo.Promise.{◌>>=◌, ◌>>◌, resolve, reject_with, publish, send}
use ugo.GitHub.{track_api_usage, authorization, shown, shown_number, get_installation_access_token}

-- What `getInstallationInfo` returns: a page without repositories leaves an `undefined` among them.
pub record InstallationPages : Type 0 where
  pub total_count : Option ℕ
  pub repositories : List (Option Repository)
  pub client_id : Option String

abbrev pub last? {ℓ} : {A : Type ℓ} → List A → Option A
last? [] = none
last? (x ∷ []) = some x
last? (x ∷ y ∷ xs) = last? (y ∷ xs)

-- `flatten(map(path(['body', 'repositories']), response))`.
abbrev pub page_repositories : Option (List Repository) → List (Option Repository)
page_repositories none = none ∷ []
page_repositories (some []) = []
page_repositories (some (r ∷ rs)) = some r ∷ page_repositories (some rs)

abbrev pub all_repositories : List Response → List (Option Repository)
all_repositories [] = []
all_repositories (p ∷ ps) = page_repositories p.repositories ++ all_repositories ps

-- What is read of the last page, if there is one.
abbrev pub rate_limit_of : Option Response → Option ℕ
rate_limit_of none = none
rate_limit_of (some p) = p.rate_limit_remaining

abbrev pub total_count_of : Option Response → Option ℕ
total_count_of none = none
total_count_of (some p) = p.total_count

abbrev pub client_id_of : Option Response → Option String
client_id_of none = none
client_id_of (some p) = p.client_id

module _ (s : Services) where
  unfoldable pub get_user_info : String → Promise s TokenInfo
  get_user_info token = do
    r ← send (get_user (authorization s (some token)))
    r' ← track_api_usage s r
    resolve (record {
      login = field_of r'.login;
      client_id = field_of r'.client_id;
      created_at = field_of r'.created_at;
      updated_at = field_of r'.updated_at;
    })

  abbrev pub from_pages : Option (List Response) → Promise s (List Response)
  from_pages none w = rejected request_error w
  from_pages (some ps) w = fulfilled ps w

  -- `requestAllPages`.
  abbrev pub send_pages : Request → Promise s (List Response)
  send_pages r w =
      from_pages (s.respond_pages w.requests r) (record w { requests = w.requests ++ r ∷ [] })

  unfoldable pub get_installation_pages : String → ℕ → Promise s InstallationPages
  get_installation_pages token id = do
    pages ← send_pages (list_repositories (authorization s (some token)) id)
    publish (gauge "github.api.ratelimit" (rate_limit_of (last? pages)) [])
    publish (increment "github.api.request" (some (length pages)) [])
    resolve (record {
      total_count = total_count_of (last? pages);
      repositories = all_repositories pages;
      client_id = client_id_of (last? pages);
    })

  -- The body of a response that has none is not a pull request.
  abbrev pub pull_request_of : Option PullRequest → Promise s PullRequest
  pull_request_of none = reject_with type_error
  pull_request_of (some p) = resolve p

  unfoldable pub get_pull_request_from_github :
      Option String → Option String → Option ℕ → Option ℕ → Promise s PullRequest
  get_pull_request_from_github owner repo n installation_id = do
    token ← get_installation_access_token s installation_id
    r ← send (get_pull_request (authorization s token) (shown owner) (shown repo) (shown_number n))
    pull_request_of r.pull_request
