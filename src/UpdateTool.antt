-- ===== src/UpdateTool.antt =====
-- tools/updatePullRequestInfo.js: what is known of the pull requests of a branch is asked of GitHub
-- again. What is written to the console is left out.
pub mod Kept
pub mod Asked
use mathlib.Core.Option
use ugo.Base.{ℕ, String, List, [], ◌∷◌, Option, none, some, if◌then◌else◌, str_eq}
use ugo.Model.Event.{PullRequest}
use ugo.Model.PullRequest.{Info, no_info, PullRequestDocument, with_branch}
use ugo.World.{Services, Promise, fulfilled}
use ugo.Promise.{◌>>=◌, ◌>>◌, get_collection, resolve, all_of}
use ugo.GitHub.Accounts.{get_pull_request_from_github}
use ugo.PullRequestManager.{set_pull_request_info}

-- The variables of the environment; `none` if not set.
pub record Variables : Type 0 where
  pub owner : Option String
  pub repo : Option String
  pub branch : Option String
  pub app_id : Option String

-- A variable, but for the empty text, which is false.
abbrev pub given : Option String → Option String
given none = none
given (some t) = if str_eq t "" then none else some t

abbrev pub default_branch : Option String → Option String
default_branch none = some "master"
default_branch (some t) = some t

pub record Branch : Type 0 where
  pub owner : String
  pub repo : String
  pub branch : String

-- The branch that is asked for; `none` is `process.exit(1)`.
unfoldable pub asked_branch : Variables → Option Branch
asked_branch v = Option.bind (given v.app_id) λ app_id. Option.bind (given v.owner) λ owner.
    Option.bind (given v.repo) λ repo.
      Option.map (λ branch. record { owner = owner; repo = repo; branch = branch })
        (given (default_branch v.branch))

-- What is stored of a pull request that GitHub answers: no commit and no status. The installation is
-- the one with which GitHub was asked; that it is missing, so that null is stored, is left out.
abbrev pub refreshed : Option ℕ → PullRequest → Info
refreshed installation_id p = record no_info {
  installation_id = installation_id;
  pull_request_number = some p.number;
  title = some p.title;
  author = some p.author;
  human_url = some p.html_url;
  branch = some p.base_ref;
  assignees = some p.assignees;
}

module _ (s : Services) where
  open s use {pull_request_collection}

  unfoldable pub refresh : PullRequestDocument → Promise s (Unit {0})
  refresh d = do
    p ←
        get_pull_request_from_github s d.owner d.repo d.info.pull_request_number
          d.info.installation_id
    set_pull_request_info s p.base_owner p.base_repo p.number (refreshed d.info.installation_id p)
    resolve tt

  abbrev pub refresh_each : List PullRequestDocument → List (Promise s (Unit {0}))
  refresh_each [] = []
  refresh_each (d ∷ ds) = refresh d ∷ refresh_each ds

  unfoldable pub refresh_branch : Branch → Promise s (Unit {0})
  refresh_branch b = do
    get_collection
    found ← λ w.
        fulfilled
          (pull_request_collection.find_documents (with_branch b.owner b.repo b.branch)
            w.pull_requests)
          w
    all_of (refresh_each found)

  -- The tool; without its variables it does nothing.
  unfoldable pub update : Variables → Promise s (Unit {0})
  update v = elim (asked_branch v) [ none ↦ resolve tt | some b ↦ refresh_branch b ]
