-- ===== src/Model/Http.antt =====
-- github.js: the requests to the GitHub API, and what is read of a response.
use ugo.Base.{ℕ, String, List, Option}
use ugo.Model.Event.{PullRequest}
use ugo.Model.Installation.{Repository}

-- The action buttons of a check run.
pub record Action : Type 0 where
  pub label : String
  pub description : String
  pub identifier : String

-- The body of a request that creates or updates a check run; keys that are `undefined` are `none`.
pub record CheckRunBody : Type 0 where
  pub name : String
  pub head_sha : Option String
  pub details_url : String
  pub conclusion : String
  pub started_at : String
  pub completed_at : String
  pub output_title : String
  pub output_summary : String
  pub actions : Option Action

-- A request by the header `authorization`, where one is sent, and the parts of its path.
pub data Request : Type 0 where
  access_tokens : String → Request
  list_check_runs : Option String → String → String → String → Request
  create_check_run : Option String → String → String → CheckRunBody → Request
  update_check_run : Option String → String → String → String → CheckRunBody → Request
  commit_status : Option String → String → String → String → Request
  get_user : Option String → Request
  list_repositories : Option String → ℕ → Request
  get_pull_request : Option String → String → String → String → Request
  list_check_suites : Option String → String → String → String → Request

-- A check run and the application that made it.
pub record CheckRun : Type 0 where
  pub id : ℕ
  pub app_id : Option ℕ

-- What the program reads of a response: headers and body, `none` where a key is missing. A null
-- conclusion of a check suite is `none` too.
pub record Response : Type 0 where
  pub rate_limit_remaining : Option ℕ
  pub token : Option String
  pub check_runs : Option (List CheckRun)
  pub check_suites : Option (List (Option String))
  pub state : Option String
  pub login : Option String
  pub client_id : Option String
  pub created_at : Option String
  pub updated_at : Option String
  pub total_count : Option ℕ
  pub repositories : Option (List Repository)
  pub pull_request : Option PullRequest
