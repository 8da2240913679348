-- ===== src/Model/Webhook.antt =====
-- routes-webhook.js: a request of GitHub, and what is read of its body. An object that some events
-- have and others have not is optional; a key that the object always has is not.
use ugo.Base.{ℕ, String, Option}
use ugo.Model.Event.{PullRequest}
use ugo.Model.User.{Field}

pub record EventRepository : Type 0 where
  pub name : String
  pub owner_login : String

pub record CheckSuite : Type 0 where
  pub status : String
  pub conclusion : Field
  pub head_sha : String

-- The first pull request of a check run's suite.
pub record CheckRunPullRequest : Type 0 where
  pub number : Option ℕ
  pub base_ref : Option String

pub record Installation : Type 0 where
  pub id : ℕ
  pub account_login : String

pub record Body : Type 0 where
  pub action : Option String
  pub sender_login : Option String
  pub state : Option String
  pub sha : String
  pub repository : Option EventRepository
  pub check_suite : Option CheckSuite
  pub requested_action_identifier : Option String
  pub check_run_pull_request : Option CheckRunPullRequest
  pub installation : Option Installation
  pub pull_request : Option PullRequest

-- A POST: the headers `X-Hub-Signature` and `X-GitHub-Event`, the body and its JSON text, and the
-- time.
pub record WebhookRequest : Type 0 where
  pub signature : Option String
  pub event : Option String
  pub body : Body
  pub json : String
  pub now : ℕ
