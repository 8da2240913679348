-- ===== src/Model/Event.antt =====
-- What GitHub sends of a pull request, in an event and in a response.
use ugo.Base.{ℕ, String, Bool, List, Option}

-- A pull request, as far as it is read; `merged_by` may be null.
pub record PullRequest : Type 0 where
  pub title : String
  pub html_url : String
  pub assignees : List String
  pub number : ℕ
  pub base_owner : String
  pub base_repo : String
  pub base_ref : String
  pub author : String
  pub head_sha : String
  pub merged : Bool
  pub merged_by : Option String
