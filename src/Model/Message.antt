-- ===== src/Model/Message.antt =====
-- The messages that the program publishes on the bus, one constructor for each channel and topic.
use ugo.Base.{ℕ, String, List, Option, Bool, ℤ}
use ugo.Model.Queue.{Item}
use ugo.Model.PullRequest.{Info}
use ugo.Model.Installation.{InstallationInfo}
use ugo.Model.User.{TokenInfo}

-- The object `meta` of a removal; a key that is absent counts as false.
pub record Meta : Type 0 where
  pub closed : Bool
  pub first_item_changed : Bool

-- The data of `send.checks` and `cancel.checks`.
pub record Checks : Type 0 where
  pub owner : String
  pub repo : String
  pub branch : Option String
  pub pull_request_number : ℕ
  pub username : String
  pub state : String

pub data Message : Type 0 where
  -- channel `queue`: owner, repo, branch, then the data
  item_add : String → String → String → Item → ℤ → Message
  item_remove : String → String → String → Item → Meta → Message
  -- channel `pullRequest`
  info_set : String → String → ℕ → Info → Message
  info_delete : String → String → ℕ → Message
  infos_delete : String → Message
  -- channels `installation` and `token`
  installation_set : String → ℕ → Message
  installation_delete : String → Message
  installation_info_set : ℕ → InstallationInfo → String → Message
  installation_info_delete : Option ℕ → Message
  token_add : String → TokenInfo → Message
  -- channel `notification`
  send_queue_first : String → String → ℕ → String → Message
  send_checks : Checks → Message
  cancel_checks : Checks → Message
  send_update : String → String → String → List Item → Message
  -- the results of push notifications; nobody reads their data
  sent_ok : Message
  sent_ko : Message
  cancel_ok : Message
  cancel_ko : Message
  -- channel `metrics`: name, value and tags; an `increment` may leave its value out
  increment : String → Option ℕ → List String → Message
  gauge : String → Option ℕ → List String → Message
  histogram : String → Option ℕ → List String → Message
