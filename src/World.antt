-- ===== src/World.antt =====
-- The services that the program uses, its state, and promises as actions on that state. A promise
-- runs to its end before the next one starts; what `Promise.all` starts is run in order.
use ugo.Base.{ℕ, String, ◌≡◌, Bool, List, [], ◌∷◌, Option, none, some, length}
use ugo.Mongo.{Collection, IsDriver, Answer, answered}
use ugo.Model.Queue
use ugo.Model.PullRequest
use ugo.Model.Queue.{QueueDocument, Item, items, IsQueueQueries}
use ugo.Model.PullRequest.{PullRequestDocument, Info, IsPullRequestQueries}
use ugo.Model.Message.{Message}
use ugo.Model.Http.{Request, Response}
use ugo.Model.Installation
use ugo.Model.Installation.{
  InstallationDocument, InstallationInfoDocument, InstallationInfo, IsInstallationQueries,
  IsInstallationInfoQueries,
}
use ugo.Model.User
use ugo.Model.User.{TokenInfo, IsTokenQueries}
use ugo.Model.Outside.{Trigger, Metric}
use ugo.Model.Notification
use ugo.Model.Notification.{NotificationDocument, PushRequest, PushAnswer, IsNotificationQueries}

-- A parameter of a localised text; `missing` is `undefined`.
pub data Param : Type 0 where
  num : ℕ → Param
  text : String → Param
  missing : Param

-- The variables of the environment that the modelled files read; `none` if not set.
pub record Environment : Type 0 where
  pub check_run_actions : Option String
  pub app_id : Option ℕ
  pub app_origin : Option String
  pub client_id : Option String
  pub node_env : Option String
  pub secret_token : Option String
  -- A number, which the environment holds as its digits.
  pub send_delay : Option ℕ

-- What is not in the repository: the driver's collections, GitHub's answer to a request after the
-- requests before it (`none` is a failure), and the pages of an answer, localizify's `t`, the clock at
-- a request, the HMAC of crypto, OneSignal's answer to a request, and the seconds of a date.
pub record Services : Type 1 where
  pub QueueTable : Type 0
  pub PullRequestTable : Type 0
  pub queue_collection :
      Collection QueueTable QueueDocument Queue.Condition Queue.Update Queue.Projection
        (Option (List Item))
  pub queue_driver : IsDriver queue_collection
  pub queue_queries : IsQueueQueries queue_collection
  -- `aggregate([{ $match: { _id } }, { $project: { queue: { $size: '$queue' } } }]).toArray()`.
  pub queue_sizes : String → QueueTable → Answer (List ℕ)
  pub queue_sizes-none :
      (k : String) (t : QueueTable)
      → queue_collection.stored t k ≡ none
      → queue_sizes k t ≡ answered []
  pub queue_sizes-some :
      (k : String) (t : QueueTable) (d : QueueDocument) (xs : List Item)
      → queue_collection.stored t k ≡ some d
      → d.queue ≡ some xs
      → queue_sizes k t ≡ answered (length xs ∷ [])
  pub pull_request_collection :
      Collection PullRequestTable PullRequestDocument PullRequest.Condition PullRequest.Update
        PullRequest.Projection Info
  pub pull_request_driver : IsDriver pull_request_collection
  pub pull_request_queries : IsPullRequestQueries pull_request_collection
  pub NotificationTable : Type 0
  pub notification_collection :
      Collection NotificationTable NotificationDocument
        (Unit {0})
        Notification.Update
        Notification.Projection
        (Option String)
  pub notification_driver : IsDriver notification_collection
  pub notification_queries : IsNotificationQueries notification_collection
  pub InstallationTable : Type 0
  pub installation_collection :
      Collection InstallationTable InstallationDocument Installation.Condition Installation.Update
        Installation.Projection InstallationDocument
  pub installation_driver : IsDriver installation_collection
  pub installation_queries : IsInstallationQueries installation_collection
  pub InstallationInfoTable : Type 0
  pub installation_info_collection :
      Collection InstallationInfoTable InstallationInfoDocument Installation.Condition
        Installation.InfoUpdate Installation.Projection InstallationInfo
  pub installation_info_driver : IsDriver installation_info_collection
  pub installation_info_queries : IsInstallationInfoQueries installation_info_collection
  pub TokenTable : Type 0
  pub token_collection :
      Collection TokenTable TokenInfo (Unit {0}) User.Update User.Projection TokenInfo
  pub token_driver : IsDriver token_collection
  pub token_queries : IsTokenQueries token_collection
  pub respond : List Request → Request → Option Response
  pub respond_pages : List Request → Request → Option (List Response)
  pub localize : String → List (String × Param) → String
  pub timestamp : ℕ → String
  -- `sha1=${…}`: the HMAC with a key of the JSON text of a body.
  pub sign : String → String → String
  pub push : List PushRequest → PushRequest → PushAnswer
  -- `getSeconds` of the time after some requests to OneSignal, and that time with other seconds.
  pub seconds : ℕ → ℕ
  pub with_seconds : ℕ → ℕ → String
  pub environment : Environment

-- Why a promise is rejected: no database answers, the driver fails with a code, a request fails,
-- a value has not the expected shape, a notification is not sent or not cancelled,
-- or the authenticator gives a reason.
pub data Failure : Type 0 where
  database_error : Failure
  driver_error : ℕ → Failure
  request_error : Failure
  type_error : Failure
  push_error : Failure
  refused : String → Failure

-- A line of the log.
pub data Line : Type 0 where
  message : String → Line
  failure : Failure → Line

module _ (s : Services) where
  open s use {
    QueueTable, PullRequestTable, NotificationTable, InstallationTable, InstallationInfoTable,
    TokenTable,
  }

  -- Whether there is a database that answers, whether there is one that rejects what is asked of it,
  -- the collections, what was sent to GitHub, OneSignal, Pusher and
  -- Datadog, the messages that were published and the errors that were logged, oldest first.
  pub record World : Type 0 where
    pub online : Bool
    pub refusing : Bool
    pub queues : QueueTable
    pub pull_requests : PullRequestTable
    pub notifications : NotificationTable
    pub installations : InstallationTable
    pub installation_infos : InstallationInfoTable
    pub tokens : TokenTable
    pub requests : List Request
    pub pushes : List PushRequest
    pub triggers : List Trigger
    pub metrics : List Metric
    pub published : List Message
    pub log : List Line

  pub data Settled (A : Type 0) : Type 0 where
    fulfilled : A → World → Settled A
    rejected : Failure → World → Settled A

  abbrev pub Promise : Type 0 → Type 0
  Promise A = World → Settled A
