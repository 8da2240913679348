-- ===== src/Sample/Server.antt =====
-- The services with two collections in memory and a GitHub that answers every request alike.
use ugo.Base.{
  ℕ, ◌≡◌, refl, String, Bool, true, not, ◌&&◌, List, [], ◌∷◌, ◌++◌, Option, none, some, any, keep,
  take, find?, length, decimal,
}
use mathlib.Core.Option
use ugo.Mongo.{Answer, answered, failed, Collection}
use ugo.Model.Queue
use ugo.Model.Queue.{
  Item, QueueDocument, items, has_number, is_booking, singleton?, is_text, always, lacks_number,
  owner_is, set_and_push, pull, slice, elem_match, IsQueueQueries,
}
use ugo.Model.PullRequest
use ugo.Model.PullRequest.{
  Info, PullRequestDocument, merge, no_info, is_some_text, of_repository, with_sha, with_branch,
  set_info, info_only, IsPullRequestQueries,
}
use ugo.Model.PullRequest.{or_old}
use ugo.Model.Notification
use ugo.Model.Notification.{
  NotificationDocument, PushAnswer, IsNotificationQueries, set_notification, id_only,
}
use ugo.Base.{false}
use ugo.Model.Installation
use ugo.Model.Installation.{
  InstallationDocument, InstallationInfoDocument, InstallationInfo, no_installation_info,
  same_number, owned_by, of_installation, set_installation, set_installation_info, whole,
  IsInstallationQueries, IsInstallationInfoQueries,
}
use ugo.Model.User
use ugo.Model.User.{
  TokenInfo, undefined, set_token_info, token_info, kept_field, stored_field, IsTokenQueries,
}
use ugo.Model.Http.{Response}
use ugo.World.{Services, Environment}
use ugo.Sample.Driver.{Table, lookup, collection, collection-IsDriver}

abbrev queue_satisfies : Queue.Condition → QueueDocument → Bool
queue_satisfies always d = true
queue_satisfies (lacks_number n) d = not (any (has_number n) (items d.queue))
queue_satisfies (owner_is owner) d = is_text d.owner owner

abbrev queue_apply : Queue.Update → QueueDocument → QueueDocument
queue_apply (set_and_push owner repo x) d = record {
  owner = some owner;
  repo = some repo;
  queue = some (items d.queue ++ x ∷ []);
}
queue_apply (pull username n) d = record d {
  queue = Option.map (keep (λ x. not (is_booking username n x))) d.queue;
}

abbrev queue_project : Queue.Projection → QueueDocument → Option (List Item)
queue_project (slice n) d = Option.map (take n) d.queue
queue_project (elem_match n) d = singleton? (find? (has_number n) (items d.queue))

abbrev pub queues :
    Collection
      (Table QueueDocument)
      QueueDocument
      Queue.Condition
      Queue.Update
      Queue.Projection
      (Option (List Item))
queues =
    collection queue_satisfies queue_apply (record { owner = none; repo = none; queue = none })
      queue_project

pub queues-IsQueueQueries : IsQueueQueries queues
queues-IsQueueQueries = record {
  satisfies-always = λ d. refl;
  satisfies-lacks_number = λ n d. refl;
  satisfies-owner_is = λ owner d. refl;
  blank-eq = refl;
  apply-set_and_push = λ owner repo x d. refl;
  apply-pull = λ username n d. refl;
  project-slice = λ n d. refl;
  project-elem_match = λ n d. refl;
}

abbrev pull_request_satisfies : PullRequest.Condition → PullRequestDocument → Bool
pull_request_satisfies (of_repository owner repo) d =
    is_some_text d.owner owner && is_some_text d.repo repo
pull_request_satisfies (with_sha owner repo sha) d =
    is_some_text d.owner owner && is_some_text d.repo repo && is_some_text d.info.sha sha
pull_request_satisfies (with_branch owner repo branch) d =
    is_some_text d.owner owner && is_some_text d.repo repo && is_some_text d.info.branch branch
pull_request_satisfies (PullRequest.owner_is owner) d = is_some_text d.owner owner

abbrev pull_request_apply : PullRequest.Update → PullRequestDocument → PullRequestDocument
pull_request_apply (set_info owner repo i) d = record {
  owner = some owner;
  repo = some repo;
  info = merge i d.info;
}

abbrev pull_request_project : PullRequest.Projection → PullRequestDocument → Info
pull_request_project info_only d = d.info

abbrev pub pull_requests :
    Collection
      (Table PullRequestDocument)
      PullRequestDocument
      PullRequest.Condition
      PullRequest.Update
      PullRequest.Projection
      Info
pull_requests =
    collection pull_request_satisfies pull_request_apply
      (record { owner = none; repo = none; info = no_info }) pull_request_project

pub pull_requests-IsPullRequestQueries : IsPullRequestQueries pull_requests
pull_requests-IsPullRequestQueries = record {
  satisfies-of_repository = λ owner repo d. refl;
  satisfies-with_sha = λ owner repo sha d. refl;
  satisfies-with_branch = λ owner repo branch d. refl;
  satisfies-owner_is = λ owner d. refl;
  blank-eq = refl;
  apply-set_info = λ owner repo i d. refl;
  project-info_only = λ d. refl;
}

abbrev notification_apply : Notification.Update → NotificationDocument → NotificationDocument
notification_apply (set_notification id n) d = record { id = or_old id d.id; content = some n }

abbrev notification_project : Notification.Projection → NotificationDocument → Option String
notification_project id_only d = d.id

abbrev pub notifications :
    Collection
      (Table NotificationDocument)
      NotificationDocument
      (Unit {0})
      Notification.Update
      Notification.Projection
      (Option String)
notifications =
    collection (λ c d. true) notification_apply (record { id = none; content = none })
      notification_project

pub notifications-IsNotificationQueries : IsNotificationQueries notifications
notifications-IsNotificationQueries = record {
  blank-eq = refl;
  apply-set_notification = λ id n d. refl;
  project-id_only = λ d. refl;
}

abbrev installation_satisfies : Installation.Condition → InstallationDocument → Bool
installation_satisfies (owned_by owner) d = is_some_text d.owner owner
installation_satisfies (of_installation id) d = same_number d.installation_id id

abbrev installation_apply : Installation.Update → InstallationDocument → InstallationDocument
installation_apply (set_installation id owner) d = record {
  installation_id = some id;
  owner = some owner;
}

abbrev installation_project : Installation.Projection → InstallationDocument → InstallationDocument
installation_project whole d = d

abbrev pub installations :
    Collection
      (Table InstallationDocument)
      InstallationDocument
      Installation.Condition
      Installation.Update
      Installation.Projection
      InstallationDocument
installations =
    collection installation_satisfies installation_apply
      (record { installation_id = none; owner = none }) installation_project

pub installations-IsInstallationQueries : IsInstallationQueries installations
installations-IsInstallationQueries = record {
  satisfies-owned_by = λ owner d. refl;
  apply-set_installation = λ id owner d. refl;
  project-whole = λ d. refl;
}

abbrev installation_info_satisfies : Installation.Condition → InstallationInfoDocument → Bool
installation_info_satisfies (owned_by owner) d = false
installation_info_satisfies (of_installation id) d = same_number d.installation_id id

abbrev installation_info_apply :
    Installation.InfoUpdate → InstallationInfoDocument → InstallationInfoDocument
installation_info_apply (set_installation_info id i) d = record {
  installation_id = some id;
  info = i;
}

abbrev installation_info_project :
    Installation.Projection → InstallationInfoDocument → InstallationInfo
installation_info_project whole d = d.info

abbrev pub installation_infos :
    Collection
      (Table InstallationInfoDocument)
      InstallationInfoDocument
      Installation.Condition
      Installation.InfoUpdate
      Installation.Projection
      InstallationInfo
installation_infos =
    collection installation_info_satisfies installation_info_apply
      (record { installation_id = none; info = no_installation_info }) installation_info_project

pub installation_infos-IsInstallationInfoQueries : IsInstallationInfoQueries installation_infos
installation_infos-IsInstallationInfoQueries = record {
  satisfies-of_installation = λ id d. refl;
  apply-set_installation_info = λ id i d. refl;
  project-whole = λ d. refl;
}

abbrev token_apply : User.Update → TokenInfo → TokenInfo
token_apply (set_token_info i now) d = record {
  login = kept_field i.login d.login;
  client_id = stored_field i.client_id;
  created_at = User.text now;
  updated_at = i.updated_at;
}

abbrev token_project : User.Projection → TokenInfo → TokenInfo
token_project token_info d = record d { created_at = undefined; updated_at = undefined }

abbrev pub tokens :
    Collection (Table TokenInfo) TokenInfo (Unit {0}) User.Update User.Projection TokenInfo
tokens =
    collection (λ c d. true) token_apply
      (record {
        login = undefined;
        client_id = undefined;
        created_at = undefined;
        updated_at = undefined;
      })
      token_project

pub tokens-IsTokenQueries : IsTokenQueries tokens
tokens-IsTokenQueries = record {
  blank-eq = refl;
  apply-set_token_info = λ i d now. refl;
  project-token_info = λ d. refl;
}

-- The rows of the aggregate; `$size` fails where there is no array.
abbrev sizes_of : Option QueueDocument → Answer (List ℕ)
sizes_of none = answered []
sizes_of (some d) = elim d.queue [ none ↦ failed 17124 | some xs ↦ answered (length xs ∷ []) ]

abbrev pub environment : Environment
environment = record {
  check_run_actions = some "true";
  app_id = some 7;
  app_origin = some "https://app.example";
  client_id = some "app";
  node_env = none;
  secret_token = some "key";
  send_delay = none;
}

pub sizes-none :
    (k : String) (t : Table QueueDocument) → lookup t k ≡ none → sizes_of (lookup t k) ≡ answered []
sizes-none k t e = rw e refl

pub sizes-some :
    (k : String) (t : Table QueueDocument) (d : QueueDocument) (xs : List Item)
    → lookup t k ≡ some d
    → d.queue ≡ some xs
    → sizes_of (lookup t k) ≡ answered (length xs ∷ [])
sizes-some k t d xs e same = rw (e, same) refl

-- With GitHub's and OneSignal's answers to every request.
abbrev pub server : Option Response → PushAnswer → Services
server response answer = record {
  QueueTable = Table QueueDocument;
  PullRequestTable = Table PullRequestDocument;
  queue_collection = queues;
  queue_driver =
      collection-IsDriver queue_satisfies queue_apply
        (record { owner = none; repo = none; queue = none }) queue_project;
  queue_queries = queues-IsQueueQueries;
  queue_sizes = λ k t. sizes_of (lookup t k);
  queue_sizes-none = sizes-none;
  queue_sizes-some = sizes-some;
  pull_request_collection = pull_requests;
  pull_request_driver =
      collection-IsDriver pull_request_satisfies pull_request_apply
        (record { owner = none; repo = none; info = no_info }) pull_request_project;
  pull_request_queries = pull_requests-IsPullRequestQueries;
  InstallationTable = Table InstallationDocument;
  installation_collection = installations;
  installation_driver =
      collection-IsDriver installation_satisfies installation_apply
        (record { installation_id = none; owner = none }) installation_project;
  installation_queries = installations-IsInstallationQueries;
  InstallationInfoTable = Table InstallationInfoDocument;
  installation_info_collection = installation_infos;
  installation_info_driver =
      collection-IsDriver installation_info_satisfies installation_info_apply
        (record { installation_id = none; info = no_installation_info }) installation_info_project;
  installation_info_queries = installation_infos-IsInstallationInfoQueries;
  TokenTable = Table TokenInfo;
  token_collection = tokens;
  token_driver =
      collection-IsDriver (λ c d. true) token_apply
        (record {
          login = undefined;
          client_id = undefined;
          created_at = undefined;
          updated_at = undefined;
        })
        token_project;
  token_queries = tokens-IsTokenQueries;
  respond_pages = λ rs r. Option.map (λ page. page ∷ []) response;
  NotificationTable = Table NotificationDocument;
  notification_collection = notifications;
  notification_driver =
      collection-IsDriver (λ c d. true) notification_apply (record { id = none; content = none })
        notification_project;
  notification_queries = notifications-IsNotificationQueries;
  respond = λ rs r. response;
  push = λ rs r. answer;
  seconds = λ n. 42;
  with_seconds = λ n at. decimal at;
  localize = λ key params. key;
  timestamp = decimal;
  sign = λ key json. json;
  environment = environment;
}
