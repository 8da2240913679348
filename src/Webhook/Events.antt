-- ===== src/Webhook/Events.antt =====
-- routes-webhook.js: the events of statuses, check suites, check runs and repositories.
use ugo.Base.{
  ℕ, String, not, List, [], ◌∷◌, Option, none, some, if◌then◌else◌, str_eq, decimal, concat,
}
use ugo.Model.Queue.{Item}
use ugo.Model.PullRequest.{is_some_text}
use ugo.Model.User.{Field, undefined, null, text}
use ugo.Model.Webhook.{EventRepository, CheckSuite}
use ugo.Webhook.Button.{Wish, wish_of}
use ugo.World.{Services, Promise}
use ugo.Promise.{◌>>=◌, resolve}
use ugo.Reply.{Reply, sent_text}
use ugo.GitHub.{shown}
use ugo.InstallationManager as Installation
use ugo.InstallationInfoManager.{delete_installation_infos}
use ugo.QueueManager as Queue
use ugo.PullRequestHandler.Handlers.{handle_status_change}
use ugo.Webhook.Chain.{Handler, thrown, replying, is_event}

-- A value in a template literal.
abbrev pub shown_field : Field → String
shown_field undefined = "undefined"
shown_field null = "null"
shown_field (text t) = t

module _ (s : Services) where
  unfoldable pub handle_status : Handler s
  handle_status r next = if not (is_event s r "status") then next else elim r.body.repository [
    | none ↦ thrown s
    | some repository ↦
        replying s (handle_status_change s repository.owner_login repository.name r.body.sha)
          (λ _. concat ("Status of " ∷ r.body.sha ∷ " " ∷ shown r.body.state ∷ []))
  ]

  abbrev pub check_suite_reply :
      Option String → EventRepository → CheckSuite → Promise s (List Reply)
  check_suite_reply action repository suite =
      if is_some_text action "completed"
      then replying s (handle_status_change s repository.owner_login repository.name suite.head_sha)
          (λ _. concat (
            "Check suite for "
            ∷ suite.head_sha
            ∷ " "
            ∷ suite.status
            ∷ " "
            ∷ shown_field suite.conclusion
            ∷ []))
      else resolve (
          sent_text (
            concat
              ("Check suite " ∷ shown action ∷ " for " ∷ suite.head_sha ∷ " " ∷ suite.status ∷ []))
          ∷ [])

  unfoldable pub handle_check_suite : Handler s
  handle_check_suite r next =
      if not (is_event s r "check_suite") then next else elim r.body.check_suite [
        | none ↦ thrown s
        | some suite ↦ elim r.body.repository [
          | none ↦ thrown s
          | some repository ↦ check_suite_reply r.body.action repository suite
        ]
      ]

  -- The booking of the button: its time is that of the request.
  abbrev pub wished_item : Wish → ℕ → Item
  wished_item d now = record {
    username = d.username;
    pull_request_number = d.pull_request_number;
    created_at = now;
  }

  abbrev pub wish_text : Wish → String
  wish_text d =
      concat
        ("PR " ∷ decimal d.pull_request_number ∷ " " ∷ d.identifier ∷ " for queue " ∷ d.branch ∷ [])

  abbrev pub fulfil_wish : ℕ → Option Wish → Promise s (List Reply) → Promise s (List Reply)
  fulfil_wish now none next = next
  fulfil_wish now (some d) next =
      if str_eq d.identifier "queue-remove"
      then replying s
          (Queue.remove_item s d.owner d.repo d.branch (wished_item d now) Queue.no_meta)
          (λ _. wish_text d)
      else (if str_eq d.identifier "queue-add"
          then replying s (Queue.add_item s d.owner d.repo d.branch (wished_item d now))
              (λ _. wish_text d)
          else next)

  unfoldable pub handle_check_run : Handler s
  handle_check_run r next =
      if not (is_event s r "check_run")
      then next
      else (if not (is_some_text r.body.action "requested_action")
          then next
          else fulfil_wish r.now
              (wish_of r.body.sender_login r.body.repository r.body.requested_action_identifier
                r.body.check_run_pull_request)
              next)

  unfoldable pub handle_repository : Handler s
  handle_repository r next =
      if not (is_event s r "repository") then next else elim r.body.repository [
        | none ↦ thrown s
        | some repository ↦
            replying s
              (Installation.get_installation_id s repository.owner_login
                >>= delete_installation_infos s)
              (λ _. concat ("Installation infos of " ∷ repository.owner_login ∷ " deleted" ∷ []))
      ]
