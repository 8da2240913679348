-- ===== src/Webhook/Cases.antt =====
-- routes-webhook.js: what holds of each reply of the chain holds of the chain.
use ugo.Base.{
  String, Bool, true, false, not, List, [], ◌∷◌, Option, none, some, if◌then◌else◌, str_eq, ℕ,
}
use ugo.Model.Queue.{Item}
use ugo.Model.PullRequest.{is_some_text}
use ugo.Model.Event.{PullRequest}
use ugo.Model.Webhook.{WebhookRequest}
use ugo.World.{Services, Promise}
use ugo.Promise.{◌>>=◌, resolve}
use ugo.Reply.{Reply, sent_text}
use ugo.InstallationManager as Installation
use ugo.InstallationInfoManager.{delete_installation_infos}
use ugo.QueueManager as Queue
use ugo.PullRequestHandler.{Location}
use ugo.PullRequestHandler.Handlers.{
  handle_closed, handle_opened, handle_sync, handle_status_change,
}
use ugo.Webhook.Button.{Wish, wish_of}
use ugo.Webhook.Chain.{thrown, replying, replying_or_next, is_event}
use ugo.Webhook.Events.{
  handle_status, handle_check_suite, fulfil_wish, handle_check_run, handle_repository,
}
use ugo.Webhook.Installations.{
  throws_on_closed, handle_pull_request, uninstall, handle_installation,
  handle_installation_repositories,
}
use ugo.Webhook.Route.{handle_caught, dispatch}

module _ (s : Services) (P : Promise s (List Reply) → Type 0) where
  -- A property of promises that has what the chain makes with a `catch`, and single replies.
  pub record IsCaughtLaw : Type 0 where
    pub replies : (r : Reply) → P (resolve (r ∷ []))
    pub closes :
        (p : PullRequest) (f : Location → String) → P (replying_or_next s (handle_closed s p) f)
    pub opens :
        (p : PullRequest) (id : ℕ) (f : Location → String)
        → P (replying_or_next s (handle_opened s p id) f)
    pub syncs :
        (p : PullRequest) (id : ℕ) (f : Location → String)
        → P (replying_or_next s (handle_sync s p id) f)
    pub installs :
        (owner : String) (id : ℕ) (f : ℕ → String)
        → P (replying_or_next s (Installation.set_installation_id s owner id) f)
    pub uninstalls :
        (id : ℕ) (owner : String) (f : Unit {0} → String)
        → P (replying_or_next s (uninstall s id owner) f)
    pub changes_repositories :
        (id : Option ℕ) (f : Unit {0} → String)
        → P (replying_or_next s (delete_installation_infos s id) f)

  -- A property of promises that has all that the chain makes.
  pub record IsRouteLaw : Type 0 where
    pub caught : IsCaughtLaw
    pub changes_status :
        (owner repo sha : String) (f : Unit {0} → String)
        → P (replying s (handle_status_change s owner repo sha) f)
    pub removes :
        (owner repo branch : String) (x : Item) (f : Unit {0} → String)
        → P (replying s (Queue.remove_item s owner repo branch x Queue.no_meta) f)
    pub adds :
        (owner repo branch : String) (x : Item) (f : Unit {0} → String)
        → P (replying s (Queue.add_item s owner repo branch x) f)
    pub forgets_infos :
        (owner : String) (f : Unit {0} → String)
        → P (
            replying s (Installation.get_installation_id s owner >>= delete_installation_infos s) f)

module _ (s : Services) (P : Promise s (List Reply) → Type 0) (law : IsCaughtLaw s P) where
  either : (b : Bool) (m k : Promise s (List Reply)) → P m → P k → P (if b then m else k)
  either true m k h h' = h
  either false m k h h' = h'

  any_thrown : P (thrown s)
  any_thrown = law.replies _

  -- A part of the body that may be missing.
  if_there :
      {A : Type 0} (o : Option A) (f : A → Promise s (List Reply))
      → ((a : A) → P (f a))
      → P (elim o [ none ↦ thrown s | some a ↦ f a ])
  if_there none f h = any_thrown
  if_there (some a) f h = h a

  pull_request-holds :
      (r : WebhookRequest) (next : Promise s (List Reply))
      → P next
      → P (handle_pull_request s r next)
  unfolding handle_pull_request
  pull_request-holds r next h = either (not (is_event s r "pull_request")) next _ h (
      if_there r.body.installation _ (λ i. if_there r.body.pull_request _ (λ p.
        either (is_some_text r.body.action "closed") _ _
          (either (throws_on_closed p) _ _ any_thrown (law.closes _ _))
          (either (is_some_text r.body.action "opened") _ _ (law.opens _ _ _) (law.syncs _ _ _)))))

  installation-holds :
      (r : WebhookRequest) (next : Promise s (List Reply))
      → P next
      → P (handle_installation s r next)
  unfolding handle_installation
  installation-holds r next h = either (not (is_event s r "installation")) next _ h (
      if_there r.body.installation _ (λ i.
        either (is_some_text r.body.action "created") _ _ (law.installs _ _ _)
          (either (is_some_text r.body.action "deleted") _ _ (law.uninstalls _ _ _) h)))

  repositories-holds :
      (r : WebhookRequest) (next : Promise s (List Reply))
      → P next
      → P (handle_installation_repositories s r next)
  unfolding handle_installation_repositories
  repositories-holds r next h =
      either (not (is_event s r "installation_repositories")) next _ h
        (if_there r.body.installation _ (λ i. law.changes_repositories _ _))

  -- The handlers with a `catch`, which are the last ones.
  pub caught-holds : (r : WebhookRequest) → P (handle_caught s r)
  unfolding handle_caught
  caught-holds r =
      pull_request-holds r _
        (installation-holds r _ (repositories-holds r _ (law.replies (sent_text ""))))

module _ (s : Services) (P : Promise s (List Reply) → Type 0) (law : IsRouteLaw s P) where
  status-holds :
      (r : WebhookRequest) (next : Promise s (List Reply)) → P next → P (handle_status s r next)
  unfolding handle_status
  status-holds r next h =
      either s P law.caught (not (is_event s r "status")) next _ h
        (if_there s P law.caught r.body.repository _ (λ repository. law.changes_status _ _ _ _))

  check_suite-holds :
      (r : WebhookRequest) (next : Promise s (List Reply))
      → P next
      → P (handle_check_suite s r next)
  unfolding handle_check_suite
  check_suite-holds r next h = either s P law.caught (not (is_event s r "check_suite")) next _ h (
      if_there s P law.caught r.body.check_suite _ (λ suite.
        if_there s P law.caught r.body.repository _ (λ repository.
          either s P law.caught (is_some_text r.body.action "completed") _ _
            (law.changes_status _ _ _ _) (law.caught.replies _))))

  wish-holds :
      (now : ℕ) (o : Option Wish) (next : Promise s (List Reply))
      → P next
      → P (fulfil_wish s now o next)
  wish-holds now none next h = h
  wish-holds now (some d) next h =
      either s P law.caught (str_eq d.identifier "queue-remove") _ _ (law.removes _ _ _ _ _)
        (either s P law.caught (str_eq d.identifier "queue-add") _ _ (law.adds _ _ _ _ _) h)

  check_run-holds :
      (r : WebhookRequest) (next : Promise s (List Reply)) → P next → P (handle_check_run s r next)
  unfolding handle_check_run
  check_run-holds r next h = either s P law.caught (not (is_event s r "check_run")) next _ h (
      either s P law.caught (not (is_some_text r.body.action "requested_action")) next _ h (
        wish-holds r.now
          (wish_of r.body.sender_login r.body.repository r.body.requested_action_identifier
            r.body.check_run_pull_request)
          next h))

  repository-holds :
      (r : WebhookRequest) (next : Promise s (List Reply)) → P next → P (handle_repository s r next)
  unfolding handle_repository
  repository-holds r next h =
      either s P law.caught (not (is_event s r "repository")) next _ h
        (if_there s P law.caught r.body.repository _ (λ repository. law.forgets_infos _ _))

  pub dispatch-holds : (r : WebhookRequest) → P (dispatch s r)
  unfolding dispatch
  dispatch-holds r = status-holds r _ (
      check_suite-holds r _
        (check_run-holds r _ (repository-holds r _ (caught-holds s P law.caught r))))
