-- ===== src/Webhook/Installations.antt =====
-- routes-webhook.js: the events of pull requests and of installations.
use ugo.Base.{
  ℕ, String, Bool, true, false, not, ◌&&◌, List, [], ◌∷◌, Option, none, some, if◌then◌else◌,
  decimal, concat,
}
use ugo.Model.Event.{PullRequest}
use ugo.Model.PullRequest.{is_some_text}
use ugo.World.{Services, Promise}
use ugo.Promise.{all_of, ignoring}
use ugo.Reply.{Reply}
use ugo.GitHub.{shown}
use ugo.InstallationManager as Installation
use ugo.InstallationInfoManager.{delete_installation_infos}
use ugo.PullRequestManager as Info
use ugo.QueueManager as Queue
use ugo.PullRequestHandler.{Location}
use ugo.PullRequestHandler.Handlers.{handle_closed, handle_opened, handle_sync}
use ugo.Webhook.Chain.{Handler, thrown, replying_or_next, is_event}

-- `handleClosed` reads `merged_by` before it makes a promise.
abbrev pub throws_on_closed : PullRequest → Bool
throws_on_closed p = p.merged && elim p.merged_by [ none ↦ true | some username ↦ false ]

module _ (s : Services) where
  abbrev pub location_text : Option String → Location → String
  location_text action l = concat (
      "PR "
      ∷ l.owner
      ∷ "/"
      ∷ l.repo
      ∷ "/"
      ∷ l.branch
      ∷ " #"
      ∷ decimal l.pull_request_number
      ∷ " "
      ∷ shown action
      ∷ [])

  abbrev pub pull_request_reply : Option String → ℕ → PullRequest → Promise s (List Reply)
  pull_request_reply action installation_id p =
      if is_some_text action "closed"
      then (if throws_on_closed p
          then thrown s
          else replying_or_next s (handle_closed s p) (location_text action))
      else (if is_some_text action "opened"
          then replying_or_next s (handle_opened s p installation_id) (location_text action)
          else replying_or_next s (handle_sync s p installation_id) (location_text action))

  unfoldable pub handle_pull_request : Handler s
  handle_pull_request r next =
      if not (is_event s r "pull_request") then next else elim r.body.installation [
        | none ↦ thrown s
        | some installation ↦ elim r.body.pull_request [
          | none ↦ thrown s
          | some p ↦ pull_request_reply r.body.action installation.id p
        ]
      ]

  abbrev pub installation_text : Option String → ℕ → String → String
  installation_text action id owner =
      concat ("Installation " ∷ decimal id ∷ " for " ∷ owner ∷ " " ∷ shown action ∷ [])

  -- `Promise.all` of what is known of an owner.
  unfoldable pub uninstall : ℕ → String → Promise s (Unit {0})
  uninstall id owner = all_of (
      Installation.delete_installation_id s owner
      ∷ delete_installation_infos s (some id)
      ∷ Info.delete_pull_request_infos s owner
      ∷ ignoring (Queue.delete_queue s owner)
      ∷ [])

  abbrev pub installation_reply :
      Option String → ℕ → String → Promise s (List Reply) → Promise s (List Reply)
  installation_reply action id owner next =
      if is_some_text action "created"
      then replying_or_next s (Installation.set_installation_id s owner id)
          (λ _. installation_text action id owner)
      else (if is_some_text action "deleted"
          then replying_or_next s (uninstall id owner) (λ _. installation_text action id owner)
          else next)

  unfoldable pub handle_installation : Handler s
  handle_installation r next =
      if not (is_event s r "installation") then next else elim r.body.installation [
        | none ↦ thrown s
        | some i ↦ installation_reply r.body.action i.id i.account_login next
      ]

  unfoldable pub handle_installation_repositories : Handler s
  handle_installation_repositories r next =
      if not (is_event s r "installation_repositories") then next else elim r.body.installation [
        | none ↦ thrown s
        | some i ↦ replying_or_next s (delete_installation_infos s (some i.id)) (λ _. concat (
            "Installation repositories of installation "
            ∷ decimal i.id
            ∷ " for "
            ∷ i.account_login
            ∷ " "
            ∷ shown r.body.action
            ∷ []))
      ]
