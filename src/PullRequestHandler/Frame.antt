-- ===== src/PullRequestHandler/Frame.antt =====
-- handler-pullrequest.js: the parts of the state that setting a status is not about.
use ugo.Base.{
  ℕ, suc, pos, take, String, Bool, true, false, Option, none, some, List, [], ◌∷◌, ℤ, arith,
}
use ugo.Model.PullRequest.{Info}
use ugo.Model.Queue.{Item}
use ugo.World.{Services}
use ugo.Promise.{all_of}
use ugo.Keeps.{AllKeep}
use ugo.GitHub.Frame.{
  SameStore, SameStore-refl, KeepsStore, KeepsStore-then, KeepsStore-all_of,
  KeepsStore-create_check_run,
}
use ugo.PullRequestManager.{get_pull_request_info}
use ugo.PullRequestHandler.{
  max_reported_queue_position, report_known, check_run_options, get_pull_request_and_update_status,
  block_pull_request, unblock_pull_request, set_pull_request_status_by_position,
}
use ugo.PullRequestHandler.Handlers.{
  status_updates, block_or_unblock, set_all_pull_requests_statuses,
}
use ugo.PullRequestHandler.Position.{status_at, title_at, set_status_at}
use ugo.QueueManager.{get_items, get_some_items}

module _ (s : Services) where
  KeepsStore-get_info :
      (owner repo : String) (n : ℕ) → KeepsStore (get_pull_request_info s owner repo n)
  unfolding get_pull_request_info
  KeepsStore-get_info owner repo n w = ground arith

  pub KeepsStore-get_items :
      (owner repo branch : String) → KeepsStore (get_items s owner repo branch)
  unfolding get_items get_some_items
  KeepsStore-get_items owner repo branch w = ground arith

  KeepsStore-report :
      (owner repo status description : String) (o : Option Info)
      → KeepsStore (report_known s owner repo status description o)
  KeepsStore-report owner repo status description none = SameStore-refl
  KeepsStore-report owner repo status description (some i) =
      KeepsStore-create_check_run (check_run_options s owner repo status description i)

  pub KeepsStore-update_status :
      (owner repo : String) (n : ℕ) (status description : String)
      → KeepsStore (get_pull_request_and_update_status s owner repo n status description)
  unfolding get_pull_request_and_update_status
  KeepsStore-update_status owner repo n status description =
      KeepsStore-then (get_pull_request_info s owner repo n)
        (report_known s owner repo status description) (KeepsStore-get_info owner repo n)
        (KeepsStore-report owner repo status description)

  pub KeepsStore-block_or_unblock :
      (b : Bool) (owner repo : String) (n : ℕ) (d : Option String)
      → KeepsStore (block_or_unblock s b owner repo n d)
  unfolding block_pull_request unblock_pull_request
  KeepsStore-block_or_unblock true owner repo n d = KeepsStore-update_status owner repo n _ _
  KeepsStore-block_or_unblock false owner repo n d = KeepsStore-update_status owner repo n _ _

  pub KeepsStore-position :
      (owner repo : String) (n : ℕ) (z : ℤ)
      → KeepsStore (set_pull_request_status_by_position s owner repo n z)
  KeepsStore-position owner repo n z =
      rw (set_status_at s owner repo n z)
        (KeepsStore-update_status owner repo n (status_at s z) (title_at s z))

  updates-keep :
      (owner repo : String) (i : ℕ) (xs : List Item)
      → AllKeep SameStore (status_updates s owner repo i xs)
  updates-keep owner repo i [] = tt
  updates-keep owner repo i (x ∷ xs) = (
    KeepsStore-position owner repo x.pull_request_number (pos i),
    updates-keep owner repo (suc i) xs,
  )

  pub KeepsStore-set_all :
      (owner repo branch : String) → KeepsStore (set_all_pull_requests_statuses s owner repo branch)
  unfolding set_all_pull_requests_statuses
  KeepsStore-set_all owner repo branch =
      KeepsStore-then (get_items s owner repo branch)
        (λ items.
          all_of (status_updates s owner repo 0 (take (suc max_reported_queue_position) items)))
        (KeepsStore-get_items owner repo branch)
        (λ items.
          KeepsStore-all_of _
            (updates-keep owner repo 0 (take (suc max_reported_queue_position) items)))
