-- ===== src/Service/SafeEvents.antt =====
-- Double bookings along `handleClosed` and `handleStatusChange` of handler-pullrequest.js.
use ugo.Base.{ℕ, String, Bool, true, false, Option, none, some, arith, inl, inr, Bool-cases}
use ugo.Model.Queue.{Item}
use ugo.Model.PullRequest.{Info}
use ugo.World.{Services, World, Promise}
use ugo.Promise.{◌>>=◌, world_of, resolve, detached}
use ugo.QueueManager as Queue
use ugo.Service.SafeBookings.{KeepsSafe-remove_item}
use ugo.GitHub.{get_hash_combined_status, shown}
use ugo.GitHub.CombinedStatus.{status_pending}
use ugo.GitHub.Frame.{KeepsStore, get_hash_combined_status_total}
use ugo.PullRequestHandler.Closed.{closing}
use ugo.PullRequestManager.{
  set_pull_request_info, get_pull_request_info_by_sha, delete_pull_request_info,
}
use ugo.PullRequestHandler.{PullRequest, Location, location_of, or_default}
use ugo.PullRequestHandler.Handlers.{
  handle_closed, handle_status_change, merge_description, remove_if_there, block_or_unblock,
  store_status, is_item_of, status_of_first, status_change,
}
use ugo.PullRequestHandler.Frame.{KeepsStore-block_or_unblock}
use ugo.Service.Safe.{
  Safe-refl, Unmoved, KeepsSafe, KeepsSafe-then, KeepsSafe-store, KeepsSafe-queues,
  KeepsSafe-resolve,
}

module _ {s : Services} where
  queues-delete_info :
      (owner repo : String) (n : ℕ) (w : World s)
      → Unmoved w (world_of (delete_pull_request_info s owner repo n w))
  unfolding delete_pull_request_info
  queues-delete_info owner repo n w = (ground arith, ground arith)

  queues-by_sha :
      (owner repo sha : String) (w : World s)
      → Unmoved w (world_of (get_pull_request_info_by_sha s owner repo sha w))
  unfolding get_pull_request_info_by_sha
  queues-by_sha owner repo sha w = (ground arith, ground arith)

  queues-get_item :
      (owner repo branch : String) (n : ℕ) (w : World s)
      → Unmoved w (world_of (Queue.get_item s owner repo branch n w))
  unfolding Queue.get_item
  queues-get_item owner repo branch n w = (ground arith, ground arith)

  queues-get_first_item :
      (owner repo branch : String) (w : World s)
      → Unmoved w (world_of (Queue.get_first_item s owner repo branch w))
  unfolding Queue.get_first_item Queue.get_some_items
  queues-get_first_item owner repo branch w = (ground arith, ground arith)

  KeepsSafe-description : (b : Bool) (u : Option String) → KeepsSafe (merge_description s b u)
  KeepsSafe-description false u w = Safe-refl w
  KeepsSafe-description true none w = Safe-refl w
  KeepsSafe-description true (some u) w = Safe-refl w

  KeepsSafe-remove_if_there :
      (owner repo branch : String) (o : Option Item)
      → KeepsSafe (remove_if_there s owner repo branch o)
  KeepsSafe-remove_if_there owner repo branch none w = Safe-refl w
  KeepsSafe-remove_if_there owner repo branch (some x) w =
      KeepsSafe-remove_item s owner repo branch x
        (record { closed = true; first_item_changed = false }) w

  KeepsSafe-closing : (p : PullRequest) (d : Option String) → KeepsSafe (closing s p d)
  KeepsSafe-closing p d =
      KeepsSafe-then (Queue.get_item s p.base_owner p.base_repo p.base_ref p.number) removed
        (KeepsSafe-queues (Queue.get_item s p.base_owner p.base_repo p.base_ref p.number)
          (queues-get_item p.base_owner p.base_repo p.base_ref p.number))
        λ found.
          KeepsSafe-then (remove_if_there s p.base_owner p.base_repo p.base_ref found) (λ _. marked)
            (KeepsSafe-remove_if_there p.base_owner p.base_repo p.base_ref found)
            λ _.
              KeepsSafe-then (block_or_unblock s p.merged p.base_owner p.base_repo p.number d)
                (λ _. forgotten)
                (KeepsSafe-store (block_or_unblock s p.merged p.base_owner p.base_repo p.number d)
                  (KeepsStore-block_or_unblock s p.merged p.base_owner p.base_repo p.number d))
                λ _.
                  KeepsSafe-then (delete_pull_request_info s p.base_owner p.base_repo p.number)
                    (λ _. resolve (location_of p))
                    (KeepsSafe-queues (delete_pull_request_info s p.base_owner p.base_repo p.number)
                      (queues-delete_info p.base_owner p.base_repo p.number))
                    (λ _. KeepsSafe-resolve (location_of p))
    where
      forgotten : Promise s Location
      forgotten = delete_pull_request_info s p.base_owner p.base_repo p.number >>= λ _.
          resolve (location_of p)

      marked : Promise s Location
      marked = block_or_unblock s p.merged p.base_owner p.base_repo p.number d >>= λ _. forgotten

      removed : Option Item → Promise s Location
      removed found = remove_if_there s p.base_owner p.base_repo p.base_ref found >>= λ _. marked

  pub KeepsSafe-closed : (p : PullRequest) → KeepsSafe (handle_closed s p)
  unfolding handle_closed
  KeepsSafe-closed p =
      KeepsSafe-then (merge_description s p.merged p.merged_by) (closing s p)
        (KeepsSafe-description p.merged p.merged_by) (KeepsSafe-closing p)

  queues-store_status :
      (owner repo : String) (branch : Option String) (x : Item) (old status : String) (w : World s)
      → Unmoved w (world_of (store_status s owner repo branch x old status w))
  unfolding store_status set_pull_request_info
  queues-store_status owner repo branch x old status w = (ground arith, ground arith)

  KeepsSafe-first :
      (owner repo sha : String) (i : Info) (o : Option Item)
      → KeepsSafe (status_of_first s owner repo sha i o)
  KeepsSafe-first owner repo sha i none = Safe-refl
  KeepsSafe-first owner repo sha i (some x) =
      elim (Bool-cases (is_item_of x i.pull_request_number)) [
        | inl same ↦ rw same (
            KeepsSafe-then (get_hash_combined_status s i.installation_id owner repo sha) told
              (KeepsSafe-store (get_hash_combined_status s i.installation_id owner repo sha)
                combined)
              (λ status. KeepsSafe-queues (told status) (
                queues-store_status owner repo i.branch x (or_default i.status status_pending)
                  status)))
        | inr other ↦ rw other Safe-refl
      ]
    where
      told : String → Promise s (Unit {0})
      told status =
          detached
            (store_status s owner repo i.branch x (or_default i.status status_pending) status)

      combined : KeepsStore (get_hash_combined_status s i.installation_id owner repo sha)
      combined w =
          let (status, w', e, same) =
            get_hash_combined_status_total i.installation_id owner repo sha w in
          rw e same

  KeepsSafe-change :
      (owner repo sha : String) (o : Option Info) → KeepsSafe (status_change s owner repo sha o)
  KeepsSafe-change owner repo sha none = Safe-refl
  KeepsSafe-change owner repo sha (some i) =
      KeepsSafe-then (Queue.get_first_item s owner repo (shown i.branch))
        (status_of_first s owner repo sha i)
        (KeepsSafe-queues (Queue.get_first_item s owner repo (shown i.branch))
          (queues-get_first_item owner repo (shown i.branch)))
        (KeepsSafe-first owner repo sha i)

  pub KeepsSafe-checked :
      (owner repo sha : String) → KeepsSafe (handle_status_change s owner repo sha)
  unfolding handle_status_change
  KeepsSafe-checked owner repo sha =
      KeepsSafe-then (get_pull_request_info_by_sha s owner repo sha)
        (status_change s owner repo sha)
        (KeepsSafe-queues (get_pull_request_info_by_sha s owner repo sha)
          (queues-by_sha owner repo sha))
        (KeepsSafe-change owner repo sha)
