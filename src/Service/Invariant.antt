-- ===== src/Service/Invariant.antt =====
-- Double bookings and stored installation infos along the steps of the service.
use ugo.Base.{
  String, false, List, [], ◌∷◌, ◌++◌, none, ℤ, arith, inl, inr, Bool-cases, if◌then◌else◌,
}
use ugo.Model.Queue.{Item}
use ugo.Model.Message.{Message, Meta, item_add, item_remove}
use ugo.World.{Services, World, Promise, Failure, failure}
use ugo.Promise.{catch, world_of, resolve, all_of, log_error}
use ugo.Keeps.{AllKeep}
use ugo.QueueManager as Queue
use ugo.QueueManager.Unique.{AllDistinct}
use ugo.PullRequestHandler.{is_zero, set_pull_request_status_by_position, block_pull_request}
use ugo.PullRequestHandler.Handlers.{set_all_pull_requests_statuses}
use ugo.PullRequestHandler.Frame.{
  KeepsStore-block_or_unblock, KeepsStore-position, KeepsStore-set_all,
}
use ugo.InstallationInfoManager.Named.{AllNamed}
use ugo.QueueEvents as Events
use ugo.NotificationHandler as Push
use ugo.Service.Notifications.{KeepsSafe-notifications}
use ugo.PusherHandler as Pusher
use ugo.MetricsManager as Metrics
use ugo.Base.{Option}
use ugo.Model.Message.{send_update, gauge, histogram, increment}
use ugo.Service.SafeRoutes.{KeepsSafe-perform}
use ugo.Service.{
  deliver, Step, serves, delivers, turns, Reach, here, next, each_detached, all_subscribers,
}
use ugo.Service.Safe.{
  Safe-refl, Unmoved, Safe, KeepsSafe, KeepsSafe-then, KeepsSafe-catch, KeepsSafe-all_of,
  KeepsSafe-store, KeepsSafe-queues,
}

module _ {s : Services} where
  KeepsSafe-log : (e : Failure) → KeepsSafe {s = s} (log_error (failure e))
  KeepsSafe-log e w = Safe-refl w

  queues-size :
      (owner repo branch : String) (w : World s)
      → Unmoved w (world_of (Events.report_queue_size s owner repo branch w))
  unfolding Events.report_queue_size Queue.get_length
  queues-size owner repo branch w = (ground arith, ground arith)

  queues-update :
      (owner repo branch : String) (w : World s)
      → Unmoved w (world_of (Events.push_queue_update s owner repo branch w))
  unfolding Events.push_queue_update Queue.get_items Queue.get_some_items
  queues-update owner repo branch w = (ground arith, ground arith)

  queues-notify :
      (owner repo branch : String) (meta : Meta) (w : World s)
      → Unmoved w (world_of (Events.notify_on_first_item_changed s owner repo branch meta w))
  unfolding Events.notify_on_first_item_changed Queue.get_first_item Queue.get_some_items
  queues-notify owner repo branch meta w = (ground arith, ground arith)

  KeepsSafe-added :
      (owner repo : String) (x : Item) (z : ℤ) → KeepsSafe (Events.add_item s owner repo x z)
  unfolding Events.add_item
  KeepsSafe-added owner repo x z =
      KeepsSafe-then (if is_zero z then Events.tell_first s owner repo x else resolve tt)
        (λ _.
          catch (set_pull_request_status_by_position s owner repo x.pull_request_number z)
            (λ e. log_error (failure e)))
        first
        (λ _.
          KeepsSafe-catch (set_pull_request_status_by_position s owner repo x.pull_request_number z)
            (λ e. log_error (failure e))
            (KeepsSafe-store
              (set_pull_request_status_by_position s owner repo x.pull_request_number z)
              (KeepsStore-position s owner repo x.pull_request_number z))
            KeepsSafe-log)
    where
      first : KeepsSafe (if is_zero z then Events.tell_first s owner repo x else resolve tt)
      first = elim (Bool-cases (is_zero z)) [ inl e ↦ rw e Safe-refl | inr e ↦ rw e Safe-refl ]

  KeepsSafe-block :
      (owner repo : String) (x : Item) (meta : Meta)
      → KeepsSafe (Events.block_removed_item s owner repo x meta)
  unfolding Events.block_removed_item
  KeepsSafe-block owner repo x meta = elim (Bool-cases meta.closed) [
    | inl e ↦ rw e Safe-refl
    | inr e ↦ rw e (
        KeepsSafe-store (block_pull_request s owner repo x.pull_request_number none)
          (KeepsStore-block_or_unblock s false owner repo x.pull_request_number none))
  ]

  KeepsSafe-removed :
      (owner repo branch : String) (x : Item) (meta : Meta)
      → KeepsSafe (Events.remove_item s owner repo branch x meta)
  unfolding Events.remove_item
  KeepsSafe-removed owner repo branch x meta =
      KeepsSafe-catch (all_of three) (λ e. log_error (failure e))
        (KeepsSafe-all_of three (
          KeepsSafe-block owner repo x meta,
          (
            KeepsSafe-queues (Events.notify_on_first_item_changed s owner repo branch meta)
                (queues-notify owner repo branch meta),
            (
              KeepsSafe-store (set_all_pull_requests_statuses s owner repo branch)
                  (KeepsStore-set_all s owner repo branch),
              tt,
            ),
          ),
        ))
        KeepsSafe-log
    where
      three : List (Promise s (Unit {0}))
      three =
          Events.block_removed_item s owner repo x meta
          ∷ Events.notify_on_first_item_changed s owner repo branch meta
          ∷ set_all_pull_requests_statuses s owner repo branch
          ∷ []

  append-AllKeep :
      (ms ns : List (Promise s (Unit {0})))
      → AllKeep Safe ms
      → AllKeep Safe ns
      → AllKeep Safe (ms ++ ns)
  append-AllKeep [] ns h k = k
  append-AllKeep (m ∷ ms) ns (h, hs) k = (h, append-AllKeep ms ns hs k)

  detached-AllKeep :
      (ms : List (Promise s (Unit {0}))) → AllKeep Safe ms → AllKeep Safe (each_detached s ms)
  detached-AllKeep [] h = tt
  detached-AllKeep (m ∷ ms) (h, hs) = (h, detached-AllKeep ms hs)

  KeepsSafe-size :
      (owner repo branch : String) → KeepsSafe (Events.report_queue_size s owner repo branch)
  KeepsSafe-size owner repo branch =
      KeepsSafe-queues (Events.report_queue_size s owner repo branch)
        (queues-size owner repo branch)

  KeepsSafe-push :
      (owner repo branch : String) → KeepsSafe (Events.push_queue_update s owner repo branch)
  KeepsSafe-push owner repo branch =
      KeepsSafe-queues (Events.push_queue_update s owner repo branch)
        (queues-update owner repo branch)

KeepsSafe-subscribers :
    (s : Services) → (m : Message) → AllKeep (Safe {s = s}) (Events.subscribers s m)
unfolding Events.subscribers Events.report_add_item Events.report_remove_item
KeepsSafe-subscribers s (item_add owner repo branch x z) = (
  KeepsSafe-added owner repo x z,
  (Safe-refl, (KeepsSafe-size owner repo branch, (KeepsSafe-push owner repo branch, tt))),
)
KeepsSafe-subscribers s (item_remove owner repo branch x meta) = (
  KeepsSafe-removed owner repo branch x meta,
  (Safe-refl, (KeepsSafe-size owner repo branch, (KeepsSafe-push owner repo branch, tt))),
)
KeepsSafe-subscribers s _ = tt

KeepsSafe-pusher : (s : Services) → (m : Message) → AllKeep (Safe {s = s}) (Pusher.subscribers s m)
unfolding Pusher.subscribers Pusher.send_queue_update
KeepsSafe-pusher s (send_update owner repo branch items) = (Safe-refl, tt)
KeepsSafe-pusher s _ = tt

KeepsSafe-metrics :
    (s : Services) → (m : Message) → AllKeep (Safe {s = s}) (Metrics.subscribers s m)
unfolding Metrics.subscribers Metrics.gauge Metrics.increment Metrics.histogram
KeepsSafe-metrics s (gauge name value tags) = (Safe-refl, tt)
KeepsSafe-metrics s (histogram name value tags) = (Safe-refl, tt)
KeepsSafe-metrics s (increment name value tags) = (Safe-refl, tt)
KeepsSafe-metrics s _ = tt

KeepsSafe-deliver : (s : Services) → (m : Message) → KeepsSafe (deliver s m)
unfolding deliver
KeepsSafe-deliver s m = KeepsSafe-all_of (each_detached s (all_subscribers s m)) (
    detached-AllKeep (all_subscribers s m) (
      append-AllKeep _ (Metrics.subscribers s m)
        (append-AllKeep _ (Pusher.subscribers s m)
          (append-AllKeep (Events.subscribers s m) (Push.subscribers s m)
            (KeepsSafe-subscribers s m) (KeepsSafe-notifications s m))
          (KeepsSafe-pusher s m))
        (KeepsSafe-metrics s m)))

module _ (s : Services) (Body : Type 0) (validate : Body → Option Item) where
  Step-Safe : {w w' : World s} → Step s Body validate w w' → Safe w w'
  Step-Safe {w = w} (serves c) = KeepsSafe-perform s Body validate c w
  Step-Safe {w = w} (delivers m h) = KeepsSafe-deliver s m w
  Step-Safe (turns online refusing) = (λ d. d, λ n. n)

  -- Whatever requests of GitHub and of the front end are served and whatever published messages are
  -- delivered, in any order, each running to its end before the next, and whenever the database
  -- comes, goes or rejects what is asked of it in between: if no queue holds a pull request twice
  -- before, none does after.
  pub Reach-AllDistinct :
      {w w' : World s} → Reach s Body validate w w' → AllDistinct s w → AllDistinct s w'
  Reach-AllDistinct here d = d
  Reach-AllDistinct (next r step) d = (Step-Safe step).0 (Reach-AllDistinct r d)

  -- In the same way: if everything that is stored of an installation for a token lies under the id
  -- of the installation before, then so it does after.
  pub Reach-AllNamed : {w w' : World s} → Reach s Body validate w w' → AllNamed s w → AllNamed s w'
  Reach-AllNamed here n = n
  Reach-AllNamed (next r step) n = (Step-Safe step).1 (Reach-AllNamed r n)
