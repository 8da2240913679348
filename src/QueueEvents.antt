-- ===== src/QueueEvents.antt =====
-- handler-event-queue.js: what follows when a queue changes.
pub mod Laws
use ugo.Base.{
  ℕ, String, Bool, true, false, List, [], ◌∷◌, Option, none, some, if◌then◌else◌, ℤ, concat,
}
use ugo.Model.Queue.{Item}
use ugo.Model.Message.{
  Message, Meta, item_add, item_remove, send_queue_first, send_update, increment, gauge,
}
use ugo.World.{Services, Promise, failure}
use ugo.Promise.{◌>>=◌, ◌>>◌, catch, resolve, publish, log_error, all_of}
use ugo.QueueManager as Queue
use ugo.PullRequestHandler.{is_zero, set_pull_request_status_by_position, block_pull_request}
use ugo.PullRequestHandler.Handlers.{set_all_pull_requests_statuses}

-- `queue:${owner}:${repo}:${branch}`.
abbrev pub queue_tag : String → String → String → String
queue_tag owner repo branch = concat ("queue:" ∷ owner ∷ ":" ∷ repo ∷ ":" ∷ branch ∷ [])

module _ (s : Services) where
  -- The message to the user whose pull request is now first.
  abbrev pub tell_first : String → String → Item → Promise s (Unit {0})
  tell_first owner repo x = publish (send_queue_first owner repo x.pull_request_number x.username)

  unfoldable pub add_item : String → String → Item → ℤ → Promise s (Unit {0})
  add_item owner repo x index = do
    (if is_zero index then tell_first owner repo x else resolve tt)
    catch (set_pull_request_status_by_position s owner repo x.pull_request_number index)
        (λ e. log_error (failure e))

  -- `blockRemovedItem`: a closed pull request has its last status already.
  unfoldable pub block_removed_item : String → String → Item → Meta → Promise s (Unit {0})
  block_removed_item owner repo x meta =
      if meta.closed then resolve tt else block_pull_request s owner repo x.pull_request_number none

  abbrev pub tell_if_there : String → String → Option Item → Promise s (Unit {0})
  tell_if_there owner repo none = resolve tt
  tell_if_there owner repo (some x) = tell_first owner repo x

  -- `notifyOnFirstItemChanged`.
  unfoldable pub notify_on_first_item_changed :
      String → String → String → Meta → Promise s (Unit {0})
  notify_on_first_item_changed owner repo branch meta =
      if meta.first_item_changed
      then (Queue.get_first_item s owner repo branch >>= tell_if_there owner repo)
      else resolve tt

  unfoldable pub remove_item : String → String → String → Item → Meta → Promise s (Unit {0})
  remove_item owner repo branch x meta =
      catch
        (all_of (
          block_removed_item owner repo x meta
          ∷ notify_on_first_item_changed owner repo branch meta
          ∷ set_all_pull_requests_statuses s owner repo branch
          ∷ []))
        (λ e. log_error (failure e))

  unfoldable pub report_add_item : String → String → String → Promise s (Unit {0})
  report_add_item owner repo branch =
      publish (increment "queue.item.add" none (queue_tag owner repo branch ∷ []))

  unfoldable pub report_remove_item : String → String → String → Promise s (Unit {0})
  report_remove_item owner repo branch =
      publish (increment "queue.item.remove" none (queue_tag owner repo branch ∷ []))

  unfoldable pub report_queue_size : String → String → String → Promise s (Unit {0})
  report_queue_size owner repo branch = do
    n ← Queue.get_length s owner repo branch
    publish (gauge "queue.length" (some n) (queue_tag owner repo branch ∷ []))

  unfoldable pub push_queue_update : String → String → String → Promise s (Unit {0})
  push_queue_update owner repo branch = do
    items ← Queue.get_items s owner repo branch
    publish (send_update owner repo branch items)

  -- The callbacks of this file that are subscribed to a message, in the order of subscription.
  unfoldable pub subscribers : Message → List (Promise s (Unit {0}))
  subscribers (item_add owner repo branch x index) =
      add_item owner repo x index
      ∷ report_add_item owner repo branch
      ∷ report_queue_size owner repo branch
      ∷ push_queue_update owner repo branch
      ∷ []
  subscribers (item_remove owner repo branch x meta) =
      remove_item owner repo branch x meta
      ∷ report_remove_item owner repo branch
      ∷ report_queue_size owner repo branch
      ∷ push_queue_update owner repo branch
      ∷ []
  subscribers _ = []
