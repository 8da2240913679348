-- ===== src/QueueManager.antt =====
-- manager-queue.js: the booking queue of a branch, a document of the collection `queue`.
pub mod Bookings
pub mod Effects
pub mod Queries
pub mod Unique
pub mod Refinement
pub mod Ids
pub mod Shared
pub mod Order
use ugo.Base.{
  ℕ, zero, suc, String, Bool, true, false, List, [], ◌∷◌, Option, none, some, if◌then◌else◌, ◌==◌,
  dashed, concat, decimal, length, ℤ, pos, negsuc,
}
use ugo.Mongo.{Options, duplicate_key}
use ugo.Model.Queue.{
  Item, QueueDocument, items, Condition, always, lacks_number, owner_is, Update, set_and_push, pull,
  slice, elem_match,
}
use ugo.Model.Message.{Meta, item_add, item_remove}
use ugo.World.{Services, World, fulfilled, Promise, Failure, driver_error, message, failure}
use ugo.Promise.{
  has_database, ◌>>=◌, ◌>>◌, catch, resolve, publish, log_error, get_collection, from_driver,
}

-- `${owner}-${repo}-${branch}`.
abbrev pub queue_id : String → String → String → String
queue_id owner repo branch = dashed owner (dashed repo branch)

abbrev pub max_safe_integer : ℕ
max_safe_integer = 9007199254740991

abbrev pub no_meta : Meta
no_meta = record { closed = false; first_item_changed = false }

-- `pathOr([], ['queue'], value)`.
abbrev pub queue_of : Option QueueDocument → List Item
queue_of none = []
queue_of (some d) = items d.queue

-- `pathOr(undefined, [0])`.
abbrev pub head? {ℓ} : {A : Type ℓ} → List A → Option A
head? [] = none
head? (x ∷ xs) = some x

-- `pathOr([], ['queue'])` and `pathOr(undefined, ['queue', 0])` of a projected document.
abbrev pub queue_in : Option (Option (List Item)) → List Item
queue_in none = []
queue_in (some q) = items q

-- `n - 1`, also where n is 0.
abbrev pub last_index : ℕ → ℤ
last_index zero = negsuc 0
last_index (suc n) = pos n

-- Whether an item that may be missing has a number: `first.pullRequestNumber === number`.
abbrev pub is_number : Option Item → ℕ → Bool
is_number none n = false
is_number (some x) n = x.pull_request_number == n

abbrev pub already_present : String → String → String → ℕ → String
already_present owner repo branch n =
    concat ("PR #" ∷ decimal n ∷ " already present in " ∷ owner ∷ "/" ∷ repo ∷ " " ∷ branch ∷ [])

module _ (s : Services) where
  open s use {queue_collection, queue_sizes}

  -- `collection.findOneAndUpdate`, and its `value`.
  abbrev pub update_queue : String → Condition → Update → Options → Promise s (Option QueueDocument)
  update_queue k f u o w =
      let r = queue_collection.find_one_and_update k f u o w.queues in
      from_driver r.1 (record w { queues = r.0 })

  -- The handler of `catch` in `addItem`: `e.code === 11000`.
  abbrev pub report_add_failure : String → String → String → ℕ → Failure → Promise s (Unit {0})
  report_add_failure owner repo branch n (driver_error code) = log_error (
      if code == duplicate_key
      then message (already_present owner repo branch n)
      else failure (driver_error code))
  report_add_failure owner repo branch n e = log_error (failure e)

  unfoldable pub delete_queue : String → Promise s String
  delete_queue owner = do
    get_collection
    λ w.
        fulfilled owner
          (record w { queues = queue_collection.delete_many (owner_is owner) w.queues })

  unfoldable pub add_item : String → String → String → Item → Promise s (Unit {0})
  add_item owner repo branch item =
      catch
        (do
          get_collection
          value ←
              update_queue (queue_id owner repo branch) (lacks_number item.pull_request_number)
                (set_and_push owner repo item) (record { return_original = false; upsert = true })
          publish (item_add owner repo branch item (last_index (length (queue_of value)))))
        (report_add_failure owner repo branch item.pull_request_number)

  unfoldable pub remove_item : String → String → String → Item → Meta → Promise s (Unit {0})
  remove_item owner repo branch item meta = do
    get_collection
    value ←
        update_queue (queue_id owner repo branch) always
          (pull item.username item.pull_request_number)
          (record { return_original = true; upsert = false })
    publish (
        item_remove owner repo branch item (record meta {
          first_item_changed = is_number (head? (queue_of value)) item.pull_request_number;
        }))

  -- `getItems` with its number of items.
  unfoldable pub get_some_items : String → String → String → ℕ → Promise s (List Item)
  get_some_items owner repo branch n = do
    get_collection
    λ w.
        fulfilled
          (queue_in (queue_collection.find_by_id (queue_id owner repo branch) (slice n) w.queues)) w

  -- `getItems` with the default for it.
  unfoldable pub get_items : String → String → String → Promise s (List Item)
  get_items owner repo branch = get_some_items owner repo branch max_safe_integer

  unfoldable pub get_item : String → String → String → ℕ → Promise s (Option Item)
  get_item owner repo branch n = do
    get_collection
    λ w.
        fulfilled
          (head? (
            queue_in
              (queue_collection.find_by_id (queue_id owner repo branch) (elem_match n) w.queues)))
          w

  unfoldable pub get_first_item : String → String → String → Promise s (Option Item)
  get_first_item owner repo branch = do xs ← get_some_items owner repo branch 1; resolve (head? xs)

  -- `pathOr(0, [0, 'queue'])` of the aggregate's rows.
  abbrev first_size : List ℕ → ℕ
  first_size [] = 0
  first_size (n ∷ ns) = n

  unfoldable pub get_length : String → String → String → Promise s ℕ
  get_length owner repo branch = do
    get_collection
    sizes ← λ w. from_driver (queue_sizes (queue_id owner repo branch) w.queues) w
    resolve (first_size sizes)

  abbrev pub enabled : World s → Bool
  enabled w = has_database w
