-- ===== src/Sample/Queue.antt =====
-- The theorems on manager-queue.js at a branch with two bookings.
use ugo.Base.{◌≡◌, refl, String, false, List, [], ◌∷◌, ◌++◌, dashed, length, ◌<◌, arith, any}
use mathlib.Core.List.{Sublist}
use ugo.World.{World, fulfilled}
use ugo.Promise.{world_of}
use ugo.QueueManager.{
  head?, is_number, max_safe_integer, queue_id, add_item, no_meta, get_items, remove_item,
}
use ugo.QueueManager.Bookings.{booked, bookings}
use ugo.QueueManager.Effects.{remove_item_absent}
use ugo.QueueManager.Refinement.{Call, adds, removes, after_calls, effects, booked-after_calls}
use ugo.QueueManager.Order.{additions, after_calls-sublist}
use ugo.Model.Queue.{Item, has_number, is_booking}
use ugo.Model.Message.{item_remove}
use ugo.QueueManager.Shared.{get_items-add_item_shared}
use ugo.Sample.Driver.{lookup}
use ugo.Sample.Data.{running, state, first_item, new_item, main_id, added}

abbrev calls : List Call
calls = adds "acme" "shop" "main" new_item ∷ removes "acme" "shop" "main" first_item no_meta ∷ []

booked-after_calls_example :
    booked running (after_calls running state calls) main_id
    ≡ effects calls main_id (booked running state main_id)
booked-after_calls_example = booked-after_calls running calls state main_id refl

after_calls-sublist_example :
    Sublist
      (booked running (after_calls running state calls) main_id)
      (booked running state main_id ++ additions main_id calls)
after_calls-sublist_example = after_calls-sublist running calls state main_id refl

abbrev shared_id : String
shared_id = queue_id "acme" "shop" (dashed "app" "main")

unbooked : any (has_number 3) (booked running state shared_id) ≡ false
unfolding lookup
unbooked = refl

short : length (booked running state shared_id) < max_safe_integer
unfolding lookup
short = omega arith

abbrev shared : World running
shared = world_of (add_item running "acme" (dashed "shop" "app") "main" new_item state)

get_items-add_item_shared_example :
    get_items running "acme" "shop" (dashed "app" "main") shared
    ≡ fulfilled (booked running state shared_id ++ new_item ∷ []) shared
get_items-add_item_shared_example =
    get_items-add_item_shared running "acme" "shop" "app" "main" new_item state refl unbooked short

abbrev other_user : Item
other_user = record first_item { username = "bob" }

not_booked : any (is_booking "bob" 1) (booked running state main_id) ≡ false
unfolding lookup
not_booked = refl

remove_item_absent_example :
    (t : running.QueueTable) × (remove_item running "acme" "shop" "main" other_user no_meta state
      ≡ fulfilled tt (record state {
        queues = t;
        published =
            added
            ∷ item_remove "acme" "shop" "main" other_user (record no_meta {
              first_item_changed = is_number (head? (booked running state main_id)) 1;
            })
            ∷ [];
      }))
    × ((j : String) → bookings running t j ≡ booked running state j)
remove_item_absent_example =
    remove_item_absent running "acme" "shop" "main" other_user no_meta state refl not_booked
