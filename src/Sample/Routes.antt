-- ===== src/Sample/Routes.antt =====
-- The theorems on routes-queue.js at a branch with two bookings.
use ugo.Base.{◌++◌, ◌≡◌, refl, false, true, [], ◌∷◌, Option, none, some, if◌then◌else◌, ◌==◌}
use ugo.Model.Queue.{Item}
use ugo.World.{fulfilled, message}
use ugo.Promise.{world_of}
use ugo.QueueManager.{already_present}
use ugo.QueueManager.Bookings.{booked}
use ugo.Model.User.{User, text}
use ugo.QueueRoutes.{sent_status, Method, get, post, sent_items, delete, serve}
use ugo.QueueRoutes.Replies.{serve-present, serve-get_post}
use ugo.World.{World}
use ugo.Base.{arith, length, ◌<◌}
use ugo.QueueManager.{max_safe_integer}
use ugo.Sample.Driver.{lookup}
use ugo.Sample.Data.{
  running, new_item, new-third, state, first_item, second_item, main_id, present-first,
}

abbrev ann : User
ann = record { username = text "ann"; can_push = true; can_pull = true; is_admin = false }

-- A body is a booking; number 0 is refused.
abbrev validate : Item → Option Item
validate x = if x.pull_request_number == 0 then none else some x

abbrev removal : Method running Item validate
removal = delete second_item

serve-present_example :
    serve running Item validate ann "acme" "shop" "main" (post first_item) state
    ≡ fulfilled
        (sent_status 201 ∷ [])
        (record state { log = message (already_present "acme" "shop" "main" 1) ∷ [] })
serve-present_example =
    serve-present running Item validate ann "acme" "shop" "main" first_item first_item state refl
      refl refl present-first

abbrev cid : User
cid = record { username = text "cid"; can_push = true; can_pull = true; is_admin = false }

abbrev posted : World running
posted = world_of (serve running Item validate cid "acme" "shop" "main" (post new_item) state)

room : length (booked running state main_id) < max_safe_integer
unfolding lookup
room = omega arith

serve-get_post_example :
    serve running Item validate cid "acme" "shop" "main" get posted
    ≡ fulfilled (sent_items (booked running state main_id ++ new_item ∷ []) ∷ []) posted
serve-get_post_example =
    serve-get_post running Item validate cid "acme" "shop" "main" new_item new_item state refl refl
      refl new-third room
