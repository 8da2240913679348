-- ===== src/QueueManager/Refinement.antt =====
-- manager-queue.js as an abstract queue for every `_id`, with abstract operations on a list.
use ugo.Base.{
  ◌≡◌, refl, ap, ◌∙◌, String, true, not, List, [], ◌∷◌, ◌++◌, if◌then◌else◌, inl, inr, str_eq, any,
  keep, arith, Bool-cases, str_eq_iff,
}
use ugo.Model.Queue.{Item, has_number, is_booking}
use ugo.Model.Message.{Meta}
use ugo.World.{Services, World}
use ugo.Promise.{world_of}
use ugo.QueueManager.{queue_id, add_item, remove_item}
use ugo.QueueManager.Bookings.{booked}
use ugo.QueueManager.Effects.{booked-add_item, add_item_present, remove_item_lem, online-add_item}

-- A call of `addItem` or `removeItem`.
pub data Call : Type 0 where
  adds : String → String → String → Item → Call
  removes : String → String → String → Item → Meta → Call

-- The call when it has settled, and a sequence of them.
unfoldable pub after_call : (s : Services) → World s → Call → World s
after_call s w (adds owner repo branch x) = world_of (add_item s owner repo branch x w)
after_call s w (removes owner repo branch x meta) =
    world_of (remove_item s owner repo branch x meta w)

unfoldable pub after_calls : (s : Services) → World s → List Call → World s
after_calls s w [] = w
after_calls s w (c ∷ cs) = after_calls s (after_call s w c) cs

-- The abstract operations on one list.
abbrev pub book : Item → List Item → List Item
book x xs = if any (has_number x.pull_request_number) xs then xs else xs ++ x ∷ []

abbrev pub cancel : Item → List Item → List Item
cancel x = keep (λ y. not (is_booking x.username x.pull_request_number y))

-- What a call does to the list under an `_id`.
abbrev pub effect : Call → String → List Item → List Item
effect (adds owner repo branch x) k xs =
    if str_eq (queue_id owner repo branch) k then book x xs else xs
effect (removes owner repo branch x meta) k xs =
    if str_eq (queue_id owner repo branch) k then cancel x xs else xs

abbrev pub effects : List Call → String → List Item → List Item
effects [] k xs = xs
effects (c ∷ cs) k xs = effects cs k (effect c k xs)

module _ (s : Services) where
  pub online-after_call : (w : World s) (c : Call) → (after_call s w c).online ≡ w.online
  unfolding after_call remove_item
  online-after_call w (adds owner repo branch x) = online-add_item s owner repo branch x w
  online-after_call w (removes owner repo branch x meta) = ground arith

  pub booked-after_call :
      (w : World s) (c : Call) (k : String)
      → w.online ≡ true
      → booked s (after_call s w c) k ≡ effect c k (booked s w k)
  unfolding after_call
  booked-after_call w (adds owner repo branch x) k on =
      elim (Bool-cases
        (any (has_number x.pull_request_number) (booked s w (queue_id owner repo branch)))) [
          | inl present ↦
              rw (add_item_present s owner repo branch x w on present)
                (ground (arith, str_eq_iff (queue_id owner repo branch) k))
          | inr new ↦ ground (
            arith,
            booked-add_item s owner repo branch x w on new k,
            str_eq_iff (queue_id owner repo branch) k,
          )
        ]
  booked-after_call w (removes owner repo branch x meta) k on =
      let (t, e, after) = remove_item_lem s owner repo branch x w meta on in rw e (after k)

  -- Where the database answers, any sequence of calls of addItem and removeItem leaves under every
  -- `_id` the list that the abstract operations leave: an addition appends an item if its number is
  -- not in the list, a removal takes out the items with its user and number, and calls with another
  -- `_id` change nothing.
  pub booked-after_calls :
      (cs : List Call) (w : World s) (k : String)
      → w.online ≡ true
      → booked s (after_calls s w cs) k ≡ effects cs k (booked s w k)
  unfolding after_calls
  booked-after_calls [] w k on = refl
  booked-after_calls (c ∷ cs) w k on =
      booked-after_calls cs (after_call s w c) k (online-after_call w c ∙ on)
      ∙ ap (effects cs k) (booked-after_call w c k on)
