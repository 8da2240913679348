-- ===== src/QueueManager/Order.antt =====
-- manager-queue.js: the order in which a branch is served.
use mathlib.Core.List.{Sublist, sublist-append_left, append_assoc}
use mathlib.Core.List.Sublist
use ugo.Base.{
  ◌≡◌, String, Bool, true, List, [], ◌∷◌, ◌++◌, if◌then◌else◌, inl, inr, str_eq, keep, any,
  Bool-cases, subst,
}
use ugo.Model.Queue.{Item, has_number}
use ugo.World.{Services, World}
use ugo.QueueManager.{queue_id}
use ugo.QueueManager.Bookings.{booked}
use ugo.QueueManager.Refinement.{
  Call, adds, removes, effects, book, cancel, after_calls, booked-after_calls,
}

-- The items that calls add under an `_id`, in the order of the calls.
abbrev pub additions : String → List Call → List Item
additions k [] = []
additions k (adds owner repo branch x ∷ cs) =
    if str_eq (queue_id owner repo branch) k then x ∷ additions k cs else additions k cs
additions k (removes owner repo branch x meta ∷ cs) = additions k cs

keep-sublist : (p : Item → Bool) (xs : List Item) → Sublist (keep p xs) xs
keep-sublist p [] = Sublist.refl []
keep-sublist p (x ∷ xs) = elim (Bool-cases (p x)) [
  | inl yes_it ↦ rw yes_it (Sublist.cons-cons x (keep-sublist p xs))
  | inr not_it ↦ rw not_it (Sublist.cons x (keep-sublist p xs))
]

book-sublist : (x : Item) (xs : List Item) → Sublist (book x xs) (xs ++ x ∷ [])
book-sublist x xs = elim (Bool-cases (any (has_number x.pull_request_number) xs)) [
  | inl there ↦ rw there (sublist-append_left xs (x ∷ []))
  | inr new ↦ rw new (Sublist.refl (xs ++ x ∷ []))
]

effects-sublist :
    (cs : List Call) (k : String) (xs : List Item)
    → Sublist (effects cs k xs) (xs ++ additions k cs)
effects-sublist [] k xs = sublist-append_left xs []
effects-sublist (adds owner repo branch x ∷ cs) k xs =
    elim (Bool-cases (str_eq (queue_id owner repo branch) k)) [
      | inl here ↦ rw (here) (
          Sublist.trans (effects-sublist cs k (book x xs)) (
            subst (Sublist (book x xs ++ additions k cs))
              (append_assoc xs (x ∷ []) (additions k cs))
              (Sublist.append (book-sublist x xs) (Sublist.refl (additions k cs)))))
      | inr elsewhere ↦ rw elsewhere (effects-sublist cs k xs)
    ]
effects-sublist (removes owner repo branch x meta ∷ cs) k xs =
    elim (Bool-cases (str_eq (queue_id owner repo branch) k)) [
      | inl here ↦ rw here (
          Sublist.trans (effects-sublist cs k (cancel x xs))
            (Sublist.append (keep-sublist _ xs) (Sublist.refl (additions k cs))))
      | inr elsewhere ↦ rw elsewhere (effects-sublist cs k xs)
    ]

-- First come, first served: where the database answers, after any sequence of calls of addItem and
-- removeItem every queue is what it was followed by what was added to it, in that order, with some
-- items left out.
pub after_calls-sublist :
    (s : Services) (cs : List Call) (w : World s) (k : String)
    → w.online ≡ true
    → Sublist (booked s (after_calls s w cs) k) (booked s w k ++ additions k cs)
after_calls-sublist s cs w k on =
    rw (booked-after_calls s cs w k on) (effects-sublist cs k (booked s w k))
