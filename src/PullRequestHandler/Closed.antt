-- ===== src/PullRequestHandler/Closed.antt =====
-- handler-pullrequest.js, `handleClosed`: a pull request is closed.
use ugo.Base.{
  ℕ, ◌≡◌, ◌≢◌, refl, sym, ◌∙◌, subst, inl, inr, String, Bool, true, false, not, List, [], ◌∷◌, ◌++◌,
  Option, none, some, if◌then◌else◌, ==_iff, str_eq, str_eq_iff, str_eq_refl, any, find?, arith,
  Bool-cases, Option-cases,
}
use ugo.Model.Queue.{Item, has_number, is_booking}
use ugo.Model.Message.{info_delete}
use ugo.World.{Services, World, Promise, fulfilled, rejected, Settled}
use ugo.Promise.{◌>>=◌, settle_then, resolve, world_of}
use ugo.GitHub.Frame.{SameStore}
use ugo.PullRequestManager.{delete_pull_request_info}
use ugo.PullRequestManager.Effects.{known, document_at, delete_pull_request_info_lem}
use ugo.QueueManager.{queue_id, get_item}
use ugo.QueueManager.Bookings.{booked, bookings}
use ugo.QueueManager.Queries.{get_item_lem}
use ugo.QueueManager.Effects.{remove_item_lem}
use ugo.QueueManager.Unique.{Distinct, any-keep}
use ugo.QueueManager.Refinement.{cancel}
use ugo.PullRequestHandler.{PullRequest, Location, location_of}
use ugo.PullRequestHandler.Handlers.{
  handle_closed, merge_description, remove_if_there, block_or_unblock,
}
use ugo.PullRequestHandler.Statuses.{id_of}
use ugo.PullRequestHandler.Frame.{KeepsStore-block_or_unblock}

-- The queue without the booking that `getItem` finds.
abbrev pub without : Option Item → List Item → List Item
without none xs = xs
without (some x) xs = cancel x xs

cancel-gone :
    (n : ℕ) (x : Item) (xs : List Item)
    → Distinct xs
    → find? (has_number n) xs ≡ some x
    → any (has_number n) (cancel x xs) ≡ false
cancel-gone n x [] d e = refl
cancel-gone n x (y ∷ ys) (fresh, d) e = elim (Bool-cases (has_number n y)) [
  | inl here ↦ ground (
    arith,
    str_eq_refl y.username,
    ==_iff y.pull_request_number n,
    any-keep (has_number n) (λ z. not (is_booking y.username y.pull_request_number z)) ys,
  )
  | inr later ↦ ground (arith, cancel-gone n x ys d)
]

find?-none :
    (n : ℕ) (xs : List Item) → find? (has_number n) xs ≡ none → any (has_number n) xs ≡ false
find?-none n [] e = refl
find?-none n (y ∷ ys) e = ground (arith, find?-none n ys)

pub without-gone :
    (n : ℕ) (xs : List Item)
    → Distinct xs
    → any (has_number n) (without (find? (has_number n) xs) xs) ≡ false
without-gone n xs d = elim (Option-cases (find? (has_number n) xs)) [
  | inl absent ↦ rw absent (find?-none n xs absent)
  | inr (x, found) ↦ rw found (cancel-gone n x xs d found)
]

module _ (s : Services) where
  settle_then-fulfilled :
      {A B : Type 0} (r : Settled s A) (f : A → Promise s B) {b : B} {w' : World s}
      → settle_then r f ≡ fulfilled b w'
      → (a : A) × (w : World s) × (r ≡ fulfilled a w) × (f a w ≡ fulfilled b w')
  settle_then-fulfilled (fulfilled a w) f e = (a, w, refl, e)
  settle_then-fulfilled (rejected x w) f e = cc

  -- The state after the booking that was found is removed, if one was found.
  pub remove_if_there_lem :
      (owner repo branch : String) (found : Option Item) (w : World s)
      → w.online ≡ true
      → (w' : World s) × (remove_if_there s owner repo branch found w ≡ fulfilled tt w')
        × (w'.online ≡ true)
        × (w'.pull_requests ≡ w.pull_requests)
        × ((j : String)
            → booked s w' j ≡ (
                if str_eq (queue_id owner repo branch) j
                then without found (booked s w j)
                else booked s w j))
  remove_if_there_lem owner repo branch none w on = (w, refl, on, refl, λ j. ground arith)
  remove_if_there_lem owner repo branch (some x) w on =
      let (t, e, after) =
        remove_item_lem s owner repo branch x w
          (record { closed = true; first_item_changed = false }) on in
      (
        world_of (remove_if_there s owner repo branch (some x) w),
        rw e refl,
        rw e on,
        rw e refl,
        rw e after,
      )

  merge_description-same :
      (merged : Bool) (by_user d : Option String) (w w' : World s)
      → merge_description s merged by_user w ≡ fulfilled d w'
      → w' ≡ w
  merge_description-same false by_user d w w' e = ground arith
  merge_description-same true none d w w' e = cc
  merge_description-same true (some u) d w w' e = ground arith

  -- What a closed pull request leaves behind: its booking is gone from the queue of its base branch
  -- and what is known of it is deleted; other queues and other pull requests are as they were.
  pub record IsClosed (p : PullRequest) (w w' : World s) : Type 0 where
    pub left :
        any (has_number p.number) (booked s w' (queue_id p.base_owner p.base_repo p.base_ref))
        ≡ false
    pub other_queues :
        (j : String)
        → queue_id p.base_owner p.base_repo p.base_ref ≢ j
        → booked s w' j ≡ booked s w j
    pub unknown : known s w' (id_of p) ≡ none
    pub others_known : (j : String) → id_of p ≢ j → known s w' j ≡ known s w j

  -- The steps after the description is known.
  abbrev pub closing : PullRequest → Option String → Promise s Location
  closing p d = get_item s p.base_owner p.base_repo p.base_ref p.number >>= λ found.
      remove_if_there s p.base_owner p.base_repo p.base_ref found >>= λ _.
      block_or_unblock s p.merged p.base_owner p.base_repo p.number d >>= λ _.
      delete_pull_request_info s p.base_owner p.base_repo p.number >>= λ _. resolve (location_of p)

  closing-IsClosed :
      (p : PullRequest) (d : Option String) (w w' : World s) (l : Location)
      → w.online ≡ true
      → Distinct (booked s w (queue_id p.base_owner p.base_repo p.base_ref))
      → closing p d w ≡ fulfilled l w'
      → (l ≡ location_of p) × IsClosed p w w'
  closing-IsClosed p d w w' l on distinct e =
      let id = queue_id p.base_owner p.base_repo p.base_ref in
      let xs = booked s w id in
      let found = find? (has_number p.number) xs in
      let (w1, e1, on1, same1, after1) =
        remove_if_there_lem p.base_owner p.base_repo p.base_ref found w on in
      let (u, w2, e2, r2) =
        settle_then-fulfilled (block_or_unblock s p.merged p.base_owner p.base_repo p.number d w1)
          (λ _. delete_pull_request_info s p.base_owner p.base_repo p.number >>= λ _.
            resolve (location_of p))
          (rw (get_item_lem s p.base_owner p.base_repo p.base_ref w on p.number, e1) at e) in
      let kept : SameStore w1 w2 =
        subst (λ r. SameStore w1 (world_of r)) e2
          (KeepsStore-block_or_unblock s p.merged p.base_owner p.base_repo p.number d w1) in
      let (t, e3, after3) =
        delete_pull_request_info_lem s w2 (kept.online ∙ on1) p.base_owner p.base_repo p.number in
      let last : fulfilled (location_of p) (record w2 {
        pull_requests = t;
        published = w2.published ++ info_delete p.base_owner p.base_repo p.number ∷ [];
      })
          ≡ fulfilled l w' =
        rw e3 at r2 in
      let queues : w'.queues ≡ w1.queues = ground (arith, last, kept.queues) in
      let infos : w'.pull_requests ≡ t = ground (arith, last) in
      let before : w2.pull_requests ≡ w.pull_requests = kept.pull_requests ∙ same1 in
      let now = λ (j : String).
        subst
          (λ q.
            bookings s q j ≡ (if str_eq id j then without found (booked s w j) else booked s w j))
          (sym queues) (after1 j) in
      let docs = λ (j : String).
        subst
          (λ q.
            document_at s q j
            ≡ (if str_eq (id_of p) j then none else document_at s w.pull_requests j))
          (sym infos)
          (subst (λ q. document_at s t j ≡ (if str_eq (id_of p) j then none else document_at s q j))
            before (after3 j)) in
      (
        ground (arith, last),
        record {
          left = ground (arith, now id, str_eq_refl id, without-gone p.number xs distinct);
          other_queues = λ j ne. ground (arith, now j, str_eq_iff id j);
          unknown = ground (arith, docs (id_of p), str_eq_refl (id_of p));
          others_known = λ j ne. ground (arith, docs j, str_eq_iff (id_of p) j);
        },
      )

  -- Where the database answers and the queue of the base branch holds no pull request twice: if
  -- handleClosed is fulfilled, whatever GitHub answered on the way, it returns the pull request's
  -- location, its booking is gone from the queue, what is known of it is deleted, and other queues
  -- and other pull requests are as they were.
  pub handle_closed-IsClosed :
      (p : PullRequest) (w w' : World s) (l : Location)
      → w.online ≡ true
      → Distinct (booked s w (queue_id p.base_owner p.base_repo p.base_ref))
      → handle_closed s p w ≡ fulfilled l w'
      → (l ≡ location_of p) × IsClosed p w w'
  unfolding handle_closed
  handle_closed-IsClosed p w w' l on distinct e =
      let (d, w0, e0, r0) =
        settle_then-fulfilled (merge_description s p.merged p.merged_by w) (closing p) e in
      let same = merge_description-same p.merged p.merged_by d w w0 e0 in
      closing-IsClosed p d w w' l on distinct (subst (λ v. closing p d v ≡ fulfilled l w') same r0)
