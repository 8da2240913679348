-- ===== src/PullRequestHandler/Position.antt =====
-- handler-pullrequest.js: the status that a pull request gets at its place in the queue.
use ugo.Base.{
  ℕ, zero, suc, ◌≡◌, ◌↔◌, refl, inl, inr, String, false, List, [], ◌∷◌, none, if◌then◌else◌, ℤ, pos,
  negsuc, next_index, arith, any, Bool-cases,
}
use ugo.Model.Queue.{Item, has_number}
use ugo.World.{Services, num}
use ugo.GitHub.CombinedStatus.{status_success, status_failure}
use ugo.QueueManager.{is_number, head?}
use ugo.PullRequestHandler.{
  position_of, actions_for, is_zero, set_pull_request_status_by_position,
  get_pull_request_and_update_status, block_pull_request, unblock_pull_request,
}

is_zero-next_index : (z : ℤ) → is_zero (next_index z) ≡ false
is_zero-next_index (pos i) = ground arith
is_zero-next_index (negsuc i) = refl

-- A place in the queue as `findIndex` gives it: the index of the first booking with the number.
pub position_of-first :
    (n : ℕ) (xs : List Item) → is_zero (position_of n xs) ≡ is_number (head? xs) n
position_of-first n [] = refl
position_of-first n (x ∷ xs) = elim (Bool-cases (has_number n x)) [
  | inl here ↦ rw here refl
  | inr later ↦ rw later (is_zero-next_index (position_of n xs))
]

pub position_of-none :
    (n : ℕ) (xs : List Item) → (position_of n xs ≡ negsuc 0) ↔ (any (has_number n) xs ≡ false)
position_of-none n [] = (λ _. refl, λ _. refl)
position_of-none n (x ∷ xs) =
    (λ e. ground (arith, position_of-none n xs), λ e. ground (arith, position_of-none n xs))

module _ (s : Services) where
  open s use {localize}

  -- The action buttons of a check run are left out, whatever the environment and the description
  -- are.
  pub actions_for-none : (description : String) → actions_for s description ≡ none
  unfolding actions_for
  actions_for-none description = ground arith

  -- What a pull request gets at a place: success at the head of the queue, failure elsewhere.
  abbrev pub status_at : ℤ → String
  status_at (pos zero) = status_success
  status_at (pos (suc i)) = status_failure
  status_at (negsuc i) = status_failure

  abbrev pub title_at : ℤ → String
  title_at (negsuc i) = localize "pullRequest.queue.not" []
  title_at (pos zero) = localize "pullRequest.queue.first" []
  title_at (pos (suc zero)) = localize "pullRequest.queue.second" (("position", num 1) ∷ [])
  title_at (pos (suc (suc zero))) = localize "pullRequest.queue.position" (("position", num 2) ∷ [])
  title_at (pos (suc (suc (suc zero)))) =
      localize "pullRequest.queue.position" (("position", num 3) ∷ [])
  title_at (pos (suc (suc (suc (suc zero))))) =
      localize "pullRequest.queue.position" (("position", num 4) ∷ [])
  title_at (pos (suc (suc (suc (suc (suc zero)))))) =
      localize "pullRequest.queue.position" (("position", num 5) ∷ [])
  title_at (pos (suc (suc (suc (suc (suc (suc i))))))) =
      localize "pullRequest.queue.over" (("number", num 5) ∷ [])

  -- At every index, setPullRequestStatusByPosition makes the check run with the status and the
  -- title that a table by cases gives for the index: success at 0, failure elsewhere, and a title
  -- of its own for no place, the places 0 and 1, those up to 5, and those above.
  pub set_status_at :
      (owner repo : String) (n : ℕ) (index : ℤ)
      → set_pull_request_status_by_position s owner repo n index
        ≡ get_pull_request_and_update_status s owner repo n (status_at index) (title_at index)
  unfolding set_pull_request_status_by_position block_pull_request unblock_pull_request
  set_status_at owner repo n (negsuc i) = refl
  set_status_at owner repo n (pos zero) = refl
  set_status_at owner repo n (pos (suc zero)) = refl
  set_status_at owner repo n (pos (suc (suc zero))) = refl
  set_status_at owner repo n (pos (suc (suc (suc zero)))) = refl
  set_status_at owner repo n (pos (suc (suc (suc (suc zero))))) = refl
  set_status_at owner repo n (pos (suc (suc (suc (suc (suc zero)))))) = refl
  set_status_at owner repo n (pos (suc (suc (suc (suc (suc (suc i))))))) = ground arith

  status_at-is_zero : (z : ℤ) → status_at z ≡ (if is_zero z then status_success else status_failure)
  status_at-is_zero (pos zero) = refl
  status_at-is_zero (pos (suc i)) = ground arith
  status_at-is_zero (negsuc i) = refl

  -- The status that belongs to the index of a pull request in a list of bookings is a success if
  -- its number is that of the first booking, and a failure if not.
  pub status_at-position_of :
      (n : ℕ) (xs : List Item)
      → status_at (position_of n xs)
        ≡ (if is_number (head? xs) n then status_success else status_failure)
  status_at-position_of n xs = rw (status_at-is_zero (position_of n xs), position_of-first n xs)
