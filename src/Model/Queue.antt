-- ===== src/Model/Queue.antt =====
-- manager-queue.js: the documents of the collection `queue`, and its queries as the file writes them.
use ugo.Base.{
  ℕ, String, ◌≡◌, Bool, true, false, not, ◌&&◌, List, [], ◌∷◌, ◌++◌, Option, none, some, ◌==◌,
  str_eq, any, keep, take, find?,
}
use mathlib.Core.Option
use ugo.Mongo.{Collection}

-- A booking; `created_at` is a number of milliseconds.
pub record Item : Type 0 where
  pub username : String
  pub pull_request_number : ℕ
  pub created_at : ℕ

-- Keys that a document lacks are `none`.
pub record QueueDocument : Type 0 where
  pub owner : Option String
  pub repo : Option String
  pub queue : Option (List Item)

-- `{}`, `{ 'queue.pullRequestNumber': { $ne: n } }` and `{ owner }`.
pub data Condition : Type 0 where
  always : Condition
  lacks_number : ℕ → Condition
  owner_is : String → Condition

-- `{ $set: { owner, repo }, $push: { queue: item } }` and
-- `{ $pull: { queue: { username, pullRequestNumber } } }`.
pub data Update : Type 0 where
  set_and_push : String → String → Item → Update
  pull : String → ℕ → Update

-- `{ queue: { $slice: n } }` and `{ queue: { $elemMatch: { pullRequestNumber: n } } }`.
pub data Projection : Type 0 where
  slice : ℕ → Projection
  elem_match : ℕ → Projection

abbrev pub items : Option (List Item) → List Item
items none = []
items (some xs) = xs

abbrev pub has_number : ℕ → Item → Bool
has_number n x = x.pull_request_number == n

abbrev pub is_booking : String → ℕ → Item → Bool
is_booking username n x = str_eq x.username username && x.pull_request_number == n

-- The array that `$elemMatch` leaves: the first match alone, or no array.
abbrev pub singleton? : Option Item → Option (List Item)
singleton? none = none
singleton? (some x) = some (x ∷ [])

-- A key with this text.
abbrev pub is_text : Option String → String → Bool
is_text none s = false
is_text (some r) s = str_eq r s

-- The documented meaning of the operators, for the queries of the file.
pub record IsQueueQueries {T : Type 0}
    (c : Collection T QueueDocument Condition Update Projection (Option (List Item))) : Type 0 where
  pub satisfies-always : (d : QueueDocument) → c.satisfies always d ≡ true
  pub satisfies-lacks_number :
      (n : ℕ) (d : QueueDocument)
      → c.satisfies (lacks_number n) d ≡ not (any (has_number n) (items d.queue))
  pub satisfies-owner_is :
      (owner : String) (d : QueueDocument) → c.satisfies (owner_is owner) d ≡ is_text d.owner owner
  pub blank-eq : c.blank ≡ record { owner = none; repo = none; queue = none }
  pub apply-set_and_push :
      (owner repo : String) (x : Item) (d : QueueDocument)
      → c.apply (set_and_push owner repo x) d
        ≡ record { owner = some owner; repo = some repo; queue = some (items d.queue ++ x ∷ []) }
  pub apply-pull :
      (username : String) (n : ℕ) (d : QueueDocument)
      → c.apply (pull username n) d
        ≡ record d { queue = Option.map (keep (λ x. not (is_booking username n x))) d.queue }
  pub project-slice :
      (n : ℕ) (d : QueueDocument) → c.project (slice n) d ≡ Option.map (take n) d.queue
  pub project-elem_match :
      (n : ℕ) (d : QueueDocument)
      → c.project (elem_match n) d ≡ singleton? (find? (has_number n) (items d.queue))
