-- ===== src/Mongo.antt =====
-- The mongodb driver, which is not in the repository: a collection is a record of the driver's
-- operations with their documented behaviour. `T` is the stored collection, `D` a document, `C` the
-- conditions of a filter on other keys than `_id`, `U` an update, `P` a projection and `V` a
-- projected document. The operations are those of a database that answers; one that rejects every
-- query is a state of World.
use ugo.Base.{
  String, ◌≡◌, Bool, true, false, List, Option, none, some, ℕ, if◌then◌else◌, str_eq, reject,
}
use mathlib.Core.Option
use mathlib.Core.List.{Memᴰ}

-- What an operation answers; `failed` holds the code of the error.
pub data Answer {ℓ} (A : Type ℓ) : Type ℓ where
  answered : A → Answer A
  failed : ℕ → Answer A

-- The code of a write that repeats a unique key.
abbrev pub duplicate_key : ℕ
duplicate_key = 11000

-- `{ returnOriginal, upsert }`.
pub record Options : Type 0 where
  pub return_original : Bool
  pub upsert : Bool

pub record Collection (T D C U P V : Type 0) : Type 0 where
  -- What lies under an `_id`, and the collection with a document put there.
  pub stored : T → String → Option D
  pub write : String → D → T → T
  -- The meaning of conditions, updates and projections, and the document that an upsert starts from.
  pub satisfies : C → D → Bool
  pub apply : U → D → D
  pub blank : D
  pub project : P → D → V
  -- `findOneAndUpdate({ _id, ...condition }, update, options)`.
  pub find_one_and_update : String → C → U → Options → T → T × Answer (Option D)
  -- `updateOne({ _id }, update, { upsert: true })`.
  pub upsert_one : String → U → T → T
  -- `findOne({ _id }, { projection })` and `findOne(condition, { projection })`.
  pub find_by_id : String → P → T → Option V
  pub find_one : C → P → T → Option V
  -- `find(condition, { projection }).toArray()`.
  pub find : C → P → T → List V
  -- `find(condition).toArray()`.
  pub find_documents : C → T → List D
  -- `deleteOne({ _id })` and `deleteMany(condition)`.
  pub delete_one : String → T → T
  pub delete_many : C → T → T

module _ {T D C U P V : Type 0} (c : Collection T D C U P V) where
  open c use {
    stored, write, satisfies, apply, blank, project, find_one_and_update, upsert_one, find_by_id,
    find_one, find, find_documents, delete_one, delete_many,
  }

  -- The documented behaviour of the operations.
  pub record IsDriver : Type 0 where
    pub stored-write :
        (k : String) (d : D) (t : T) (j : String)
        → stored (write k d t) j ≡ (if str_eq k j then some d else stored t j)
    pub update-matched :
        (k : String) (f : C) (u : U) (o : Options) (t : T) (d : D)
        → stored t k ≡ some d
        → satisfies f d ≡ true
        → find_one_and_update k f u o t
          ≡ (write k (apply u d) t, answered (some (if o.return_original then d else apply u d)))
    pub update-absent :
        (k : String) (f : C) (u : U) (o : Options) (t : T)
        → stored t k ≡ none
        → find_one_and_update k f u o t ≡ (
            if o.upsert
            then (
              write k (apply u blank) t,
              answered (if o.return_original then none else some (apply u blank)),
            )
            else (t, answered none))
    -- The filter does not match, and an upsert would store the `_id` twice.
    pub update-unmatched :
        (k : String) (f : C) (u : U) (o : Options) (t : T) (d : D)
        → stored t k ≡ some d
        → satisfies f d ≡ false
        → find_one_and_update k f u o t
          ≡ (t, (if o.upsert then failed duplicate_key else answered none))
    pub upsert_one-eq :
        (k : String) (u : U) (t : T)
        → upsert_one k u t ≡ write k (apply u (Option.get_or (stored t k) blank)) t
    pub find_by_id-eq :
        (k : String) (p : P) (t : T) → find_by_id k p t ≡ Option.map (project p) (stored t k)
    pub find_one-some :
        (f : C) (p : P) (t : T) (v : V)
        → find_one f p t ≡ some v
        → (k : String) × (d : D) × (stored t k ≡ some d)
          × (satisfies f d ≡ true)
          × (v ≡ project p d)
    pub find_one-none :
        (f : C) (p : P) (t : T) (k : String) (d : D)
        → find_one f p t ≡ none
        → stored t k ≡ some d
        → satisfies f d ≡ false
    -- `find` gives the documents that match, each of them.
    pub find-sound :
        (f : C) (p : P) (t : T) (v : V)
        → Memᴰ v (find f p t)
        → (k : String) × (d : D) × (stored t k ≡ some d)
          × (satisfies f d ≡ true)
          × (v ≡ project p d)
    pub find-complete :
        (f : C) (p : P) (t : T) (k : String) (d : D)
        → stored t k ≡ some d
        → satisfies f d ≡ true
        → Memᴰ (project p d) (find f p t)
    pub find_documents-sound :
        (f : C) (t : T) (d : D)
        → Memᴰ d (find_documents f t)
        → (k : String) × (stored t k ≡ some d) × (satisfies f d ≡ true)
    pub find_documents-complete :
        (f : C) (t : T) (k : String) (d : D)
        → stored t k ≡ some d
        → satisfies f d ≡ true
        → Memᴰ d (find_documents f t)
    pub stored-delete_one :
        (k : String) (t : T) (j : String)
        → stored (delete_one k t) j ≡ (if str_eq k j then none else stored t j)
    pub stored-delete_many :
        (f : C) (t : T) (j : String)
        → stored (delete_many f t) j ≡ reject (satisfies f) (stored t j)
