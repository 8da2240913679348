-- ===== src/Sample/Mongo.antt =====
-- The theorems on the connection and on `reset`, for a database in memory.
use ugo.Base.{
  ◌≡◌, ◌≢◌, ◌↔◌, refl, String, true, false, List, [], ◌∷◌, Option, some, any, arith, str_eq,
  str_eq_iff, if◌then◌else◌,
}
use ugo.Mongo.{Answer, answered}
use ugo.MongoManager.{
  Event, connects, load, on_event, enabled, get_collection, waits, fulfils, open_db, is_system,
  reset, State, delete_each,
}
use ugo.MongoManager.Connection.{loaded, next, Reach-enabled}
use ugo.MongoManager.Reset.{IsDatabase, reset_lem}

-- The names of the collections, each with the ids of its documents.
abbrev Collections : Type 0
Collections = List (String × List String)

names_of : Collections → List String
names_of [] = []
names_of ((name, ids) ∷ d) = name ∷ names_of d

erase : String → Collections → Collections
erase k [] = []
erase k ((name, ids) ∷ d) = (name, if str_eq name k then [] else ids) ∷ erase k d

ids_of : Collections → String → List String
ids_of [] k = []
ids_of ((name, ids) ∷ d) k = if str_eq name k then ids else ids_of d k

abbrev erased : String → Collections → Collections × Answer (Unit {0})
erased k d = (erase k d, answered tt)

names_of-any :
    (d : Collections) (k : String) → any (str_eq k) (names_of d) ≡ false → ids_of d k ≡ []
unfolding names_of ids_of
names_of-any [] k h = refl
names_of-any ((name, ids) ∷ d) k h =
    ground (arith, str_eq_iff k name, str_eq_iff name k, names_of-any d k)

ids_of-erase : (d : Collections) (k : String) → ids_of (erase k d) k ≡ []
unfolding erase ids_of
ids_of-erase [] k = refl
ids_of-erase ((name, ids) ∷ d) k = ground (arith, ids_of-erase d k)

ids_of-erase_other :
    (d : Collections) (name k : String)
    → str_eq name k ≡ false
    → ids_of (erase name d) k ≡ ids_of d k
unfolding erase ids_of
ids_of-erase_other [] name k h = refl
ids_of-erase_other ((other, ids) ∷ d) name k h = ground (
  arith,
  str_eq_iff other name,
  str_eq_iff other k,
  str_eq_iff name k,
  ids_of-erase_other d name k,
)

in_memory : IsDatabase Collections (λ d. answered (names_of d)) erased ids_of
in_memory = record {
  lists = λ d names k e h. names_of-any d k (ground (arith, e));
  deletes = λ d k e. ids_of-erase d k;
  others = λ d name k h. ids_of-erase_other d name k h;
}

abbrev collections : Collections
collections = ("queue", "acme-shop-main" ∷ []) ∷ ("system.users", "ann" ∷ []) ∷ []

abbrev after_reset : Collections × State
after_reset = reset Collections (λ d. answered (names_of d)) erased open_db collections

reset_lem_example :
    (is_system "queue" ≡ true → ids_of after_reset.0 "queue" ≡ ids_of collections "queue")
    × (is_system "queue" ≡ false → after_reset.1 ≡ fulfils → ids_of after_reset.0 "queue" ≡ [])
reset_lem_example = reset_lem in_memory open_db collections "queue"

reset_runs : after_reset ≡ (("queue", []) ∷ ("system.users", "ann" ∷ []) ∷ [], fulfils)
unfolding reset erase names_of delete_each is_system
reset_runs = refl

abbrev url : Option String
url = some "mongodb://localhost/ugo"

Reach-enabled_example :
    let m = on_event (load url) connects in
    ((enabled m ≡ true) ↔ (get_collection m ≡ fulfils))
    × (get_collection m ≢ waits → (e : Event) → on_event m e ≡ m)
Reach-enabled_example = Reach-enabled {url = url} (next loaded connects)

enabled_runs : enabled (on_event (load url) connects) ≡ true
unfolding enabled on_event load
enabled_runs = refl
