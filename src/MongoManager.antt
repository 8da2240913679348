-- ===== src/MongoManager.antt =====
-- manager-mongo.js: the connection to the database, from the start of the program on, and `reset`,
-- which the tests use. What is logged is left out.
pub mod Connection
pub mod Reset
use Prim.Native.Char.{code}
use ugo.Base.{
  String, Bool, true, false, not, ◌&&◌, List, [], ◌∷◌, Option, none, some, if◌then◌else◌, str_eq,
}
use ugo.Mongo.{Answer, answered, failed}
use ugo.Authenticator.{after_prefix}

-- `getDb`: it waits for the connection, or it is fulfilled with a database or with `{}`.
pub data Db : Type 0 where
  pending : Db
  open_db : Db
  empty_object : Db

-- `MONGO_URL`, whether `database` is set, and `getDb`.
pub record MongoManager : Type 0 where
  pub url : Option String
  pub has_database : Bool
  pub get_db : Db

abbrev pub is_given : Option String → Bool
is_given none = false
is_given (some t) = not (str_eq t "")

-- When the file is loaded, `database` is not set yet.
unfoldable pub load : Option String → MongoManager
load url = record {
  url = url;
  has_database = false;
  get_db = if is_given url then pending else empty_object;
}

-- `MongoClient.connect` succeeds or fails, once.
abbrev pub connected : Db → MongoManager → MongoManager
connected pending m = record m { has_database = true; get_db = open_db }
connected open_db m = m
connected empty_object m = m

abbrev pub refused : Db → MongoManager → MongoManager
refused pending m = record m { get_db = empty_object }
refused open_db m = m
refused empty_object m = m

pub data Event : Type 0 where
  connects : Event
  fails : Event

unfoldable pub on_event : MongoManager → Event → MongoManager
on_event m connects = connected m.get_db m
on_event m fails = refused m.get_db m

abbrev pub is_some {ℓ} : {A : Type ℓ} → Option A → Bool
is_some none = false
is_some (some a) = true

-- `!isNil(MONGO_URL) && !isNil(database)`.
unfoldable pub enabled : MongoManager → Bool
enabled m = is_some m.url && m.has_database

-- A promise: it waits, it is fulfilled, or it is rejected.
pub data State : Type 0 where
  waits : State
  fulfils : State
  rejects : State

-- `{}` has no method `collection`.
abbrev pub collection_of : Db → State
collection_of pending = waits
collection_of open_db = fulfils
collection_of empty_object = rejects

unfoldable pub get_collection : MongoManager → State
get_collection m = collection_of m.get_db

-- `name.indexOf('system.') === 0`.
unfoldable pub is_system : String → Bool
is_system name = is_some (after_prefix "system." name)

-- The database is a parameter, with the driver's `listCollections().toArray()` and
-- `collection(name).deleteMany({})`.
module _ (Database : Type 0) (list_collections : Database → Answer (List String))
    (delete_all : String → Database → Database × Answer (Unit {0})) where
  -- `Promise.all`: every collection is asked for; the first failure is the result.
  abbrev pub both : Answer (Unit {0}) → Answer (Unit {0}) → Answer (Unit {0})
  both (answered _) r = r
  both (failed code) r = failed code

  abbrev pub delete_collection : String → Database → Database × Answer (Unit {0})
  delete_collection name d = if is_system name then (d, answered tt) else delete_all name d

  unfoldable pub delete_each : List String → Database → Database × Answer (Unit {0})
  delete_each [] d = (d, answered tt)
  delete_each (name ∷ names) d =
      let first = delete_collection name d in
      let rest = delete_each names first.0 in (rest.0, both first.1 rest.1)

  abbrev pub outcome : Database × Answer (Unit {0}) → Database × State
  outcome (d, answered _) = (d, fulfils)
  outcome (d, failed code) = (d, rejects)

  -- A failure of `listCollections` is not passed to `reject`, nor is what is thrown with no database.
  abbrev pub delete_listed : Answer (List String) → Database → Database × State
  delete_listed (answered names) d = outcome (delete_each names d)
  delete_listed (failed code) d = (d, waits)

  unfoldable pub reset : Db → Database → Database × State
  reset pending d = (d, waits)
  reset empty_object d = (d, waits)
  reset open_db d = delete_listed (list_collections d) d
