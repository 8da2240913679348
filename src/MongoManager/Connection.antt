-- ===== src/MongoManager/Connection.antt =====
-- manager-mongo.js: when the database is enabled, at every moment after the start.
use ugo.Base.{
  ◌≡◌, ◌↔◌, ◌≢◌, subst, sym, inl, inr, refl, String, true, false, Option, none, some, arith,
  Bool-cases,
}
use ugo.MongoManager.{
  MongoManager, Db, pending, open_db, empty_object, Event, connects, fails, load, on_event, enabled,
  get_collection, waits, fulfils, is_given, is_some, connected, refused, collection_of,
}

-- What can be reached from the start of the program.
pub data Reach (url : Option String) : MongoManager → Type 0 where
  loaded : Reach url (load url)
  next : {m : MongoManager} → Reach url m → (e : Event) → Reach url (on_event m e)

-- Whether there is a database, as each part of the state says it.
abbrev Agrees : MongoManager → Db → Type 0
Agrees m pending = (is_given m.url ≡ true) × (m.has_database ≡ false)
Agrees m open_db = (is_given m.url ≡ true) × (m.has_database ≡ true)
Agrees m empty_object = m.has_database ≡ false

load-Agrees : (url : Option String) → Agrees (load url) (load url).get_db
unfolding load
load-Agrees url = elim (Bool-cases (is_given url)) [
  | inl given ↦ rw given (given, refl)
  | inr absent ↦ rw absent refl
]

connected-Agrees :
    (m : MongoManager) (d : Db)
    → m.get_db ≡ d
    → Agrees m d
    → Agrees (connected d m) (connected d m).get_db
connected-Agrees m pending e (given, unset) = (given, refl)
connected-Agrees m open_db e h = subst (Agrees m) (sym e) h
connected-Agrees m empty_object e h = subst (Agrees m) (sym e) h

refused-Agrees :
    (m : MongoManager) (d : Db)
    → m.get_db ≡ d
    → Agrees m d
    → Agrees (refused d m) (refused d m).get_db
refused-Agrees m pending e (given, unset) = unset
refused-Agrees m open_db e h = subst (Agrees m) (sym e) h
refused-Agrees m empty_object e h = subst (Agrees m) (sym e) h

Reach-Agrees : {url : Option String} {m : MongoManager} → Reach url m → Agrees m m.get_db
unfolding on_event
Reach-Agrees {url} loaded = load-Agrees url
Reach-Agrees (next {m} r connects) = connected-Agrees m m.get_db refl (Reach-Agrees r)
Reach-Agrees (next {m} r fails) = refused-Agrees m m.get_db refl (Reach-Agrees r)

given-is_some : (o : Option String) → is_given o ≡ true → is_some o ≡ true
given-is_some none h = cc
given-is_some (some t) h = refl

enabled_iff :
    (m : MongoManager) (d : Db) → Agrees m d → (enabled m ≡ true) ↔ (collection_of d ≡ fulfils)
unfolding enabled
enabled_iff m pending (given, unset) = (λ on. ground (arith, unset), λ e. cc)
enabled_iff m open_db (given, set) = (λ on. refl, λ e. rw (set, given-is_some m.url given) refl)
enabled_iff m empty_object unset = (λ on. ground (arith, unset), λ e. cc)

settled_stays :
    (m : MongoManager) (d : Db) (e : Event)
    → m.get_db ≡ d
    → collection_of d ≢ waits
    → on_event m e ≡ m
unfolding on_event
settled_stays m pending e same h = absurd (h refl)
settled_stays m open_db connects same h = ground (arith, same)
settled_stays m open_db fails same h = ground (arith, same)
settled_stays m empty_object connects same h = ground (arith, same)
settled_stays m empty_object fails same h = ground (arith, same)

-- At every moment after the start, `enabled` is true exactly when `getCollection` is fulfilled; and
-- once `getCollection` waits no longer, nothing that the driver reports changes the connection.
pub Reach-enabled :
    {url : Option String} {m : MongoManager}
    → Reach url m
    → ((enabled m ≡ true) ↔ (get_collection m ≡ fulfils))
      × (get_collection m ≢ waits → (e : Event) → on_event m e ≡ m)
unfolding get_collection
Reach-enabled {m = m} r =
    (enabled_iff m m.get_db (Reach-Agrees r), λ h e. settled_stays m m.get_db e refl h)
