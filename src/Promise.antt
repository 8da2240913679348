-- ===== src/Promise.antt =====
-- Promises in sequence: `then`, `catch`, `Promise.all`, and the actions that every file shares.
pub mod Cases
use ugo.Base.{Bool, true, false, ◌||◌, List, [], ◌∷◌, ◌++◌, Option, none, some}
use ugo.Mongo.{Answer, answered, failed}
use ugo.Model.Message.{Message}
use ugo.Model.Http.{Request, Response}
use ugo.World.{
  Services, World, Settled, fulfilled, rejected, Promise, Failure, database_error, driver_error,
  request_error, Line,
}

module _ {s : Services} where
  abbrev pub resolve : {A : Type 0} → A → Promise s A
  resolve a w = fulfilled a w

  abbrev pub reject_with : {A : Type 0} → Failure → Promise s A
  reject_with e w = rejected e w

  abbrev pub settle_then : {A B : Type 0} → Settled s A → (A → Promise s B) → Settled s B
  settle_then (fulfilled a w) f = f a w
  settle_then (rejected e w) f = rejected e w

  abbrev pub settle_catch : {A : Type 0} → Settled s A → (Failure → Promise s A) → Settled s A
  settle_catch (fulfilled a w) f = fulfilled a w
  settle_catch (rejected e w) f = f e w

  infixl 5 ◌>>=◌ ◌>>◌
  abbrev pub ◌>>=◌ : {A B : Type 0} → Promise s A → (A → Promise s B) → Promise s B
  ◌>>=◌ m f w = settle_then (m w) f

  abbrev pub ◌>>◌ : {A B : Type 0} → Promise s A → Promise s B → Promise s B
  ◌>>◌ m k w = settle_then (m w) (λ _. k)

  -- `m.catch(f)`.
  abbrev pub catch : {A : Type 0} → Promise s A → (Failure → Promise s A) → Promise s A
  catch m f w = settle_catch (m w) f

  -- The state at which a promise is settled.
  abbrev pub world_of : {A : Type 0} → Settled s A → World s
  world_of (fulfilled a w) = w
  world_of (rejected e w) = w

  -- `Promise.all`: every promise runs; the first failure is the result.
  abbrev pub settle_also : Settled s (Unit {0}) → Promise s (Unit {0}) → Settled s (Unit {0})
  settle_also (fulfilled _ w) m = m w
  settle_also (rejected e w) m = rejected e (world_of (m w))

  unfoldable pub all_of : List (Promise s (Unit {0})) → Promise s (Unit {0})
  all_of [] w = fulfilled tt w
  all_of (m ∷ ms) w = settle_also (m w) (all_of ms)

  -- `postal.publish`: what is published is kept, and delivered by a step of the module Service.
  abbrev pub publish : Message → Promise s (Unit {0})
  publish m w = fulfilled tt (record w { published = w.published ++ m ∷ [] })

  -- `logger.error`.
  abbrev pub log_error : Line → Promise s (Unit {0})
  log_error l w = fulfilled tt (record w { log = w.log ++ l ∷ [] })

  -- `mongoManager.enabled`: there is a database, whether it answers or rejects what is asked of it.
  abbrev pub has_database : World s → Bool
  has_database w = w.online || w.refusing

  -- `mongoManager.getCollection` and the first query that follows it: with no database
  -- `db.collection` is not a function, and a database that refuses rejects the query.
  abbrev pub get_collection : Promise s (Unit {0})
  get_collection w = elim w.online [ true ↦ fulfilled tt w | false ↦ rejected database_error w ]

  -- What the driver answers, as a promise.
  abbrev pub from_driver : {A : Type 0} → Answer A → Promise s A
  from_driver (answered a) w = fulfilled a w
  from_driver (failed code) w = rejected (driver_error code) w

  abbrev pub from_response : Option Response → Promise s Response
  from_response none w = rejected request_error w
  from_response (some r) w = fulfilled r w

  -- A request to GitHub is recorded, whether it succeeds or not.
  abbrev pub send : Request → Promise s Response
  send r w = from_response (s.respond w.requests r) (record w { requests = w.requests ++ r ∷ [] })

  -- A promise that nobody waits for: its failure is lost.
  abbrev pub detached : {A : Type 0} → Promise s A → Promise s (Unit {0})
  detached m w = fulfilled tt (world_of (m w))

  -- A promise whose value nobody reads.
  abbrev pub ignoring : {A : Type 0} → Promise s A → Promise s (Unit {0})
  ignoring m = m >>= λ _. resolve tt
