-- ===== src/Keeps.antt =====
-- What a promise keeps: a transitive relation between the states before and after, through `then`,
-- `catch` and `Promise.all`.
use ugo.Base.{List, [], ◌∷◌}
use ugo.World.{Services, World, Settled, fulfilled, rejected, Promise, Failure}
use ugo.Promise.{◌>>=◌, catch, settle_then, settle_catch, settle_also, world_of, all_of}

module _ {s : Services} (R : World s → World s → Type 0) where
  abbrev pub Keeps : {A : Type 0} → Promise s A → Type 0
  Keeps m = (w : World s) → R w (world_of (m w))

  -- Each of some promises.
  abbrev pub AllKeep : List (Promise s (Unit {0})) → Type 0
  AllKeep [] = Unit
  AllKeep (m ∷ ms) = Keeps m × AllKeep ms

module _ {s : Services} (R : World s → World s → Type 0)
    (trans : (u v w : World s) → R u v → R v w → R u w) where
  pub Keeps-then :
      {A B : Type 0} (m : Promise s A) (f : A → Promise s B)
      → Keeps R m
      → ((a : A) → Keeps R (f a))
      → Keeps R (m >>= f)
  Keeps-then {A} m f hm hf w = go (m w) (hm w)
    where
      go : (r : Settled s A) → R w (world_of r) → R w (world_of (settle_then r f))
      go (fulfilled a v) h = trans w v _ h (hf a v)
      go (rejected e v) h = h

  pub Keeps-catch :
      {A : Type 0} (m : Promise s A) (f : Failure → Promise s A)
      → Keeps R m
      → ((e : Failure) → Keeps R (f e))
      → Keeps R (catch m f)
  Keeps-catch {A} m f hm hf w = go (m w) (hm w)
    where
      go : (r : Settled s A) → R w (world_of r) → R w (world_of (settle_catch r f))
      go (fulfilled a v) h = h
      go (rejected e v) h = trans w v _ h (hf e v)

  Keeps-also :
      (m k : Promise s (Unit {0})) (w : World s)
      → Keeps R m
      → Keeps R k
      → R w (world_of (settle_also (m w) k))
  Keeps-also m k w hm hk = go (m w) (hm w)
    where
      go : (r : Settled s (Unit {0})) → R w (world_of r) → R w (world_of (settle_also r k))
      go (fulfilled a v) h = trans w v _ h (hk v)
      go (rejected e v) h = trans w v _ h (hk v)

  pub Keeps-all_of :
      (start : (w : World s) → R w w) (ms : List (Promise s (Unit {0})))
      → AllKeep R ms
      → (w : World s) → R w (world_of (all_of ms w))
  unfolding all_of
  Keeps-all_of start [] h w = start w
  Keeps-all_of start (m ∷ ms) (h, hs) w = Keeps-also m (all_of ms) w h (Keeps-all_of start ms hs)
