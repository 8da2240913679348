-- ===== src/Promise/Cases.antt =====
-- How a promise of `then` or `catch` was settled.
use ugo.Base.{◌≡◌, refl}
use ugo.World.{Services, World, Settled, fulfilled, rejected, Promise}
use ugo.Promise.{◌>>=◌, settle_then}

module _ {s : Services} where
  settled-then :
      {A B : Type 0} (r : Settled s A) (f : A → Promise s B) (b : B) (w' : World s)
      → settle_then r f ≡ fulfilled b w'
      → (a : A) × (v : World s) × (r ≡ fulfilled a v) × (f a v ≡ fulfilled b w')
  settled-then (fulfilled a v) f b w' h = (a, v, refl, h)
  settled-then (rejected e v) f b w' h = cc

  pub fulfilled-then :
      {A B : Type 0} (m : Promise s A) (f : A → Promise s B) (w : World s) (b : B) (w' : World s)
      → (m >>= f) w ≡ fulfilled b w'
      → (a : A) × (v : World s) × (m w ≡ fulfilled a v) × (f a v ≡ fulfilled b w')
  fulfilled-then m f w b w' h = settled-then (m w) f b w' h
