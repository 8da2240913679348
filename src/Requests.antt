-- ===== src/Requests.antt =====
-- How many requests to GitHub a promise sends, whatever is answered.
use ugo.Base.{
  ◌≡◌, refl, Option, none, some, length-append, ℕ, ◌+◌, ◌*◌, ◌≤◌, List, [], ◌∷◌, length, arith,
}
use ugo.World.{Services, World, Settled, fulfilled, rejected, Promise, Failure}
use ugo.Model.Http.{Request, Response}
use ugo.Promise.{
  catch, settle_catch, from_response, send, ◌>>=◌, settle_then, settle_also, world_of, all_of,
}

module _ {s : Services} where
  abbrev pub AtMost : {A : Type 0} → ℕ → Promise s A → Type 0
  AtMost n m = (w : World s) → length (world_of (m w)).requests ≤ length w.requests + n

  pub AtMost-then :
      {A B : Type 0} (a b : ℕ) (m : Promise s A) (f : A → Promise s B)
      → AtMost a m
      → ((x : A) → AtMost b (f x))
      → AtMost (a + b) (m >>= f)
  AtMost-then {A} a b m f hm hf w = go (m w) (hm w)
    where
      go :
          (r : Settled s A)
          → length (world_of r).requests ≤ length w.requests + a
          → length (world_of (settle_then r f)).requests ≤ length w.requests + (a + b)
      go (fulfilled x v) h = omega (arith, hf x v)
      go (rejected e v) h = omega arith

  pub AtMost-catch :
      {A : Type 0} (a b : ℕ) (m : Promise s A) (f : Failure → Promise s A)
      → AtMost a m
      → ((e : Failure) → AtMost b (f e))
      → AtMost (a + b) (catch m f)
  AtMost-catch {A} a b m f hm hf w = go (m w) (hm w)
    where
      go :
          (r : Settled s A)
          → length (world_of r).requests ≤ length w.requests + a
          → length (world_of (settle_catch r f)).requests ≤ length w.requests + (a + b)
      go (fulfilled x v) h = omega arith
      go (rejected e v) h = omega (arith, hf e v)

  pub AtMost-quiet :
      {A : Type 0} (m : Promise s A)
      → ((w : World s) → (world_of (m w)).requests ≡ w.requests)
      → AtMost 0 m
  AtMost-quiet m h w = rw (h w) (omega arith)

  world_of-from_response : (o : Option Response) (w : World s) → world_of (from_response o w) ≡ w
  world_of-from_response none w = refl
  world_of-from_response (some r) w = refl

  -- A request that may be made from the state.
  pub AtMost-send : (f : World s → Request) → AtMost 1 (λ w. send (f w) w)
  AtMost-send f w =
      rw (world_of-from_response (s.respond w.requests (f w)))
        (omega (arith, length-append w.requests (f w ∷ [])))

  -- Each of some promises.
  abbrev pub AllAtMost : ℕ → List (Promise s (Unit {0})) → Type 0
  AllAtMost n [] = Unit
  AllAtMost n (m ∷ ms) = AtMost n m × AllAtMost n ms

  also :
      (a b : ℕ) (m k : Promise s (Unit {0}))
      → AtMost a m
      → AtMost b k
      → (w : World s)
      → length (world_of (settle_also (m w) k)).requests ≤ length w.requests + (a + b)
  also a b m k hm hk w = go (m w) (hm w)
    where
      go :
          (r : Settled s (Unit {0}))
          → length (world_of r).requests ≤ length w.requests + a
          → length (world_of (settle_also r k)).requests ≤ length w.requests + (a + b)
      go (fulfilled x v) h = omega (arith, hk v)
      go (rejected e v) h = omega (arith, hk v)

  pub AtMost-all_of :
      (n : ℕ) (ms : List (Promise s (Unit {0})))
      → AllAtMost n ms
      → AtMost (length ms * n) (all_of ms)
  unfolding all_of
  AtMost-all_of n [] h w = omega arith
  AtMost-all_of n (m ∷ ms) (h, hs) w =
      omega (arith, also n (length ms * n) m (all_of ms) h (AtMost-all_of n ms hs) w)
