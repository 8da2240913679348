-- ===== src/Service/Safe.antt =====
-- The relation between states for double bookings, along the promises of handler-pullrequest.js.
use ugo.Base.{Bool, true, if◌then◌else◌, ℕ, ◌≡◌, sym, subst, String, false, List, none, arith}
use ugo.Model.Queue.{Item}
use ugo.Model.PullRequest.{Info}
use ugo.World.{Settled, Services, World, Promise, Failure}
use ugo.Promise.{◌>>=◌, catch, world_of, resolve, all_of}
use ugo.Keeps.{Keeps, AllKeep, Keeps-then, Keeps-catch, Keeps-all_of}
use ugo.QueueManager as Queue
use ugo.QueueManager.Bookings.{bookings}
use ugo.QueueManager.Unique.{Distinct, AllDistinct}
use ugo.GitHub.Frame.{KeepsStore}
use ugo.InstallationInfoManager.Named.{Names, Names-same, KeepsNames}
use ugo.PullRequestManager.{set_pull_request_info}
use ugo.PullRequestHandler.{
  PullRequest, Location, update_pull_request_info, set_pull_request_status_by_position, position_of,
  block_pull_request, location_of,
}
use ugo.PullRequestHandler.Handlers.{handle_opened, handle_sync}
use ugo.PullRequestHandler.Statuses.{info_of_event}
use ugo.PullRequestHandler.Frame.{
  KeepsStore-block_or_unblock, KeepsStore-position, KeepsStore-get_items,
}

module _ {s : Services} where
  -- What keeps every queue free of double bookings, and every stored installation info under the
  -- id of its installation.
  abbrev pub Safe : World s → World s → Type 0
  Safe w w' = (AllDistinct s w → AllDistinct s w') × Names w w'

  -- Two states with the same queues and installation infos.
  abbrev pub Unmoved : World s → World s → Type 0
  Unmoved w w' = (w'.queues ≡ w.queues) × (w'.installation_infos ≡ w.installation_infos)

  pub Safe-trans : (u v w : World s) → Safe u v → Safe v w → Safe u w
  Safe-trans u v w (h, n) (k, m) = (λ d. k (h d), λ e. m (n e))

  abbrev pub KeepsSafe : {A : Type 0} → Promise s A → Type 0
  KeepsSafe m = Keeps Safe m

  pub KeepsSafe-then :
      {A B : Type 0} (m : Promise s A) (f : A → Promise s B)
      → KeepsSafe m
      → ((a : A) → KeepsSafe (f a))
      → KeepsSafe (m >>= f)
  KeepsSafe-then = Keeps-then Safe Safe-trans

  Safe-same : (w w' : World s) → Unmoved w w' → Safe w w'
  Safe-same w w' (queues, infos) =
      (λ d k. subst (λ q. Distinct (bookings s q k)) (sym queues) (d k), Names-same w w' infos)

  pub Safe-refl : (w : World s) → Safe w w
  Safe-refl w = (λ d. d, λ n. n)

  pub KeepsSafe-store : {A : Type 0} (m : Promise s A) → KeepsStore m → KeepsSafe m
  KeepsSafe-store m h w = Safe-same w (world_of (m w)) ((h w).queues, (h w).installation_infos)

  pub KeepsSafe-resolve : {A : Type 0} (a : A) → KeepsSafe (resolve a)
  KeepsSafe-resolve a w = Safe-refl w

  -- A change of the queues.
  pub KeepsSafe-booking :
      {A : Type 0} (m : Promise s A)
      → ((w : World s) → AllDistinct s w → AllDistinct s (world_of (m w)))
      → ((w : World s) → (world_of (m w)).installation_infos ≡ w.installation_infos)
      → KeepsSafe m
  KeepsSafe-booking m h same w = (h w, Names-same w (world_of (m w)) (same w))

  -- A change of the installation infos.
  pub KeepsSafe-infos :
      {A : Type 0} (m : Promise s A)
      → ((w : World s) → (world_of (m w)).queues ≡ w.queues)
      → KeepsNames m
      → KeepsSafe m
  KeepsSafe-infos m same h w =
      (λ d k. subst (λ q. Distinct (bookings s q k)) (sym (same w)) (d k), h w)

  pub KeepsSafe-queues :
      {A : Type 0} (m : Promise s A) → ((w : World s) → Unmoved w (world_of (m w))) → KeepsSafe m
  KeepsSafe-queues m h w = Safe-same w (world_of (m w)) (h w)

  queues-set_info :
      (owner repo : String) (n : ℕ) (i : Info) (w : World s)
      → Unmoved w (world_of (set_pull_request_info s owner repo n i w))
  unfolding set_pull_request_info
  queues-set_info owner repo n i w = (ground arith, ground arith)

  KeepsSafe-set_info :
      (owner repo : String) (n : ℕ) (i : Info) → KeepsSafe (set_pull_request_info s owner repo n i)
  KeepsSafe-set_info owner repo n i =
      KeepsSafe-queues (set_pull_request_info s owner repo n i) (queues-set_info owner repo n i)

  KeepsSafe-update_info : (p : PullRequest) (n : ℕ) → KeepsSafe (update_pull_request_info s p n)
  unfolding update_pull_request_info
  KeepsSafe-update_info p n =
      KeepsSafe-then (set_pull_request_info s p.base_owner p.base_repo p.number (info_of_event p n))
        (λ _. resolve (location_of p))
        (KeepsSafe-set_info p.base_owner p.base_repo p.number (info_of_event p n))
        (λ _. KeepsSafe-resolve (location_of p))

  pub KeepsSafe-opened : (p : PullRequest) (n : ℕ) → KeepsSafe (handle_opened s p n)
  unfolding handle_opened
  KeepsSafe-opened p n =
      KeepsSafe-then (update_pull_request_info s p n)
        (λ l. block_pull_request s l.owner l.repo l.pull_request_number none >>= λ _. resolve l)
        (KeepsSafe-update_info p n)
        λ l.
          KeepsSafe-then (block_pull_request s l.owner l.repo l.pull_request_number none)
            (λ _. resolve l)
            (KeepsSafe-store (block_pull_request s l.owner l.repo l.pull_request_number none)
              (KeepsStore-block_or_unblock s false l.owner l.repo l.pull_request_number none))
            (λ _. KeepsSafe-resolve l)

  pub KeepsSafe-synced : (p : PullRequest) (n : ℕ) → KeepsSafe (handle_sync s p n)
  unfolding handle_sync
  KeepsSafe-synced p n =
      KeepsSafe-then (update_pull_request_info s p n) rest (KeepsSafe-update_info p n) λ l.
        KeepsSafe-then (Queue.get_items s l.owner l.repo l.branch) (placed l)
          (KeepsSafe-store (Queue.get_items s l.owner l.repo l.branch)
            (KeepsStore-get_items s l.owner l.repo l.branch))
          λ items.
            KeepsSafe-then
              (set_pull_request_status_by_position s l.owner l.repo l.pull_request_number
                (position_of l.pull_request_number items))
              (λ _. resolve l)
              (KeepsSafe-store
                (set_pull_request_status_by_position s l.owner l.repo l.pull_request_number
                  (position_of l.pull_request_number items))
                (KeepsStore-position s l.owner l.repo l.pull_request_number
                  (position_of l.pull_request_number items)))
              (λ _. KeepsSafe-resolve l)
    where
      placed : Location → List Item → Promise s Location
      placed l items =
          set_pull_request_status_by_position s l.owner l.repo l.pull_request_number
            (position_of l.pull_request_number items)
          >>= λ _. resolve l

      rest : Location → Promise s Location
      rest l = Queue.get_items s l.owner l.repo l.branch >>= placed l

  pub KeepsSafe-catch :
      {A : Type 0} (m : Promise s A) (f : Failure → Promise s A)
      → KeepsSafe m
      → ((e : Failure) → KeepsSafe (f e))
      → KeepsSafe (catch m f)
  KeepsSafe-catch = Keeps-catch Safe Safe-trans

  pub KeepsSafe-all_of :
      (ms : List (Promise s (Unit {0}))) → AllKeep Safe ms → KeepsSafe (all_of ms)
  KeepsSafe-all_of = Keeps-all_of Safe Safe-trans Safe-refl

  pub either :
      {A : Type 0} (b : Bool) (m k : Promise s A)
      → KeepsSafe m
      → KeepsSafe k
      → KeepsSafe (if b then m else k)
  either true m k h h' = h
  either false m k h h' = h'

  -- A test of the state and its two branches.
  pub either_at :
      {A : Type 0} (w : World s) (b : Bool) (r r' : Settled s A)
      → Safe w (world_of r)
      → Safe w (world_of r')
      → Safe w (world_of (if b then r else r'))
  either_at w true r r' h h' = h
  either_at w false r r' h h' = h'
