-- ===== src/GitHub/Frame.antt =====
-- github.js: the parts of the state that its requests are not about.
use ugo.GitHub.CombinedStatus.{combined_status}
use ugo.Base.{
  ◌≡◌, ◌≢◌, ◌⊎◌, inl, inr, subst, refl, ◌∙◌, String, ℕ, Option, some, List, [], ◌∷◌, arith,
}
use ugo.Model.Http.{CheckRun}
use ugo.World.{Services, World, Settled, fulfilled, rejected, Promise, Failure}
use ugo.Keeps.{Keeps, AllKeep, Keeps-then, Keeps-all_of}
use ugo.Promise.{all_of, ◌>>=◌, world_of}
use ugo.GitHub.{
  CheckRunOptions, get_check_runs_for_sha, create_check_run_for_sha, update_check_run_by_id,
  create_or_update, create_check_run_for_pull_request, get_hash_status, get_hash_check_suites,
  get_hash_combined_status,
}

module _ {s : Services} where
  -- Two states with the same collections, log and database.
  pub record SameStore (w w' : World s) : Type 0 where
    pub online : w'.online ≡ w.online
    pub queues : w'.queues ≡ w.queues
    pub pull_requests : w'.pull_requests ≡ w.pull_requests
    pub installation_infos : w'.installation_infos ≡ w.installation_infos
    pub log : w'.log ≡ w.log

  pub SameStore-refl : (w : World s) → SameStore w w
  SameStore-refl w = record {
    online = refl;
    queues = refl;
    pull_requests = refl;
    installation_infos = refl;
    log = refl;
  }

  pub SameStore-trans : {w w' w'' : World s} → SameStore w w' → SameStore w' w'' → SameStore w w''
  SameStore-trans h k = record {
    online = k.online ∙ h.online;
    queues = k.queues ∙ h.queues;
    pull_requests = k.pull_requests ∙ h.pull_requests;
    installation_infos = k.installation_infos ∙ h.installation_infos;
    log = k.log ∙ h.log;
  }

  trans : (u v w : World s) → SameStore u v → SameStore v w → SameStore u w
  trans u v w h k = SameStore-trans h k

  -- A promise that changes none of these.
  abbrev pub KeepsStore : {A : Type 0} → Promise s A → Type 0
  KeepsStore m = Keeps SameStore m

  pub KeepsStore-then :
      {A B : Type 0} (m : Promise s A) (f : A → Promise s B)
      → KeepsStore m
      → ((a : A) → KeepsStore (f a))
      → KeepsStore (m >>= f)
  KeepsStore-then = Keeps-then SameStore trans

  pub KeepsStore-all_of :
      (ms : List (Promise s (Unit {0}))) → AllKeep SameStore ms → KeepsStore (all_of ms)
  KeepsStore-all_of = Keeps-all_of SameStore trans SameStore-refl

  KeepsStore-get_check_runs : (o : CheckRunOptions) → KeepsStore (get_check_runs_for_sha s o)
  unfolding get_check_runs_for_sha
  KeepsStore-get_check_runs o w = ground arith

  KeepsStore-create : (o : CheckRunOptions) → KeepsStore (create_check_run_for_sha s o)
  unfolding create_check_run_for_sha
  KeepsStore-create o w = ground arith

  KeepsStore-update :
      (o : CheckRunOptions) (i : Option ℕ) → KeepsStore (update_check_run_by_id s o i)
  unfolding update_check_run_by_id
  KeepsStore-update o i w = ground arith

  KeepsStore-create_or_update :
      (o : CheckRunOptions) (rs : List CheckRun) → KeepsStore (create_or_update s o rs)
  KeepsStore-create_or_update o [] = KeepsStore-create o
  KeepsStore-create_or_update o (r ∷ rs) = KeepsStore-update o (some r.id)

  -- Creating or updating a check run, whatever GitHub answers.
  pub KeepsStore-create_check_run :
      (o : CheckRunOptions) → KeepsStore (create_check_run_for_pull_request s o)
  unfolding create_check_run_for_pull_request
  KeepsStore-create_check_run o =
      KeepsStore-then (get_check_runs_for_sha s o) (create_or_update s o)
        (KeepsStore-get_check_runs o) (KeepsStore-create_or_update o)

  KeepsStore-suites :
      (i : Option ℕ) (owner repo sha : String)
      → KeepsStore (get_hash_check_suites s i owner repo sha)
  unfolding get_hash_check_suites
  KeepsStore-suites i owner repo sha w = ground arith

  KeepsStore-status :
      (i : Option ℕ) (owner repo sha : String) → KeepsStore (get_hash_status s i owner repo sha)
  unfolding get_hash_status
  KeepsStore-status i owner repo sha w = ground arith

  pub Settled-cases :
      {A : Type 0} (r : Settled s A)
      → ((a : A) × (w : World s) × (r ≡ fulfilled a w))
        ⊎ ((e : Failure) × (w : World s) × (r ≡ rejected e w))
  Settled-cases (fulfilled a w) = inl (a, w, refl)
  Settled-cases (rejected e w) = inr (e, w, refl)

  not_rejected :
      {A : Type 0} (m : Promise s A) (w : World s)
      → KeepsStore m
      → ((e : Failure) (w' : World s) → m w ≢ rejected e w')
      → (a : A) × (w' : World s) × (m w ≡ fulfilled a w') × SameStore w w'
  not_rejected m w k h = elim (Settled-cases (m w)) [
    | inl (a, w', e) ↦ (a, w', e, subst (λ r. SameStore w (world_of r)) e (k w))
    | inr (e, w', eq) ↦ absurd (h e w' eq)
  ]

  suites_total :
      (i : Option ℕ) (owner repo sha : String) (w : World s) (e : Failure) (w' : World s)
      → get_hash_check_suites s i owner repo sha w ≢ rejected e w'
  unfolding get_hash_check_suites
  suites_total i owner repo sha w e w' = ground arith

  status_total :
      (i : Option ℕ) (owner repo sha : String) (w : World s) (e : Failure) (w' : World s)
      → get_hash_status s i owner repo sha w ≢ rejected e w'
  unfolding get_hash_status
  status_total i owner repo sha w e w' = ground arith

  -- Reading the combined status is fulfilled in every case, and changes neither the collections nor
  -- the log nor whether there is a database.
  pub get_hash_combined_status_total :
      (i : Option ℕ) (owner repo sha : String) (w : World s)
      → (status : String) × (w' : World s) × (get_hash_combined_status s i owner repo sha w
          ≡ fulfilled status w')
        × SameStore w w'
  unfolding get_hash_combined_status
  get_hash_combined_status_total i owner repo sha w =
      let (suites, w1, e1, h1) =
        not_rejected (get_hash_check_suites s i owner repo sha) w
          (KeepsStore-suites i owner repo sha) (suites_total i owner repo sha w) in
      let (status, w2, e2, h2) =
        not_rejected (get_hash_status s i owner repo sha) w1 (KeepsStore-status i owner repo sha)
          (status_total i owner repo sha w1) in
      (combined_status suites status, w2, rw (e1, e2), SameStore-trans h1 h2)
