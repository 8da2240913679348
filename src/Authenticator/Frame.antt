-- ===== src/Authenticator/Frame.antt =====
-- authenticator-github.js: that every request is answered, and what the authenticator leaves as it was.
use ugo.Base.{
  subst, ◌++◌, ◌∷◌, [], ◌≡◌, refl, ◌∙◌, inl, inr, String, Option, none, some, arith, Bool-cases,
  Option-cases, ℕ, List,
}
use ugo.Model.Installation.{Repository, InstallationInfo}
use ugo.Model.User.{Field, User, TokenInfo}
use ugo.World.{Services, World, fulfilled, Promise, failure}
use ugo.Promise.{◌>>=◌, world_of}
use ugo.Keeps.{Keeps, Keeps-then}
use ugo.GitHub.Frame.{Settled-cases}
use ugo.GitHub.Accounts.{InstallationPages, get_user_info, get_installation_pages}
use ugo.InstallationManager.{get_installation_id}
use ugo.InstallationInfoManager.{
  set_installation_info_of, evolved, picked, get_installation_info_from_github,
  get_installation_info,
}
use ugo.TokenManager.{set_token, get_token_info_from_github, get_token_info}
use ugo.Authenticator.{
  Access, token_of, development, check_client, or_refuse, identify, user_at, or_unauthorized,
  authenticate, developer,
}

module _ {s : Services} where
  -- Two states with the same queues, pull requests, notifications, installation ids and
  -- database.
  pub record SameBookings (w w' : World s) : Type 0 where
    pub online : w'.online ≡ w.online
    pub queues : w'.queues ≡ w.queues
    pub pull_requests : w'.pull_requests ≡ w.pull_requests
    pub notifications : w'.notifications ≡ w.notifications
    pub installations : w'.installations ≡ w.installations

  trans : (u v w : World s) → SameBookings u v → SameBookings v w → SameBookings u w
  trans u v w h k = record {
    online = k.online ∙ h.online;
    queues = k.queues ∙ h.queues;
    pull_requests = k.pull_requests ∙ h.pull_requests;
    notifications = k.notifications ∙ h.notifications;
    installations = k.installations ∙ h.installations;
  }

  abbrev pub KeepsBookings : {A : Type 0} → Promise s A → Type 0
  KeepsBookings m = Keeps SameBookings m

  then-kept :
      {A B : Type 0} (m : Promise s A) (f : A → Promise s B)
      → KeepsBookings m
      → ((a : A) → KeepsBookings (f a))
      → KeepsBookings (m >>= f)
  then-kept = Keeps-then SameBookings trans

module _ (s : Services) where
  KeepsBookings-get_user_info : (token : String) → KeepsBookings (get_user_info s token)
  unfolding get_user_info
  KeepsBookings-get_user_info token w = ground arith

  KeepsBookings-set_token : (token : String) (i : TokenInfo) → KeepsBookings (set_token s token i)
  unfolding set_token
  KeepsBookings-set_token token i w = ground arith

  KeepsBookings-get_token_info_from_github :
      (token : String) → KeepsBookings (get_token_info_from_github s token)
  unfolding get_token_info_from_github
  KeepsBookings-get_token_info_from_github token =
      then-kept (get_user_info s token) (set_token s token) (KeepsBookings-get_user_info token)
        (KeepsBookings-set_token token)

  pub KeepsBookings-get_token_info : (token : String) → KeepsBookings (get_token_info s token)
  unfolding get_token_info
  KeepsBookings-get_token_info token w =
      ground (arith, KeepsBookings-get_token_info_from_github token w)

  KeepsBookings-get_pages :
      (token : String) (id : ℕ) → KeepsBookings (get_installation_pages s token id)
  unfolding get_installation_pages
  KeepsBookings-get_pages token id w = ground arith

  KeepsBookings-set_installation_info :
      (id : ℕ) (i : InstallationInfo) (token : String)
      → KeepsBookings (set_installation_info_of s id i token)
  unfolding set_installation_info_of
  KeepsBookings-set_installation_info id i token w = ground arith

  KeepsBookings-evolved :
      (pages : InstallationPages) (o : Option (List Repository)) → KeepsBookings (evolved s pages o)
  KeepsBookings-evolved pages o w = ground arith

  KeepsBookings-get_info_from_github :
      (token : String) (id : ℕ) → KeepsBookings (get_installation_info_from_github s token id)
  unfolding get_installation_info_from_github
  KeepsBookings-get_info_from_github token id =
      then-kept (get_installation_pages s token id) _ (KeepsBookings-get_pages token id) (λ pages.
        then-kept (evolved s pages (picked pages.repositories)) _
          (KeepsBookings-evolved pages (picked pages.repositories))
          (λ i. KeepsBookings-set_installation_info id i token))

  pub KeepsBookings-get_installation_info :
      (token : String) (id : ℕ) → KeepsBookings (get_installation_info s token id)
  unfolding get_installation_info
  KeepsBookings-get_installation_info token id w =
      ground (arith, KeepsBookings-get_info_from_github token id w)

  KeepsBookings-get_installation_id : (owner : String) → KeepsBookings (get_installation_id s owner)
  unfolding get_installation_id
  KeepsBookings-get_installation_id owner w = ground arith

  KeepsBookings-check_client : (i : TokenInfo) → KeepsBookings (check_client s i)
  unfolding check_client
  KeepsBookings-check_client i w = ground arith

  KeepsBookings-or_refuse :
      {A : Type 0} (message : String) (o : Option A) → KeepsBookings (or_refuse s message o)
  KeepsBookings-or_refuse message o w = ground arith

  KeepsBookings-user_at :
      (a : Access) (token : String) (username : Field) (id : ℕ)
      → KeepsBookings (user_at s a token username id)
  KeepsBookings-user_at a token username id =
      then-kept (get_installation_info s token id) _ (KeepsBookings-get_installation_info token id)
        (λ info w. ground arith)

  KeepsBookings-identify : (a : Access) (token : String) → KeepsBookings (identify s a token)
  unfolding identify
  KeepsBookings-identify a token =
      then-kept (get_token_info s token) _ (KeepsBookings-get_token_info token) (λ i.
        then-kept (check_client s i) _ (KeepsBookings-check_client i) (λ username.
          then-kept (get_installation_id s a.owner) _ (KeepsBookings-get_installation_id a.owner)
            (λ found.
              then-kept (or_refuse s "No installation id" found) (user_at s a token username)
                (KeepsBookings-or_refuse "No installation id" found)
                (KeepsBookings-user_at a token username))))

  or_unauthorized_total :
      (m : Promise s User) (w : World s)
      → KeepsBookings m
      → (o : Option User) × (w' : World s) × (or_unauthorized s m w ≡ fulfilled o w')
        × SameBookings w w'
  or_unauthorized_total m w kept = elim (Settled-cases (m w)) [
    | inl (u, v, e) ↦ (some u, v, rw e refl, subst (λ r. SameBookings w (world_of r)) e (kept w))
    | inr (x, v, e) ↦ (
      none,
      record v { log = v.log ++ failure x ∷ [] },
      rw e refl,
      let k = subst (λ r. SameBookings w (world_of r)) e (kept w) in
          record {
            online = k.online;
            queues = k.queues;
            pull_requests = k.pull_requests;
            notifications = k.notifications;
            installations = k.installations;
          },
    )
  ]

  -- The authenticator answers every request, with a user or with the error 401, and changes neither
  -- the queues nor what is known of pull requests nor the notifications nor the installation ids
  -- nor whether there is a database.
  pub authenticate_total :
      (a : Access) (w : World s)
      → (o : Option User) × (w' : World s) × (authenticate s a w ≡ fulfilled o w')
        × SameBookings w w'
  unfolding authenticate
  authenticate_total a w = elim (Bool-cases (development s)) [
    | inl dev ↦ (some developer, w, rw dev refl, ground arith)
    | inr live ↦ elim (Option-cases (token_of a.authorization)) [
      | inl absent ↦ (none, w, rw (live, absent) refl, ground arith)
      | inr (token, carries) ↦
          let (o, w', e, k) =
            or_unauthorized_total (identify s a token) w (KeepsBookings-identify a token) in
          (o, w', rw (live, carries) e, k)
    ]
  ]
