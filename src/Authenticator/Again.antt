-- ===== src/Authenticator/Again.antt =====
-- authenticator-github.js: a user that was let through is let through again, from what is stored.
use ugo.Base.{
  refl, subst, ◌≡◌, sym, ap, ◌∙◌, inl, inr, String, true, false, Option, some, str_eq_iff, arith,
  Option-cases, ℕ, List,
}
use ugo.Model.Installation.{Repository, InstallationInfo, owned_by, whole}
use ugo.Model.User.{
  User, TokenInfo, Field, undefined, null, text, same_field, field_of, stored_field,
}
use ugo.World.{Services, World, fulfilled}
use ugo.Promise.{world_of}
use ugo.Keeps.{Keeps, Keeps-then}
use ugo.GitHub.Accounts.{InstallationPages, get_installation_pages}
use ugo.InstallationManager.{get_installation_id, first_installation_id}
use ugo.InstallationManager.Effects.{get_installation_id_lem}
use ugo.InstallationInfoManager.{
  set_installation_info_of, evolved, picked, get_installation_info_from_github,
  get_installation_info,
}
use ugo.InstallationInfoManager.Effects.{get_installation_info_again}
use ugo.TokenManager.{get_token_info}
use ugo.TokenManager.Effects.{
  token_at, stored_token, without_dates, get_token_info_stored, stored-get_token_info,
}
use ugo.Authenticator.{user_with, Access, development, authenticate}
use ugo.Authenticator.Laws.{IsGranted, authenticate-IsGranted}
use ugo.Authenticator.Frame.{
  SameBookings, KeepsBookings-get_token_info, KeepsBookings-get_installation_info,
}

same_field-eq : (f : Field) (c : String) → same_field f (text c) ≡ true → f ≡ text c
same_field-eq undefined c h = cc
same_field-eq null c h = cc
same_field-eq (text a) c h = ap text ((str_eq_iff a c).0 h)

-- Two answers with the same user and application.
abbrev SameUser : TokenInfo → TokenInfo → Type 0
SameUser i j = (i.login ≡ j.login) × (i.client_id ≡ j.client_id)

module _ (s : Services) where
  abbrev SameTokens : World s → World s → Type 0
  SameTokens w w' = w'.tokens ≡ w.tokens

  trans : (u v w : World s) → SameTokens u v → SameTokens v w → SameTokens u w
  trans u v w h k = k ∙ h

  tokens-pages : (token : String) (id : ℕ) → Keeps SameTokens (get_installation_pages s token id)
  unfolding get_installation_pages
  tokens-pages token id w = ground arith

  tokens-set :
      (id : ℕ) (i : InstallationInfo) (token : String)
      → Keeps SameTokens (set_installation_info_of s id i token)
  unfolding set_installation_info_of
  tokens-set id i token w = ground arith

  tokens-evolved :
      (pages : InstallationPages) (o : Option (List Repository))
      → Keeps SameTokens (evolved s pages o)
  tokens-evolved pages o w = ground arith

  tokens-from_github :
      (token : String) (id : ℕ) → Keeps SameTokens (get_installation_info_from_github s token id)
  unfolding get_installation_info_from_github
  tokens-from_github token id =
      Keeps-then SameTokens trans (get_installation_pages s token id) _ (tokens-pages token id)
        (λ pages.
          Keeps-then SameTokens trans (evolved s pages (picked pages.repositories)) _
            (tokens-evolved pages (picked pages.repositories)) (λ i. tokens-set id i token))

  tokens-get_info : (token : String) (id : ℕ) → Keeps SameTokens (get_installation_info s token id)
  unfolding get_installation_info
  tokens-get_info token id w = ground (arith, tokens-from_github token id w)

  -- What is stored of a token after its user was asked for, where the user is of an application.
  stored_user :
      (token c : String) (i : TokenInfo) (w w1 : World s)
      → w.online ≡ true
      → get_token_info s token w ≡ fulfilled i w1
      → i.client_id ≡ text c
      → (j : TokenInfo) × (token_at s w1 token ≡ some j) × SameUser i j
  stored_user token c i w w1 on got client = elim (Option-cases (token_at s w token)) [
    | inl absent ↦
        let (at, _, stored) = stored-get_token_info s token w on i w1 absent got in
        (stored_token i at, stored, (refl, client ∙ sym (ap stored_field client)))
    | inr (j, found) ↦
        let same = sym (get_token_info_stored s token w on j found) ∙ got in
        let given : without_dates j ≡ i = cc in
        (
          j,
          sym (ap (λ r. token_at s (world_of r) token) same) ∙ found,
          (sym (ap (λ k. k.login) given), sym (ap (λ k. k.client_id) given)),
        )
  ]

  found_in : String → World s → Option ℕ
  found_in owner w =
      first_installation_id (s.installation_collection.find (owned_by owner) whole w.installations)

  -- What is found of an owner is found again where the installation ids are the same.
  get_installation_id_same :
      (owner : String) (o : Option ℕ) (w v w' : World s)
      → w.online ≡ true
      → w'.online ≡ true
      → w'.installations ≡ w.installations
      → get_installation_id s owner w ≡ fulfilled o v
      → (w ≡ v) × (get_installation_id s owner w' ≡ fulfilled o w')
  unfolding found_in
  get_installation_id_same owner o w v w' on on' same got =
      let known : fulfilled (found_in owner w) w ≡ fulfilled o v =
        sym (get_installation_id_lem s owner w on) ∙ got in
      let value : found_in owner w ≡ o = cc in
      let now : found_in owner w' ≡ o =
        ap (λ t. first_installation_id (s.installation_collection.find (owned_by owner) whole t))
          same
        ∙ value in
      (ap world_of known, get_installation_id_lem s owner w' on' ∙ ap (λ o. fulfilled o w') now)

  IsGranted-again :
      (a : Access) (c : String) (w w' : World s) (u : User)
      → w.online ≡ true
      → s.environment.client_id ≡ some c
      → IsGranted s a u w w'
      → IsGranted s a u w' w'
  IsGranted-again a c w w' u on app g =
      let first : SameBookings w g.w1 =
        subst (λ r. SameBookings w (world_of r)) g.has_user
          (KeepsBookings-get_token_info s g.token w) in
      let up1 = first.online ∙ on in
      let (same, _) =
        get_installation_id_same a.owner (some g.id) g.w1 g.w2 g.w1 up1 up1 refl g.has_id in
      let up2 = sym (ap (λ v. v.online) same) ∙ up1 in
      let later : SameBookings g.w2 w' =
        subst (λ r. SameBookings g.w2 (world_of r)) g.has_info
          (KeepsBookings-get_installation_info s g.token g.id g.w2) in
      let up = later.online ∙ up2 in
      let tokens : w'.tokens ≡ g.w1.tokens =
        subst (λ r. (world_of r).tokens ≡ g.w2.tokens) g.has_info
          (tokens-get_info g.token g.id g.w2)
        ∙ sym (ap (λ v. v.tokens) same) in
      let client =
        same_field-eq g.of_user.client_id c
          (ap (λ o. same_field g.of_user.client_id (field_of o)) (sym app) ∙ g.own_client) in
      let (j, kept, (login, application)) =
        stored_user g.token c g.of_user w g.w1 on g.has_user client in
      let stored = ap (λ t. s.token_collection.stored t g.token) tokens ∙ kept in
      let (_, has_id) =
        get_installation_id_same a.owner (some g.id) g.w1 g.w2 w' up1 up
          (later.installations ∙ sym (ap (λ v. v.installations) same)) g.has_id in
      record {
        token = g.token;
        of_user = without_dates j;
        id = g.id;
        info = g.info;
        repository = g.repository;
        permissions = g.permissions;
        carries = g.carries;
        own_client =
            subst (λ f. same_field f (field_of s.environment.client_id) ≡ true) application
              g.own_client;
        lists = g.lists;
        permits = g.permits;
        pushes = g.pushes;
        pulls = g.pulls;
        is_user = subst (λ f. u ≡ user_with f g.permissions) login g.is_user;
        w1 = w';
        w2 = w';
        has_user = get_token_info_stored s g.token w' up j stored;
        has_id = has_id;
        has_info = get_installation_info_again s g.token g.id g.w2 g.info w' up2 g.has_info;
      }

  -- Where the environment is not development, CLIENT_ID is set and the database answers: a request
  -- that was let through with a user is let through again with the same user, without a request to
  -- GitHub and without a change.
  pub authenticate_again :
      (a : Access) (c : String) (w w' : World s) (u : User)
      → development s ≡ false
      → s.environment.client_id ≡ some c
      → w.online ≡ true
      → authenticate s a w ≡ fulfilled (some u) w'
      → authenticate s a w' ≡ fulfilled (some u) w'
  authenticate_again a c w w' u live app on h =
      (authenticate-IsGranted s a w' u w' live).1
        (IsGranted-again a c w w' u on app ((authenticate-IsGranted s a w u w' live).0 h))
