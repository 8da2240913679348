-- ===== src/Authenticator/Laws.antt =====
-- authenticator-github.js: who is let through, on every branch.
use Prim.Native.Char.{code}
use Prim.Native.String.{[], ◌∷◌, ◌++◌}
use text.Mathlib.TextLemmas.{nil-append, cons-append}
use ugo.Base.{
  ◌≡◌, ◌↔◌, refl, sym, ap, ◌∙◌, inl, inr, String, Bool, true, false, Option, none, some, find?,
  arith, Bool-cases, Option-cases, ℕ, ==_refl,
}
use ugo.Model.Installation.{Permissions, Repository, InstallationInfo}
use ugo.Model.User.{User, TokenInfo, Field, same_field, field_of}
use ugo.World.{Services, World, Settled, fulfilled, rejected, failure}
use ugo.Promise.{◌>>◌, settle_catch, settle_then, resolve, world_of, log_error}
use ugo.Promise.Cases.{fulfilled-then}
use ugo.InstallationManager.{get_installation_id}
use ugo.InstallationInfoManager.{get_installation_info}
use ugo.TokenManager.{get_token_info}
use ugo.Authenticator.{
  Access, after_prefix, token_prefix, token_of, user_with, is_repository_of, development,
  check_client, or_refuse, is_permitted, permissions_of, check_permissions, identify, user_at,
  authenticate,
}

after_prefix-append : (p s : String) → after_prefix p (p ++ s) ≡ some s
after_prefix-append [] s = rw nil-append refl
after_prefix-append (c ∷ p) s = rw (cons-append, ==_refl (code c)) (after_prefix-append p s)

-- The token of a header is what follows the prefix `token `.
pub token_of-append : (token : String) → token_of (some (token_prefix ++ token)) ≡ some token
unfolding token_of
token_of-append token = after_prefix-append token_prefix token

-- Why a user is let through: the user that is stored or known to GitHub for the token, of the
-- application's own client id, the installation of the owner, and the permissions for the repository.
pub record IsGranted (s : Services) (a : Access) (u : User) (w w' : World s) : Type 0 where
  pub token : String
  pub of_user : TokenInfo
  pub id : ℕ
  pub info : InstallationInfo
  pub repository : Repository
  pub permissions : Permissions
  pub w1 : World s
  pub w2 : World s
  pub carries : token_of a.authorization ≡ some token
  pub has_user : get_token_info s token w ≡ fulfilled of_user w1
  pub own_client : same_field of_user.client_id (field_of s.environment.client_id) ≡ true
  pub has_id : get_installation_id s a.owner w1 ≡ fulfilled (some id) w2
  pub has_info : get_installation_info s token id w2 ≡ fulfilled info w'
  pub lists : find? (is_repository_of a) info.repositories ≡ some repository
  pub permits : repository.permissions ≡ some permissions
  pub pushes : permissions.push ≡ some true
  pub pulls : permissions.pull ≡ some true
  pub is_user : u ≡ user_with of_user.login permissions

permitted : (o : Option Bool) → is_permitted o ≡ true → o ≡ some true
permitted none h = cc
permitted (some b) h = ap some h

module _ (s : Services) where
  client-checked :
      (i : TokenInfo) (w : World s) (f : Field) (w' : World s)
      → check_client s i w ≡ fulfilled f w'
      → (same_field i.client_id (field_of s.environment.client_id) ≡ true)
        × (f ≡ i.login)
        × (w ≡ w')
  unfolding check_client
  client-checked i w f w' h =
      elim (Bool-cases (same_field i.client_id (field_of s.environment.client_id))) [
        | inl same ↦ (same, ground (arith, h, same), ground (arith, h, same))
        | inr other ↦ absurd (ground (arith, h, other))
      ]

  not-refused :
      {A : Type 0} (message : String) (o : Option A) (w : World s) (a : A) (w' : World s)
      → or_refuse s message o w ≡ fulfilled a w'
      → (o ≡ some a) × (w ≡ w')
  not-refused message none w a w' h = cc
  not-refused message (some b) w a w' h = (cc, cc)

  permissions-found :
      (r : Repository) (w : World s) (p : Permissions) (w' : World s)
      → permissions_of s r w ≡ fulfilled p w'
      → (r.permissions ≡ some p) × (w ≡ w')
  permissions-found r w p w' h = elim (Option-cases r.permissions) [
    | inl absent ↦ absurd (ground (arith, h, absent))
    | inr (q, found) ↦ (ground (arith, h, found), ground (arith, h, found))
  ]

  permissions-checked :
      (f : Field) (p : Permissions) (w : World s) (u : User) (w' : World s)
      → check_permissions s (user_with f p) w ≡ fulfilled u w'
      → (p.push ≡ some true) × (p.pull ≡ some true) × (u ≡ user_with f p) × (w ≡ w')
  permissions-checked f p w u w' h = elim (Bool-cases (is_permitted p.push)) [
    | inr denied ↦ absurd (ground (arith, h, denied))
    | inl may_push ↦ elim (Bool-cases (is_permitted p.pull)) [
      | inr denied ↦ absurd (ground (arith, h, may_push, denied))
      | inl may_pull ↦
          let passed : fulfilled (user_with f p) w ≡ fulfilled u w' =
            sym (rw (may_push, may_pull) refl) ∙ h in
          (permitted p.push may_push, permitted p.pull may_pull, cc, ap world_of passed)
    ]
  ]

  -- Who a user is at an installation.
  user_at-found :
      (a : Access) (token : String) (f : Field) (id : ℕ) (w : World s) (u : User) (w' : World s)
      → user_at s a token f id w ≡ fulfilled u w'
      → (info : InstallationInfo) × (r : Repository) × (p : Permissions) × (get_installation_info s
            token id w
          ≡ fulfilled info w')
        × (find? (is_repository_of a) info.repositories ≡ some r)
        × (r.permissions ≡ some p)
        × (p.push ≡ some true)
        × (p.pull ≡ some true)
        × (u ≡ user_with f p)
  user_at-found a token f id w u w' h =
      let (info, v, infos, h1) = fulfilled-then (get_installation_info s token id) _ w u w' h in
      let (r, v1, listed, h2) =
        fulfilled-then
          (or_refuse s "Repository not found" (find? (is_repository_of a) info.repositories)) _ v u
          w' h1 in
      let (p, v2, permits, h3) = fulfilled-then (permissions_of s r) _ v1 u w' h2 in
      let (lists, e) =
        not-refused "Repository not found" (find? (is_repository_of a) info.repositories) v r v1
          listed in
      let (of_repository, e1) = permissions-found r v1 p v2 permits in
      let (may_push, may_pull, is_user, e2) = permissions-checked f p v2 u w' h3 in
      (
        info,
        r,
        p,
        infos ∙ ap (λ v. fulfilled info v) (e ∙ e1 ∙ e2),
        lists,
        of_repository,
        may_push,
        may_pull,
        is_user,
      )

  identify-IsGranted :
      (a : Access) (token : String) (w : World s) (u : User) (w' : World s)
      → token_of a.authorization ≡ some token
      → identify s a token w ≡ fulfilled u w'
      → IsGranted s a u w w'
  unfolding identify
  identify-IsGranted a token w u w' carries h =
      let (i, w1, user, h1) = fulfilled-then (get_token_info s token) _ w u w' h in
      let (f, v1, own, h2) = fulfilled-then (check_client s i) _ w1 u w' h1 in
      let (found, w2, ids, h3) = fulfilled-then (get_installation_id s a.owner) _ v1 u w' h2 in
      let (id, v2, has, h4) =
        fulfilled-then (or_refuse s "No installation id" found) (user_at s a token f) w2 u w' h3 in
      let (info, r, p, has_info, lists, permits, pushes, pulls, is_user) =
        user_at-found a token f id v2 u w' h4 in
      let (same_client, is_login, e) = client-checked i w1 f v1 own in
      let (is_id, e1) = not-refused "No installation id" found w2 id v2 has in
      record {
        token = token;
        of_user = i;
        id = id;
        info = info;
        repository = r;
        permissions = p;
        w1 = w1;
        w2 = w2;
        carries = carries;
        has_user = user;
        own_client = same_client;
        has_id = ap (get_installation_id s a.owner) e ∙ ids ∙ ap (λ o. fulfilled o w2) is_id;
        has_info = ap (get_installation_info s token id) e1 ∙ has_info;
        lists = lists;
        permits = permits;
        pushes = pushes;
        pulls = pulls;
        is_user = is_user ∙ ap (λ f. user_with f p) is_login;
      }

  IsGranted-identify :
      (a : Access) (w : World s) (u : User) (w' : World s)
      → (g : IsGranted s a u w w') → identify s a g.token w ≡ fulfilled u w'
  unfolding identify check_client
  IsGranted-identify a w u w' g =
      rw
        (
          g.has_user, g.own_client, g.has_id, g.has_info, g.lists, g.permits, g.is_user, g.pushes,
          g.pulls,
        )
        refl

  settled-unauthorized :
      (r : Settled s User) (u : User) (w' : World s)
      → settle_catch
          (settle_then r (λ u. resolve (some u)))
          (λ e. log_error (failure e) >> resolve none)
        ≡ fulfilled (some u) w'
      → r ≡ fulfilled u w'
  settled-unauthorized (fulfilled u' v) u w' h = ground (arith, h)
  settled-unauthorized (rejected e v) u w' h = absurd (ground (arith, h))

  -- Where the environment is not development: a request goes on with a user exactly if it carries a
  -- token whose user is known, of the application's own client id, the owner has an installation
  -- that lists the repository for the token, and the permissions there allow to push and to pull.
  pub authenticate-IsGranted :
      (a : Access) (w : World s) (u : User) (w' : World s)
      → development s ≡ false
      → (authenticate s a w ≡ fulfilled (some u) w') ↔ IsGranted s a u w w'
  unfolding authenticate
  authenticate-IsGranted a w u w' live = (through, back)
    where
      through : authenticate s a w ≡ fulfilled (some u) w' → IsGranted s a u w w'
      through h = elim (Option-cases (token_of a.authorization)) [
        | inl absent ↦ absurd (ground (arith, live, absent, h))
        | inr (token, carries) ↦
            identify-IsGranted a token w u w' carries
              (settled-unauthorized (identify s a token w) u w' (sym (rw (live, carries) refl) ∙ h))
      ]

      back : IsGranted s a u w w' → authenticate s a w ≡ fulfilled (some u) w'
      back g = rw (live, g.carries, IsGranted-identify a w u w' g) refl
