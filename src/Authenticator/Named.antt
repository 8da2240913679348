-- ===== src/Authenticator/Named.antt =====
-- authenticator-github.js: what it stores of an installation is stored under the id of the installation.
use ugo.Base.{◌≡◌, String, Option, none, some, arith, find?, ℕ, inl, inr, Bool-cases}
use ugo.Model.Installation.{InstallationInfo}
use ugo.Model.User.{Field, User, TokenInfo}
use ugo.World.{Services, World, Promise, failure}
use ugo.Promise.{◌>>=◌, ◌>>◌, world_of, resolve, log_error}
use ugo.Keeps.{Keeps-catch}
use ugo.InstallationManager.{get_installation_id}
use ugo.InstallationInfoManager.{get_installation_info}
use ugo.InstallationInfoManager.Named.{
  KeepsNames, KeepsNames-then, KeepsNames-same, KeepsNames-get, Names, Names-same,
}
use ugo.TokenManager.{get_token_info, get_token_info_from_github, set_token}
use ugo.GitHub.Accounts.{get_user_info}
use ugo.Authenticator.{
  Access, token_of, check_client, or_refuse, identify, user_at, or_unauthorized, with_token,
  permissions_of, check_permissions, user_with, is_repository_of, authenticate, development,
}

module _ (s : Services) where
  infos-get_token_info :
      (token : String) (w : World s)
      → (world_of (get_token_info s token w)).installation_infos ≡ w.installation_infos
  unfolding get_token_info get_token_info_from_github get_user_info set_token
  infos-get_token_info token w = ground arith

  infos-get_installation_id :
      (owner : String) (w : World s)
      → (world_of (get_installation_id s owner w)).installation_infos ≡ w.installation_infos
  unfolding get_installation_id
  infos-get_installation_id owner w = ground arith

  infos-check_client :
      (i : TokenInfo) (w : World s)
      → (world_of (check_client s i w)).installation_infos ≡ w.installation_infos
  unfolding check_client
  infos-check_client i w = ground arith

  KeepsNames-user_at :
      (a : Access) (token : String) (username : Field) (id : ℕ)
      → KeepsNames (user_at s a token username id)
  KeepsNames-user_at a token username id =
      KeepsNames-then (get_installation_info s token id) _ (KeepsNames-get s token id)
        (λ info w. Names-same w (world_of (checked info w)) (ground arith))
    where
      checked : InstallationInfo → Promise s User
      checked info = do
        r ← or_refuse s "Repository not found" (find? (is_repository_of a) info.repositories)
        p ← permissions_of s r
        check_permissions s (user_with username p)

  KeepsNames-identify : (a : Access) (token : String) → KeepsNames (identify s a token)
  unfolding identify
  KeepsNames-identify a token =
      KeepsNames-then (get_token_info s token) _
        (KeepsNames-same (get_token_info s token) (infos-get_token_info token))
        (λ i.
          KeepsNames-then (check_client s i) _
            (KeepsNames-same (check_client s i) (infos-check_client i))
            (λ username.
              KeepsNames-then (get_installation_id s a.owner) _
                (KeepsNames-same (get_installation_id s a.owner)
                  (infos-get_installation_id a.owner))
                (λ found.
                  KeepsNames-then (or_refuse s "No installation id" found)
                    (user_at s a token username)
                    (KeepsNames-same (or_refuse s "No installation id" found) (λ w. ground arith))
                    (KeepsNames-user_at a token username))))

  KeepsNames-or_unauthorized :
      (m : Promise s User) → KeepsNames m → KeepsNames (or_unauthorized s m)
  KeepsNames-or_unauthorized m h =
      Keeps-catch Names (λ u v w h k d. k (h d)) (m >>= λ u. resolve (some u))
        (λ e. log_error (failure e) >> resolve none)
        (KeepsNames-then m (λ u. resolve (some u)) h (λ u w n. n)) (λ e w n. n)

  KeepsNames-with_token : (a : Access) (o : Option String) → KeepsNames (with_token s a o)
  KeepsNames-with_token a none = λ w n. n
  KeepsNames-with_token a (some token) =
      KeepsNames-or_unauthorized (identify s a token) (KeepsNames-identify a token)

  pub KeepsNames-authenticate : (a : Access) → KeepsNames (authenticate s a)
  unfolding authenticate
  KeepsNames-authenticate a = elim (Bool-cases (development s)) [
    | inl dev ↦ rw dev (λ w n. n)
    | inr live ↦ rw live (KeepsNames-with_token a (token_of a.authorization))
  ]
