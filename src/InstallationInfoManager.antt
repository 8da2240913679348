-- ===== src/InstallationInfoManager.antt =====
-- manager-installation-info.js: the repositories of an installation that a user may see, a document of
-- the collection `installationInfo`. It expires after a day by an index of the collection; that it does
-- is left out.
pub mod Effects
pub mod Ids
pub mod Named
use ugo.Base.{ℕ, String, List, [], ◌∷◌, Option, none, some, if◌then◌else◌, dashed, decimal}
use mathlib.Core.Option
use ugo.Model.Installation.{
  Repository, InstallationInfo, of_installation, set_installation_info, whole,
}
use ugo.Model.Message.{installation_info_set, installation_info_delete}
use ugo.World.{Services, fulfilled, Promise, type_error}
use ugo.Promise.{has_database, ◌>>=◌, ◌>>◌, resolve, reject_with, publish, get_collection}
use ugo.GitHub.Accounts.{InstallationPages, get_installation_pages}

-- `${installationId}-${token}`.
abbrev pub installation_info_id : ℕ → String → String
installation_info_id id token = dashed (decimal id) token

-- `map(pick(['full_name', 'permissions']))`, which fails on `undefined`.
abbrev pub picked : List (Option Repository) → Option (List Repository)
picked [] = some []
picked (none ∷ rs) = none
picked (some r ∷ rs) = Option.map (λ qs. r ∷ qs) (picked rs)

module _ (s : Services) where
  open s use {installation_info_collection}

  unfoldable pub set_installation_info_of :
      ℕ → InstallationInfo → String → Promise s InstallationInfo
  set_installation_info_of id i token w =
      if has_database w
      then (do
        get_collection
        λ v. fulfilled tt (record v {
          installation_infos =
              installation_info_collection.upsert_one (installation_info_id id token)
                (set_installation_info id i) v.installation_infos;
        })
        publish (installation_info_set id i token)
        resolve i)
          w
      else fulfilled i w

  -- `evolve({ repositories: map(pick(…)) })`.
  abbrev pub evolved : InstallationPages → Option (List Repository) → Promise s InstallationInfo
  evolved pages none = reject_with type_error
  evolved pages (some rs) =
      resolve
        (record { total_count = pages.total_count; repositories = rs; client_id = pages.client_id })

  unfoldable pub get_installation_info_from_github : String → ℕ → Promise s InstallationInfo
  get_installation_info_from_github token id = do
    pages ← get_installation_pages s token id
    i ← evolved pages (picked pages.repositories)
    set_installation_info_of id i token

  abbrev pub info_or_github : String → ℕ → Option InstallationInfo → Promise s InstallationInfo
  info_or_github token id none = get_installation_info_from_github token id
  info_or_github token id (some i) = resolve i

  unfoldable pub get_installation_info : String → ℕ → Promise s InstallationInfo
  get_installation_info token id w =
      if has_database w
      then (do
        get_collection
        found ← λ v.
            fulfilled
              (installation_info_collection.find_by_id (installation_info_id id token) whole
                v.installation_infos)
              v
        info_or_github token id found)
          w
      else get_installation_info_from_github token id w

  -- The id may be missing.
  unfoldable pub delete_installation_infos : Option ℕ → Promise s (Unit {0})
  delete_installation_infos id w =
      if has_database w
      then (do
        get_collection
        λ v. fulfilled tt (record v {
          installation_infos =
              installation_info_collection.delete_many (of_installation id) v.installation_infos;
        })
        publish (installation_info_delete id))
          w
      else fulfilled tt w
