-- ===== src/InstallationManager.antt =====
-- manager-installation.js: the installation of an owner, a document of the collection `installation`.
pub mod Effects
use ugo.Base.{ℕ, String, Bool, List, [], ◌∷◌, Option, none, decimal}
use ugo.Model.Installation.{InstallationDocument, owned_by, set_installation, whole}
use ugo.Model.Message.{installation_set, installation_delete}
use ugo.World.{Services, World, fulfilled, Promise}
use ugo.Promise.{has_database, ◌>>=◌, ◌>>◌, resolve, publish, get_collection}

-- `path([0, 'installationId'])`.
abbrev pub first_installation_id : List InstallationDocument → Option ℕ
first_installation_id [] = none
first_installation_id (d ∷ ds) = d.installation_id

module _ (s : Services) where
  open s use {installation_collection}

  unfoldable pub get_installation_id : String → Promise s (Option ℕ)
  get_installation_id owner = do
    get_collection
    λ w.
        fulfilled
          (first_installation_id
            (installation_collection.find (owned_by owner) whole w.installations))
          w

  -- The `_id` is the number itself.
  unfoldable pub set_installation_id : String → ℕ → Promise s ℕ
  set_installation_id owner id = do
    get_collection
    λ w. fulfilled tt (record w {
      installations =
          installation_collection.upsert_one (decimal id) (set_installation id owner)
            w.installations;
    })
    publish (installation_set owner id)
    resolve id

  unfoldable pub delete_installation_id : String → Promise s (Unit {0})
  delete_installation_id owner = do
    get_collection
    λ w. fulfilled tt (record w {
      installations = installation_collection.delete_many (owned_by owner) w.installations;
    })
    publish (installation_delete owner)

  abbrev pub enabled : World s → Bool
  enabled w = has_database w
