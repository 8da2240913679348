-- ===== src/PullRequestManager.antt =====
-- manager-pullrequest.js: what is known of a pull request, a document of the collection
-- `pullRequest`.
pub mod Effects
use ugo.Base.{ℕ, String, Bool, List, Option, dashed, decimal}
use ugo.Model.PullRequest.{
  Info, PullRequestDocument, set_info, info_only, of_repository, with_sha, owner_is,
}
use ugo.Model.Message.{info_set, info_delete, infos_delete}
use ugo.World.{Services, World, fulfilled, Promise}
use ugo.Promise.{has_database, ◌>>=◌, ◌>>◌, resolve, publish, get_collection}

-- `${owner}-${repo}-${number}`.
abbrev pub pull_request_id : String → String → ℕ → String
pull_request_id owner repo number = dashed owner (dashed repo (decimal number))

module _ (s : Services) where
  open s use {pull_request_collection}

  unfoldable pub set_pull_request_info : String → String → ℕ → Info → Promise s Info
  set_pull_request_info owner repo number info = do
    get_collection
    λ w. fulfilled tt (record w {
      pull_requests =
          pull_request_collection.upsert_one (pull_request_id owner repo number)
            (set_info owner repo info) w.pull_requests;
    })
    publish (info_set owner repo number info)
    resolve info

  unfoldable pub get_pull_request_info : String → String → ℕ → Promise s (Option Info)
  get_pull_request_info owner repo number = do
    get_collection
    λ w.
        fulfilled
          (pull_request_collection.find_by_id (pull_request_id owner repo number) info_only
            w.pull_requests)
          w

  unfoldable pub get_repository_pull_requests_info : String → String → Promise s (List Info)
  get_repository_pull_requests_info owner repo = do
    get_collection
    λ w.
        fulfilled
          (pull_request_collection.find (of_repository owner repo) info_only w.pull_requests) w

  unfoldable pub get_pull_request_info_by_sha : String → String → String → Promise s (Option Info)
  get_pull_request_info_by_sha owner repo sha = do
    get_collection
    λ w.
        fulfilled
          (pull_request_collection.find_one (with_sha owner repo sha) info_only w.pull_requests) w

  unfoldable pub delete_pull_request_info : String → String → ℕ → Promise s (Unit {0})
  delete_pull_request_info owner repo number = do
    get_collection
    λ w. fulfilled tt (record w {
      pull_requests =
          pull_request_collection.delete_one (pull_request_id owner repo number) w.pull_requests;
    })
    publish (info_delete owner repo number)

  unfoldable pub delete_pull_request_infos : String → Promise s (Unit {0})
  delete_pull_request_infos owner = do
    get_collection
    λ w. fulfilled tt (record w {
      pull_requests = pull_request_collection.delete_many (owner_is owner) w.pull_requests;
    })
    publish (infos_delete owner)

  abbrev pub enabled : World s → Bool
  enabled w = has_database w
