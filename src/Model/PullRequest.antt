-- ===== src/Model/PullRequest.antt =====
-- manager-pullrequest.js: the documents of the collection `pullRequest`, and its queries.
use ugo.Base.{ℕ, String, ◌≡◌, Bool, false, ◌&&◌, List, Option, none, some, str_eq}
use ugo.Mongo.{Collection}

-- What `setPullRequestInfo` is given, and what the queries return; an absent key is `none`.
pub record Info : Type 0 where
  pub installation_id : Option ℕ
  pub pull_request_number : Option ℕ
  pub title : Option String
  pub author : Option String
  pub human_url : Option String
  pub branch : Option String
  pub assignees : Option (List String)
  pub sha : Option String
  pub status : Option String

pub record PullRequestDocument : Type 0 where
  pub owner : Option String
  pub repo : Option String
  pub info : Info

abbrev pub no_info : Info
no_info = record {
  installation_id = none;
  pull_request_number = none;
  title = none;
  author = none;
  human_url = none;
  branch = none;
  assignees = none;
  sha = none;
  status = none;
}

abbrev pub or_old {ℓ} : {A : Type ℓ} → Option A → Option A → Option A
or_old none old = old
or_old (some a) old = some a

-- `{ ...old, ...new }`: the keys that are given replace, the others stay.
unfoldable pub merge : Info → Info → Info
merge new old = record {
  installation_id = or_old new.installation_id old.installation_id;
  pull_request_number = or_old new.pull_request_number old.pull_request_number;
  title = or_old new.title old.title;
  author = or_old new.author old.author;
  human_url = or_old new.human_url old.human_url;
  branch = or_old new.branch old.branch;
  assignees = or_old new.assignees old.assignees;
  sha = or_old new.sha old.sha;
  status = or_old new.status old.status;
}

-- `{ owner, repo }`, `{ owner, repo, sha }`, `{ owner, repo, branch }` and `{ owner }`.
pub data Condition : Type 0 where
  of_repository : String → String → Condition
  with_sha : String → String → String → Condition
  with_branch : String → String → String → Condition
  owner_is : String → Condition

-- `{ $set: { ...info, owner, repo } }`.
pub data Update : Type 0 where
  set_info : String → String → Info → Update

-- `{ _id: false, owner: false, repo: false }`.
pub data Projection : Type 0 where
  info_only : Projection

abbrev pub is_some_text : Option String → String → Bool
is_some_text none s = false
is_some_text (some r) s = str_eq r s

pub record IsPullRequestQueries {T : Type 0}
    (c : Collection T PullRequestDocument Condition Update Projection Info) : Type 0 where
  pub satisfies-of_repository :
      (owner repo : String) (d : PullRequestDocument)
      → c.satisfies (of_repository owner repo) d
        ≡ (is_some_text d.owner owner && is_some_text d.repo repo)
  pub satisfies-with_sha :
      (owner repo sha : String) (d : PullRequestDocument)
      → c.satisfies (with_sha owner repo sha) d
        ≡ (is_some_text d.owner owner && is_some_text d.repo repo && is_some_text d.info.sha sha)
  pub satisfies-with_branch :
      (owner repo branch : String) (d : PullRequestDocument)
      → c.satisfies (with_branch owner repo branch) d ≡ (
          is_some_text d.owner owner
          && is_some_text d.repo repo
          && is_some_text d.info.branch branch)
  pub satisfies-owner_is :
      (owner : String) (d : PullRequestDocument)
      → c.satisfies (owner_is owner) d ≡ is_some_text d.owner owner
  pub blank-eq : c.blank ≡ record { owner = none; repo = none; info = no_info }
  pub apply-set_info :
      (owner repo : String) (i : Info) (d : PullRequestDocument)
      → c.apply (set_info owner repo i) d
        ≡ record { owner = some owner; repo = some repo; info = merge i d.info }
  pub project-info_only : (d : PullRequestDocument) → c.project info_only d ≡ d.info
