-- ===== src/Model/Installation.antt =====
-- manager-installation.js and manager-installation-info.js: the documents of the collections
-- `installation` and `installationInfo`, and their queries.
use ugo.Base.{ℕ, String, ◌≡◌, Bool, true, false, ◌==◌, List, [], Option, none, some}
use ugo.Mongo.{Collection}
use ugo.Model.PullRequest.{is_some_text}

-- A repository of an installation and what the user may do there; an absent key is `none`.
pub record Permissions : Type 0 where
  pub push : Option Bool
  pub pull : Option Bool
  pub admin : Option Bool

pub record Repository : Type 0 where
  pub full_name : Option String
  pub permissions : Option Permissions

pub record InstallationInfo : Type 0 where
  pub total_count : Option ℕ
  pub repositories : List Repository
  pub client_id : Option String

pub record InstallationDocument : Type 0 where
  pub installation_id : Option ℕ
  pub owner : Option String

pub record InstallationInfoDocument : Type 0 where
  pub installation_id : Option ℕ
  pub info : InstallationInfo

-- `{ owner }` and `{ installationId }`.
pub data Condition : Type 0 where
  owned_by : String → Condition
  of_installation : Option ℕ → Condition

-- `{ $set: { installationId, owner } }` and `{ $set: { ...info, installationId, created_at } }`.
pub data Update : Type 0 where
  set_installation : ℕ → String → Update

pub data InfoUpdate : Type 0 where
  set_installation_info : ℕ → InstallationInfo → InfoUpdate

-- No projection, and `{ _id: false, created_at: false, installationId: false }`.
pub data Projection : Type 0 where
  whole : Projection

abbrev pub no_installation_info : InstallationInfo
no_installation_info = record { total_count = none; repositories = []; client_id = none }

-- The filter on a missing id matches the documents without one.
abbrev pub same_number : Option ℕ → Option ℕ → Bool
same_number none none = true
same_number (some m) (some n) = m == n
same_number _ _ = false

pub record IsInstallationQueries {T : Type 0}
    (c : Collection T InstallationDocument Condition Update Projection InstallationDocument)
    : Type 0 where
  pub satisfies-owned_by :
      (owner : String) (d : InstallationDocument)
      → c.satisfies (owned_by owner) d ≡ is_some_text d.owner owner
  pub apply-set_installation :
      (id : ℕ) (owner : String) (d : InstallationDocument)
      → c.apply (set_installation id owner) d
        ≡ record { installation_id = some id; owner = some owner }
  pub project-whole : (d : InstallationDocument) → c.project whole d ≡ d

pub record IsInstallationInfoQueries {T : Type 0}
    (c : Collection T InstallationInfoDocument Condition InfoUpdate Projection InstallationInfo)
    : Type 0 where
  pub satisfies-of_installation :
      (id : Option ℕ) (d : InstallationInfoDocument)
      → c.satisfies (of_installation id) d ≡ same_number d.installation_id id
  pub apply-set_installation_info :
      (id : ℕ) (i : InstallationInfo) (d : InstallationInfoDocument)
      → c.apply (set_installation_info id i) d ≡ record { installation_id = some id; info = i }
  pub project-whole : (d : InstallationInfoDocument) → c.project whole d ≡ d.info
