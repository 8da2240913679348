-- ===== src/Migrations.antt =====
-- The scripts in the directory migrations, which make the collections and their indexes. What they
-- write to the console is left out.
pub mod Laws
use ugo.Base.{ℕ, String, Bool, true, false, List, [], ◌∷◌, Option, none, some, if◌then◌else◌}

-- An index in ascending order of its keys.
pub record Index : Type 0 where
  pub keys : List String
  pub name : String
  pub expire_after_seconds : Option ℕ

pub data Command : Type 0 where
  create_collection : String → Command
  create_indexes : String → List Index → Command
  drop_index : String → String → Command
  drop_database : Command

abbrev index : List String → String → Index
index keys name = record { keys = keys; name = name; expire_after_seconds = none }

-- An index by which documents are deleted some seconds after the date under its key.
abbrev expiring : String → ℕ → Index
expiring key seconds = record { keys = key ∷ []; name = key; expire_after_seconds = some seconds }

abbrev pub add_pull_request : List Command
add_pull_request =
    create_collection "pullRequest"
    ∷ create_indexes "pullRequest"
        (index ("owner" ∷ "repo" ∷ []) "owner_repo" ∷ index ("statusUrl" ∷ []) "statusUrl" ∷ [])
    ∷ []

abbrev pub add_github_token : List Command
add_github_token =
    create_collection "githubToken"
    ∷ create_indexes "githubToken" (index ("login" ∷ []) "login" ∷ expiring "created_at" 86400 ∷ [])
    ∷ []

abbrev pub add_installation : List Command
add_installation =
    create_collection "installation"
    ∷ create_indexes "installation" (index ("owner" ∷ []) "owner" ∷ [])
    ∷ []

abbrev pub add_installation_info : List Command
add_installation_info =
    create_collection "installationInfo"
    ∷ create_indexes "installationInfo"
        (index ("installationId" ∷ []) "installationId" ∷ expiring "created_at" 86400 ∷ [])
    ∷ []

abbrev pub add_queue : List Command
add_queue =
    create_collection "queue"
    ∷ create_indexes "queue"
        (index ("queue" ∷ []) "queue" ∷ index ("owner" ∷ "repo" ∷ []) "owner-repo" ∷ [])
    ∷ []

-- The seconds after which a stored notification expires.
abbrev pub notification_expiry : ℕ
notification_expiry = 120

abbrev pub add_push_notification : List Command
add_push_notification =
    create_collection "pushNotification"
    ∷ create_indexes "pushNotification" (
        index
          ("title" ∷ "message" ∷ "sendAt" ∷ "type" ∷ "owner" ∷ "repo" ∷ "pullRequestNumber"
            ∷ "username" ∷ [])
          "unique_fields"
        ∷ expiring "createdAt" notification_expiry
        ∷ [])
    ∷ []

abbrev pub drop_status_url : List Command
drop_status_url = drop_index "pullRequest" "statusUrl" ∷ []

abbrev pub drop_everything : List Command
drop_everything = drop_database ∷ []

-- The database is a parameter, and the driver's commands: whether a command succeeds, and the
-- database after it.
module _ (Database : Type 0) (perform : Command → Database → Database × Bool) where
  -- The chain of promises after the connection, and whether the client is closed at its end: the
  -- last `then` closes it, `catch` does not.
  unfoldable pub run : List Command → Database → Database × Bool
  run [] d = (d, true)
  run (c ∷ cs) d =
      let rest = run cs (perform c d).0 in
      if (perform c d).1 then rest else ((perform c d).0, false)

  -- A script; with no connection there is no client.
  unfoldable pub script : Bool → List Command → Database → Database × Bool
  script true cs d = run cs d
  script false cs d = (d, false)
