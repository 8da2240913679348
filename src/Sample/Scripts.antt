-- ===== src/Sample/Scripts.antt =====
-- The theorems on the migrations and on analytics, for a database of which the names of the collections
-- are seen.
use ugo.Base.{
  ◌≡◌, ◌⊎◌, ◌-◌, ◌*◌, ◌≤◌, ◌<◌, String, Bool, true, false, List, [], ◌∷◌, ◌++◌, none, some, any,
  str_eq, if◌then◌else◌,
}
use ugo.NotificationHandler.{delayed}
use ugo.Migrations.{
  Command, create_collection, create_indexes, drop_index, drop_database, add_pull_request, script,
  notification_expiry,
}
use ugo.Migrations.Laws.{AllSucceed, StopsAt, after_all, script_cases, notification_expiry_cases}
use ugo.Analytics.{
  TrackedRequest, TrackedResponse, pageview, track_request, end_each, end_each-track_request,
}

-- A collection that exists is not created again.
perform : Command → List String → List String × Bool
perform (create_collection name) d = if any (str_eq name) d then (d, false) else (name ∷ d, true)
perform (create_indexes name is) d = (d, any (str_eq name) d)
perform (drop_index name i) d = (d, any (str_eq name) d)
perform drop_database d = ([], true)

abbrev existing : List String
existing = "pullRequest" ∷ []

script_cases_example :
    let d = existing in
    let after = script (List String) perform true add_pull_request d in
    ((after.1 ≡ true)
      × AllSucceed (List String) perform add_pull_request d
      × (after.0 ≡ after_all (List String) perform add_pull_request d))
    ⊎ ((after.1 ≡ false) × StopsAt (List String) perform add_pull_request d after.0)
script_cases_example = script_cases (List String) perform add_pull_request existing

notification_expiry_cases_example :
    (notification_expiry ≡ 2 * (delayed 42 none - 42))
    × (14 ≤ 42 → notification_expiry < delayed 42 (some 60) - 42)
notification_expiry_cases_example = notification_expiry_cases 42 60

abbrev visit : TrackedRequest
visit = record {
  username = none;
  ip = "10.0.0.1";
  protocol = "https";
  hostname = "ugo.example";
  original_url = "/queue";
  user_agent = none;
}

abbrev fresh : TrackedResponse
fresh = record { trackers = 0; ended = []; pageviews = [] }

end_each-track_request_example :
    end_each visit ("a" ∷ "b" ∷ []) (track_request fresh)
    ≡ record { trackers = 0; ended = [] ++ "a" ∷ "b" ∷ []; pageviews = [] ++ pageview visit ∷ [] }
end_each-track_request_example = end_each-track_request visit "a" ("b" ∷ []) fresh
