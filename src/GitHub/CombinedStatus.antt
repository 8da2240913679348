-- ===== src/GitHub/CombinedStatus.antt =====
-- github.js, `getCombinedStatus`: one status from the check suites and the status of a commit.
use ugo.Base.{
  String, Bool, true, false, not, ◌&&◌, ◌||◌, List, [], Option, none, some, if◌then◌else◌, str_eq,
  any,
}
use ugo.Model.Http.{Response}

-- `GitHub.STATUS_…` and `GitHub.CHECK_SUITE_CONCLUSION_…`, of which both name these two the same.
abbrev pub status_success : String
status_success = "success"

abbrev pub status_failure : String
status_failure = "failure"

abbrev pub status_pending : String
status_pending = "pending"

abbrev pub is_nil : Option String → Bool
is_nil none = true
is_nil (some c) = false

abbrev pub is_conclusion : String → Option String → Bool
is_conclusion c none = false
is_conclusion c (some d) = str_eq d c

-- `pluck('conclusion', pathOr([], ['check_suites'], response))`.
abbrev pub conclusions_of : Option Response → List (Option String)
conclusions_of none = []
conclusions_of (some r) = elim r.check_suites [ none ↦ [] | some cs ↦ cs ]

-- `pathOr('', ['state'], response)`.
abbrev pub state_of : Option Response → String
state_of none = ""
state_of (some r) = elim r.state [ none ↦ "" | some t ↦ t ]

unfoldable pub combine : List (Option String) → String → String
combine conclusions state =
    let conclusions_has_pending = any is_nil conclusions in
    let conclusions_is_success =
      not (any (λ c. not (is_conclusion status_success c)) conclusions) in
    let conclusions_has_failure = any (is_conclusion status_failure) conclusions in
    if conclusions_has_pending || str_eq state status_pending
    then status_pending
    else if conclusions_has_failure || str_eq state status_failure
    then status_failure
    else if conclusions_is_success && str_eq state status_success
    then status_success
    else status_success

unfoldable pub combined_status : Option Response → Option Response → String
unfolding combine
combined_status suites status = combine (conclusions_of suites) (state_of status)
