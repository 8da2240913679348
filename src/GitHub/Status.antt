-- ===== src/GitHub/Status.antt =====
-- github.js, `getCombinedStatus`: when a commit is pending, failed or successful.
use ugo.Base.{
  ◌≡◌, ◌≢◌, ◌↔◌, ◌⊎◌, String, true, false, List, [], ◌∷◌, ◌++◌, ℕ, Option, none, str_eq_iff, any,
  arith,
}
use ugo.Model.Http.{Response, Request, access_tokens}
use ugo.World.{Services, World, fulfilled}
use ugo.Promise.{world_of}
use ugo.GitHub.{get_hash_combined_status, get_hash_check_suites, get_hash_status, shown_number}
use ugo.GitHub.CombinedStatus.{
  status_success, status_failure, status_pending, is_nil, is_conclusion, conclusions_of, state_of,
  combined_status,
}

-- The combined status is pending exactly if a conclusion is null or the state is pending; a failure
-- exactly if it is not pending and a conclusion or the state is a failure; and a success in every
-- other case, whatever the conclusions and the state are.
pub combined_status_cases :
    (suites status : Option Response)
    → let cs = conclusions_of suites in
      let t = state_of status in
      let c = combined_status suites status in
      ((c ≡ status_pending) ↔ ((any is_nil cs ≡ true) ⊎ (t ≡ status_pending)))
      × ((c ≡ status_failure) ↔ (
          (any is_nil cs ≡ false)
          × (t ≢ status_pending)
          × ((any (is_conclusion status_failure) cs ≡ true) ⊎ (t ≡ status_failure))))
      × ((c ≡ status_success) ↔ (
          (any is_nil cs ≡ false)
          × (t ≢ status_pending)
          × (any (is_conclusion status_failure) cs ≡ false)
          × (t ≢ status_failure)))
unfolding combined_status
combined_status_cases suites status =
    let t = state_of status in
    ground (
      arith,
      str_eq_iff t status_pending,
      str_eq_iff t status_failure,
      str_eq_iff status_pending status_failure,
      str_eq_iff status_pending status_success,
      str_eq_iff status_failure status_success,
    )

-- Where every request to GitHub fails, the combined status of a commit is a success.
pub get_hash_combined_status-outage :
    (s : Services) (installation_id : Option ℕ) (owner repo sha : String) (w : World s)
    → ((rs : List Request) (r : Request) → s.respond rs r ≡ none)
    → (w' : World s) × (get_hash_combined_status s installation_id owner repo sha w
        ≡ fulfilled status_success w')
unfolding get_hash_combined_status get_hash_check_suites get_hash_status combined_status
get_hash_combined_status-outage s installation_id owner repo sha w fails =
    let a = access_tokens (shown_number installation_id) in
    (
      world_of (get_hash_combined_status s installation_id owner repo sha w),
      ground (arith, fails w.requests a, fails (w.requests ++ a ∷ []) a),
    )
