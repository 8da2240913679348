-- ===== src/Sample/Access.antt =====
-- The theorems on tokens, installations and the authenticator, for a user of the repository `acme/shop`.
use ugo.Model.Message.{Message}
use ugo.QueueEvents.{push_queue_update}
use ugo.QueueRoutes.Api.{channel_request}
use ugo.Service.{deliver}
use ugo.Service.Channel.{channel-update}
use ugo.Reply.{sent_channel}
use ugo.Sample.Data.{short-main, main_id}
use ugo.Base.{
  ◌++◌, ◌≡◌, ◌↔◌, ◌⊎◌, refl, String, true, false, List, [], ◌∷◌, none, some, keep, decimal,
}
use ugo.Model.Queue.{Item}
use ugo.Model.User.{User, TokenInfo, text}
use ugo.Model.PullRequest.{Info}
use ugo.Model.Installation.{InstallationDocument, InstallationInfo}
use ugo.World.{World, fulfilled}
use ugo.Promise.{world_of}
use ugo.Reply.{sent_infos, next_status}
use ugo.QueueManager.Bookings.{booked}
use ugo.TokenManager.{get_token_info, get_token_info_from_github, set_token}
use ugo.TokenManager.Effects.{get_token_info_again, token_at, token_again}
use ugo.GitHub.Accounts.{get_user_info, get_installation_pages}
use ugo.InstallationManager.{get_installation_id}
use ugo.InstallationInfoManager.{
  get_installation_info, set_installation_info_of, get_installation_info_from_github,
}
use ugo.Authenticator.{Access, authenticate, identify, check_client, token_of}
use ugo.Authenticator.Again.{authenticate_again}
use ugo.Authenticator.Laws.{IsGranted, authenticate-IsGranted}
use ugo.QueueRoutes.{delete, get_pull_requests}
use ugo.QueueRoutes.Api.{queue_request}
use ugo.QueueRoutes.Access.{queue_request-Answered, queue_request-IsGranted}
use ugo.QueueRoutes.Found.{IsKnownOf, get_pull_requests_cases}
use ugo.QueueRoutes.Answers.{Replied, IsAnsweredBy, expected}
use ugo.QueueRoutes.Bounds.{requests-queue_request}
use ugo.Base.{length, ◌≤◌, ◌+◌}
use ugo.Server.{Errors}
use ugo.QueueRoutes.Rights.{is_others}
use ugo.Sample.Driver.{lookup, all_matches}
use ugo.Sample.Events.{accept}
use ugo.Sample.Data.{running, state, second_item, shop}
use mathlib.Core.List.{Memᴰ}

abbrev pub acme : InstallationDocument
acme = record { installation_id = some 5; owner = some "acme" }

abbrev pub installed : World running
installed = record state { installations = (decimal 5, some acme) ∷ [] }

abbrev pub access : Access
access = record { authorization = some "token abc"; owner = "acme"; repository = "shop" }

abbrev bob : User
bob = record { username = text "bob"; can_push = true; can_pull = true; is_admin = false }

abbrev pub plain_errors : Errors
plain_errors = record {
  created = λ n. record { status = some n; message = "refused"; stack = some "at" };
  thrown = λ f. record { status = none; message = "failed"; stack = some "at" };
  status-created = λ n. refl;
  status-thrown = λ f. refl;
}

queue_request-Answered_example :
    Replied
      (IsAnsweredBy plain_errors false (expected running Item accept (delete second_item)))
      (queue_request running Item accept access "main" (delete second_item))
      installed
queue_request-Answered_example =
    queue_request-Answered running Item accept plain_errors false access "main" (delete second_item)
      installed

queue_request-IsGranted_example :
    let w' =
      world_of (queue_request running Item accept access "main" (delete second_item) installed) in
    ((k : String) → booked running w' k ≡ booked running installed k)
    ⊎ ((u : User) × (v : World running) × IsGranted running access u installed v
        × (u.is_admin ≡ false
            → (k : String)
            → keep (is_others u) (booked running w' k)
              ≡ keep (is_others u) (booked running installed k)))
queue_request-IsGranted_example =
    queue_request-IsGranted running Item accept access "main" (delete second_item) installed refl

abbrev ann_info : TokenInfo
ann_info = record {
  login = text "ann";
  client_id = text "app";
  created_at = text "2017-01-01T00:00:00Z";
  updated_at = text "2018-01-01T00:00:00Z";
}

abbrev known_token : World running
known_token = world_of (get_token_info running "abc" state)

no_token : token_at running state "abc" ≡ none
unfolding lookup
no_token = refl

asked_token : get_token_info running "abc" state ≡ fulfilled ann_info known_token
unfolding get_token_info get_token_info_from_github get_user_info set_token lookup
asked_token = refl

get_token_info_again_example :
    get_token_info running "abc" known_token ≡ fulfilled (token_again ann_info) known_token
get_token_info_again_example =
    get_token_info_again running "abc" state refl ann_info known_token no_token asked_token

abbrev known_info : World running
known_info = world_of (get_installation_info running "abc" 5 installed)

abbrev shop_info : InstallationInfo
shop_info = record { total_count = some 1; repositories = shop ∷ []; client_id = some "app" }

asked_info : get_installation_info running "abc" 5 installed ≡ fulfilled shop_info known_info
unfolding get_installation_info get_installation_info_from_github get_installation_pages
    set_installation_info_of lookup
asked_info = refl

get_pull_requests_cases_example :
    ((get_pull_requests running "acme" "shop" state ≡ fulfilled (next_status 404 ∷ []) state)
      × ((i : Info) → ¬ IsKnownOf running state "acme" "shop" i))
    ⊎ ((first : Info) × (rest : List Info) × (get_pull_requests running "acme" "shop" state
          ≡ fulfilled (sent_infos (first ∷ rest) ∷ []) state)
        × ((i : Info) → Memᴰ i (first ∷ rest) ↔ IsKnownOf running state "acme" "shop" i))
get_pull_requests_cases_example = get_pull_requests_cases running "acme" "shop" state refl

abbrev ann : User
ann = record { username = text "ann"; can_push = true; can_pull = true; is_admin = false }

abbrev let_in : World running
let_in = world_of (authenticate running access installed)

is_let_in : authenticate running access installed ≡ fulfilled (some ann) let_in
unfolding authenticate identify check_client token_of get_token_info get_token_info_from_github
    get_user_info set_token get_installation_id get_installation_info
    get_installation_info_from_github get_installation_pages set_installation_info_of lookup
    all_matches
is_let_in = refl

authenticate-IsGranted_example :
    (authenticate running access installed ≡ fulfilled (some ann) let_in)
    ↔ IsGranted running access ann installed let_in
authenticate-IsGranted_example = authenticate-IsGranted running access installed ann let_in refl

authenticate_again_example : authenticate running access let_in ≡ fulfilled (some ann) let_in
authenticate_again_example =
    authenticate_again running access "app" installed let_in ann refl refl refl is_let_in

channel-update_example :
    (m : Message) × (c : String) × ((world_of
        (push_queue_update running "acme" "shop" "main" state)).published
      ≡ state.published ++ m ∷ [])
    × (channel_request running access "main" installed ≡ fulfilled (sent_channel c ∷ []) let_in)
    × ((x : World running)
        → (world_of (deliver running m x)).triggers
          ≡ x.triggers
            ++ record { channel = c; event = "queue.update"; items = booked running state main_id }
              ∷ [])
channel-update_example =
    channel-update running access "main" ann state installed let_in refl short-main is_let_in

requests-queue_request_example :
    length
      (world_of
        (queue_request running Item accept access "main" (delete second_item) installed)).requests
    ≤ length installed.requests + 2
requests-queue_request_example =
    requests-queue_request running Item accept access "main" (delete second_item) installed
