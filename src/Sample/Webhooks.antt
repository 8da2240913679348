-- ===== src/Sample/Webhooks.antt =====
-- The theorems on routes-webhook.js at requests about the installation of `acme`.
use ugo.Model.PullRequest.{is_some_text}
use ugo.Base.{true, false, ap, ◌≡◌, refl, ◌≢◌, String, [], ◌∷◌, Option, some, arith}
use ugo.Model.User.{User}
use ugo.Model.Webhook.{Installation, WebhookRequest}
use ugo.World.{World, fulfilled}
use ugo.Reply.{sent_text, next_status}
use ugo.Authenticator.{Access, authenticate}
use ugo.Webhook.Answered.{Settles, webhook-Answered}
use ugo.Webhook.Installations.{installation_text, location_text}
use ugo.Webhook.Route.{webhook, dispatch}
use ugo.Webhook.Chain.{validate_signature, check_availability, read_sender}
use ugo.Webhook.Events.{handle_status}
use ugo.PullRequestHandler.Handlers.{handle_status_change}
use ugo.PullRequestManager.{get_pull_request_info_by_sha}
use ugo.Webhook.Signature.{webhook-unsigned}
use ugo.Webhook.Uninstall.{IsWithout, webhook-uninstalls}
use ugo.Sample.Events.{empty_body, nothing_known}
use ugo.PullRequestHandler.{location_of}
use ugo.PullRequestHandler.Closed.{IsClosed}
use ugo.Webhook.Closed.{webhook-closes}
use ugo.Sample.Data.{running, state, answer, merged_pull_request, main_id, state-AllDistinct}
use ugo.Sample.Access.{installed}

abbrev installation : Installation
installation = record { id = 5; account_login = "acme" }

abbrev deletion : WebhookRequest
deletion = record nothing_known {
  event = some "installation";
  body = record empty_body {
    action = some "deleted";
    sender_login = some "ann";
    installation = some installation;
  };
}

-- A database that rejects what is asked of it.
abbrev refused : World running
refused = record installed { online = false; refusing = true }

webhook-Answered_example : Settles running deletion (webhook running deletion) refused
webhook-Answered_example = webhook-Answered running deletion refused

abbrev status_event : WebhookRequest
status_event = record nothing_known {
  event = some "status";
  body = record empty_body {
    sender_login = some "ann";
    repository = some (record { owner_login = "acme"; name = "shop" });
  };
}

-- The event of a status is not answered then.
status_unanswered : webhook running status_event refused ≡ fulfilled [] refused
unfolding webhook validate_signature check_availability read_sender dispatch handle_status
    handle_status_change get_pull_request_info_by_sha
status_unanswered = refl

webhook-uninstalls_example :
    (w' : World running) × (webhook running deletion installed
      ≡ fulfilled (sent_text (installation_text running (some "deleted") 5 "acme") ∷ []) w')
    × IsWithout running 5 "acme" installed w'
    × ((a : Access) (u : User) (v : World running)
        → a.owner ≡ "acme"
        → ¬ (authenticate running a w' ≡ fulfilled (some u) v))
webhook-uninstalls_example =
    webhook-uninstalls running deletion installation "ann" installed refl refl refl refl refl refl
      refl

abbrev forged : WebhookRequest
forged = record deletion { signature = some "sha1=" }

wrong_signature : ◌≢◌ {A = Option String} (some "sha1=") (some "{}")
wrong_signature e = ground (arith, ap (λ o. is_some_text o "{}") e)

webhook-unsigned_example :
    webhook running forged installed ≡ fulfilled (next_status 401 ∷ []) installed
webhook-unsigned_example = webhook-unsigned running "key" forged installed refl refl wrong_signature

abbrev closing : WebhookRequest
closing = record nothing_known {
  event = some "pull_request";
  body = record empty_body {
    action = some "closed";
    sender_login = some "bob";
    installation = some installation;
    pull_request = some merged_pull_request;
  };
}

webhook-closes_example :
    (w' : World running) × (webhook running closing state
      ≡ fulfilled
          (sent_text (location_text running (some "closed") (location_of merged_pull_request)) ∷ [])
          w')
    × IsClosed running merged_pull_request state w'
webhook-closes_example =
    webhook-closes running (λ rs r. answer) (λ rs r. refl) closing installation merged_pull_request
      "bob" state refl refl refl refl refl refl refl (state-AllDistinct main_id)
      (λ _. ("bob", refl))
