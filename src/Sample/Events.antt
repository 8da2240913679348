-- ===== src/Sample/Events.antt =====
-- Requests of GitHub.
use ugo.Base.{Option, none, some}
use ugo.Model.Queue.{Item}
use ugo.Model.Webhook.{Body, WebhookRequest}

abbrev pub accept : Item → Option Item
accept x = some x

abbrev pub empty_body : Body
empty_body = record {
  action = none;
  sender_login = none;
  state = none;
  sha = "abc";
  repository = none;
  check_suite = none;
  requested_action_identifier = none;
  check_run_pull_request = none;
  installation = none;
  pull_request = none;
}

-- The text of the body is the signature that the sample service computes.
abbrev pub nothing_known : WebhookRequest
nothing_known = record {
  signature = some "{}";
  event = none;
  body = empty_body;
  json = "{}";
  now = 50;
}
