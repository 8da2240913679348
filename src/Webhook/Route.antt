-- ===== src/Webhook/Route.antt =====
-- routes-webhook.js: the chain of all handlers.
use ugo.Base.{List, [], ◌∷◌}
use ugo.Model.Webhook.{WebhookRequest}
use ugo.World.{Services, Promise}
use ugo.Promise.{resolve}
use ugo.Reply.{Reply, sent_text}
use ugo.Webhook.Chain.{validate_signature, check_availability, read_sender}
use ugo.Webhook.Events.{handle_status, handle_check_suite, handle_check_run, handle_repository}
use ugo.Webhook.Installations.{
  handle_pull_request, handle_installation, handle_installation_repositories,
}

module _ (s : Services) where
  -- The handlers of events that catch a failure, in the order of the file, and the one for what is
  -- left.
  unfoldable pub handle_caught : WebhookRequest → Promise s (List Reply)
  handle_caught r =
      handle_pull_request s r (
        handle_installation s r
          (handle_installation_repositories s r (resolve (sent_text "" ∷ []))))

  -- All handlers of events.
  unfoldable pub dispatch : WebhookRequest → Promise s (List Reply)
  dispatch r =
      handle_status s r
        (handle_check_suite s r (handle_check_run s r (handle_repository s r (handle_caught r))))

  unfoldable pub webhook : WebhookRequest → Promise s (List Reply)
  webhook r = validate_signature s r (check_availability s r (read_sender s r (dispatch r)))
