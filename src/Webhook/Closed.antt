-- ===== src/Webhook/Closed.antt =====
-- routes-webhook.js: a pull request that is closed.
use ugo.Base.{
  ◌≡◌, refl, ◌∙◌, String, Bool, true, false, ◌&&◌, List, [], ◌∷◌, Option, none, some, arith,
}
use ugo.Model.Event.{PullRequest}
use ugo.Model.Http.{Request, Response}
use ugo.Model.Webhook.{Installation, WebhookRequest}
use ugo.World.{Services, World, fulfilled}
use ugo.Reply.{sent_text}
use ugo.QueueManager.{queue_id}
use ugo.QueueManager.Bookings.{booked}
use ugo.QueueManager.Unique.{Distinct}
use ugo.PullRequestHandler.{location_of}
use ugo.PullRequestHandler.Handlers.{handle_closed}
use ugo.PullRequestHandler.Closed.{IsClosed}
use ugo.PullRequestHandler.ClosedTotal.{handle_closed_total}
use ugo.Webhook.Button.{truthy}
use ugo.Webhook.Chain.{signed}
use ugo.Webhook.Events.{handle_status, handle_check_suite, handle_check_run, handle_repository}
use ugo.Webhook.Installations.{throws_on_closed, location_text, handle_pull_request}
use ugo.Webhook.Passed.{webhook-dispatch}
use ugo.Webhook.Route.{handle_caught, dispatch, webhook}

module _ (s : Services) where
  no_throw :
      (p : PullRequest)
      → (p.merged ≡ true → (u : String) × (p.merged_by ≡ some u))
      → throws_on_closed p ≡ false
  no_throw p user = by p.merged p.merged_by user
    where
      by :
          (merged : Bool) (u : Option String)
          → (merged ≡ true → (v : String) × (u ≡ some v))
          → (merged && elim u [ none ↦ true | some username ↦ false ]) ≡ false
      by false u h = refl
      by true none h = cc ((h refl).1)
      by true (some v) h = refl

  dispatched :
      (r : WebhookRequest) (i : Installation) (p : PullRequest) (w w' : World s)
      → r.event ≡ some "pull_request"
      → r.body.action ≡ some "closed"
      → r.body.installation ≡ some i
      → r.body.pull_request ≡ some p
      → throws_on_closed p ≡ false
      → handle_closed s p w ≡ fulfilled (location_of p) w'
      → dispatch s r w
        ≡ fulfilled (sent_text (location_text s r.body.action (location_of p)) ∷ []) w'
  unfolding dispatch handle_caught handle_status handle_check_suite handle_check_run
      handle_repository handle_pull_request
  dispatched r i p w w' event action installation found quiet done =
      ground (arith, event, action, installation, found, quiet, done)

-- Where GitHub answers every request.
module _ (s : Services) (f : List Request → Request → Response)
    (answers : (rs : List Request) (r : Request) → s.respond rs r ≡ some (f rs r)) where
  -- Where GitHub answers every request and the database answers, the queue of the base branch holds
  -- no pull request twice, and a merged pull request comes with the user that merged it: a request
  -- that passes the test of the signature and says that a pull request is closed is answered with a
  -- text; its booking is gone from the queue, what is known of it is deleted, and other queues and
  -- other pull requests are as they were.
  pub webhook-closes :
      (r : WebhookRequest) (i : Installation) (p : PullRequest) (username : String) (w : World s)
      → w.online ≡ true
      → signed s (truthy s.environment.secret_token) r ≡ true
      → r.event ≡ some "pull_request"
      → r.body.sender_login ≡ some username
      → r.body.action ≡ some "closed"
      → r.body.installation ≡ some i
      → r.body.pull_request ≡ some p
      → Distinct (booked s w (queue_id p.base_owner p.base_repo p.base_ref))
      → (p.merged ≡ true → (u : String) × (p.merged_by ≡ some u))
      → (w' : World s) × (webhook s r w
          ≡ fulfilled (sent_text (location_text s r.body.action (location_of p)) ∷ []) w')
        × IsClosed s p w w'
  webhook-closes r i p username w on right event sender action installation found distinct user =
      let (w', e, closed) = handle_closed_total s f answers p w on distinct user in
      (
        w',
        webhook-dispatch s r username w on right sender
            ∙ dispatched s r i p w w' event action installation found (no_throw s p user) e,
        closed,
      )
