-- ===== src/Webhook/Passed.antt =====
-- routes-webhook.js: a request that passes the first tests.
use ugo.Base.{◌≡◌, refl, ◌∙◌, inl, inr, String, true, ◌||◌, some, arith, Bool-cases}
use ugo.Model.Webhook.{WebhookRequest}
use ugo.World.{Services, World}
use ugo.Webhook.Button.{truthy}
use ugo.Webhook.Chain.{is_environment, signed, validate_signature, check_availability, read_sender}
use ugo.Webhook.Route.{dispatch, webhook}

module _ (s : Services) where
  validated :
      (r : WebhookRequest) (w : World s)
      → signed s (truthy s.environment.secret_token) r ≡ true
      → webhook s r w ≡ check_availability s r (read_sender s r (dispatch s r)) w
  unfolding webhook validate_signature
  validated r w right =
      elim (Bool-cases (is_environment s "test" || is_environment s "development")) [
        | inl unchecked ↦ rw unchecked refl
        | inr checked ↦ rw (checked, right) refl
      ]

  passed :
      (r : WebhookRequest) (w : World s)
      → w.online ≡ true
      → (username : String) → r.body.sender_login ≡ some username
      → check_availability s r (read_sender s r (dispatch s r)) w ≡ dispatch s r w
  unfolding check_availability read_sender
  passed r w on username sender = ground (arith, on, sender)

  -- A request with the right signature and a sender goes to the handlers of events, where there is a
  -- database.
  pub webhook-dispatch :
      (r : WebhookRequest) (username : String) (w : World s)
      → w.online ≡ true
      → signed s (truthy s.environment.secret_token) r ≡ true
      → r.body.sender_login ≡ some username
      → webhook s r w ≡ dispatch s r w
  webhook-dispatch r username w on right sender =
      validated r w right ∙ passed r w on username sender
