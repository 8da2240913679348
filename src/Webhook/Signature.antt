-- ===== src/Webhook/Signature.antt =====
-- validator-signature-github.js: what a request without GitHub's signature does.
use ugo.Base.{
  ◌≡◌, ◌≢◌, refl, ap, inl, inr, String, true, false, ◌||◌, [], ◌∷◌, Option, none, some, str_eq,
  str_eq_iff, arith, Bool-cases,
}
use ugo.Model.PullRequest.{is_some_text}
use ugo.Model.Webhook.{WebhookRequest}
use ugo.World.{Services, World, fulfilled}
use ugo.Reply.{next_status}
use ugo.Webhook.Button.{truthy}
use ugo.Webhook.Chain.{is_environment, validate_signature}
use ugo.Webhook.Route.{webhook}

truthy-same : (o : Option String) (t : String) → is_some_text (truthy o) t ≡ true → o ≡ some t
truthy-same none t h = cc
truthy-same (some r) t h = elim (Bool-cases (str_eq r "")) [
  | inl empty ↦ absurd (ground (arith, h, empty))
  | inr there ↦ ap some ((str_eq_iff r t).0 (ground (arith, h, there)))
]

module _ (s : Services) where
  -- Where the environment is neither test nor development and the secret token is set: a request
  -- whose signature is not the HMAC of its body with that token is answered with the error 401 and
  -- changes nothing.
  pub webhook-unsigned :
      (key : String) (r : WebhookRequest) (w : World s)
      → (is_environment s "test" || is_environment s "development") ≡ false
      → truthy s.environment.secret_token ≡ some key
      → r.signature ≢ some (s.sign key r.json)
      → webhook s r w ≡ fulfilled (next_status 401 ∷ []) w
  unfolding webhook validate_signature
  webhook-unsigned key r w checked has_key other =
      elim (Bool-cases (is_some_text (truthy r.signature) (s.sign key r.json))) [
        | inl same ↦ absurd (other (truthy-same r.signature (s.sign key r.json) same))
        | inr differs ↦ rw (checked, has_key, differs) refl
      ]
