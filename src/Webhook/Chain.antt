-- ===== src/Webhook/Chain.antt =====
-- routes-webhook.js and validator-signature-github.js: the chain of handlers and its first tests. A
-- handler takes the rest of the chain, which runs where the source calls `next`.
use ugo.Base.{String, Bool, true, ◌||◌, List, [], ◌∷◌, Option, none, some, if◌then◌else◌}
use ugo.Model.PullRequest.{is_some_text}
use ugo.Model.Webhook.{WebhookRequest}
use ugo.Webhook.Button.{truthy}
use ugo.World.{Services, Promise, type_error, failure}
use ugo.Promise.{◌>>=◌, ◌>>◌, catch, resolve, log_error}
use ugo.Reply.{Reply, sent_text, next_status, next_failure}
use ugo.PullRequestManager as Info

module _ (s : Services) where
  open s use {environment, sign}

  -- A handler that may call `next`.
  abbrev pub Handler : Type 0
  Handler = WebhookRequest → Promise s (List Reply) → Promise s (List Reply)

  -- What the source throws while it reads the body, before there is a promise.
  abbrev pub thrown : Promise s (List Reply)
  thrown = resolve (next_failure type_error ∷ [])

  -- `promise.then(() => res.json(…))`: nobody replies after a failure.
  abbrev pub replying : {A : Type 0} → Promise s A → (A → String) → Promise s (List Reply)
  replying m f = catch (m >>= λ a. resolve (sent_text (f a) ∷ [])) (λ e. resolve [])

  -- The same with a `catch`.
  abbrev pub replying_or_next : {A : Type 0} → Promise s A → (A → String) → Promise s (List Reply)
  replying_or_next m f =
      catch (m >>= λ a. resolve (sent_text (f a) ∷ []))
        (λ e. log_error (failure e) >> resolve (next_failure e ∷ []))

  abbrev pub is_environment : String → Bool
  is_environment name = is_some_text environment.node_env name

  -- The comparison of the signature, for the key of the environment that is left.
  abbrev pub signed : Option String → WebhookRequest → Bool
  signed none r = true
  signed (some key) r = is_some_text (truthy r.signature) (sign key r.json)

  unfoldable pub validate_signature : Handler
  validate_signature r next =
      if is_environment "test" || is_environment "development"
      then next
      else if signed (truthy environment.secret_token) r
      then next
      else resolve (next_status 401 ∷ [])

  unfoldable pub check_availability : Handler
  check_availability r next w =
      if Info.enabled s w then next w else resolve (next_status 503 ∷ []) w

  unfoldable pub read_sender : Handler
  read_sender r next = elim r.body.sender_login [ none ↦ thrown | some username ↦ next ]

  abbrev pub is_event : WebhookRequest → String → Bool
  is_event r name = is_some_text r.event name
