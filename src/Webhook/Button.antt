-- ===== src/Webhook/Button.antt =====
-- routes-webhook.js: the booking that a check run's button asks for.
use ugo.Base.{ℕ, String, Option, none, some, if◌then◌else◌, ◌==◌, str_eq}
use ugo.Model.Webhook.{EventRepository, CheckRunPullRequest}

infixl 5 ◌>>=◌
abbrev ◌>>=◌ : {A B : Type 0} → Option A → (A → Option B) → Option B
none >>= f = none
(some a) >>= f = f a

-- `!value` is false: the text or the number that is left.
abbrev pub truthy : Option String → Option String
truthy none = none
truthy (some t) = if str_eq t "" then none else some t

abbrev pub truthy_number : Option ℕ → Option ℕ
truthy_number none = none
truthy_number (some n) = if n == 0 then none else some n

-- A booking that a check run's button asks for.
pub record Wish : Type 0 where
  pub owner : String
  pub repo : String
  pub branch : String
  pub identifier : String
  pub username : String
  pub pull_request_number : ℕ

-- The conjunction of the tests, and what passes them.
abbrev pub wish_of :
    Option String
    → Option EventRepository
    → Option String
    → Option CheckRunPullRequest
    → Option Wish
wish_of sender none identifier p = none
wish_of sender (some r) identifier none = none
wish_of sender (some r) identifier (some p) = do
  username ← truthy sender
  owner ← truthy (some r.owner_login)
  repo ← truthy (some r.name)
  asked ← truthy identifier
  n ← truthy_number p.number
  branch ← truthy p.base_ref
  some (record {
    owner = owner;
    repo = repo;
    branch = branch;
    identifier = asked;
    username = username;
    pull_request_number = n;
  })
