-- ===== src/Server.antt =====
-- index.js: what a client receives for what a route does with its response, the handler of errors
-- included.
use ugo.Base.{
  ℕ, String, Bool, false, not, ◌&&◌, ◌≡◌, List, [], ◌∷◌, Option, none, some, if◌then◌else◌, ◌==◌,
  leb,
}
use ugo.Model.PullRequest.{is_some_text}
use ugo.World.{Failure}
use ugo.Reply.{
  Reply, sent_items, sent_infos, sent_channel, sent_text, sent_status, next_status, next_failure,
}

-- What is read of an error.
pub record Thrown : Type 0 where
  pub status : Option ℕ
  pub message : String
  pub stack : Option String

-- The errors that are not made in the repository: those of http-errors, by their status, and what a
-- promise is rejected with, which has no status.
pub record Errors : Type 0 where
  pub created : ℕ → Thrown
  pub thrown : Failure → Thrown
  pub status-created : (n : ℕ) → (created n).status ≡ some n
  pub status-thrown : (f : Failure) → (thrown f).status ≡ none

-- What is done with an error: whether it goes through `rollbar.errorHandler()`, which is not in the
-- repository and passes it on; and what the handler of errors does: the answer's status and body,
-- whether it calls `rollbar.error`, and what is logged.
pub record Handled : Type 0 where
  pub status : ℕ
  pub stack : Option String
  pub error : String
  pub passes_rollbar : Bool
  pub is_reported : Bool
  pub logged : List (Option String)

-- What a client receives: the reply of a route under a status, or an error.
pub data HttpAnswer : Type 0 where
  replied : ℕ → Reply → HttpAnswer
  failed : Handled → HttpAnswer

abbrev pub status_of : HttpAnswer → ℕ
status_of (replied n r) = n
status_of (failed h) = h.status

abbrev pub stack_of : HttpAnswer → Option String
stack_of (replied n r) = none
stack_of (failed h) = h.stack

abbrev pub is_told : HttpAnswer → Bool
is_told (replied n r) = false
is_told (failed h) = h.is_reported

abbrev pub passes_rollbar_of : HttpAnswer → Bool
passes_rollbar_of (replied n r) = false
passes_rollbar_of (failed h) = h.passes_rollbar

-- `app.get('env') || 'production'`; express gives an environment always.
abbrev pub is_development : String → Bool
is_development environment = is_some_text (some environment) "development"

-- `err.status || 500`.
unfoldable pub error_status : Option ℕ → ℕ
error_status none = 500
error_status (some n) = if n == 0 then 500 else n

module _ (development : Bool) where
  -- The middlewares for errors, in their order: that of Rollbar, outside of development, and the
  -- last one.
  unfoldable pub error_handler : Thrown → HttpAnswer
  error_handler e = failed (record {
    status = error_status e.status;
    stack = if development then e.stack else none;
    error = e.message;
    passes_rollbar = not development;
    is_reported = leb 500 (error_status e.status) && not development;
    logged = if development then e.stack ∷ [] else [];
  })

  -- Express sends a body under the status 200; an error goes to the handler.
  unfoldable pub http_answer : Errors → Reply → HttpAnswer
  http_answer errors (sent_items xs) = replied 200 (sent_items xs)
  http_answer errors (sent_infos is) = replied 200 (sent_infos is)
  http_answer errors (sent_channel c) = replied 200 (sent_channel c)
  http_answer errors (sent_text t) = replied 200 (sent_text t)
  http_answer errors (sent_status n) = replied n (sent_status n)
  http_answer errors (next_status n) = error_handler (errors.created n)
  http_answer errors (next_failure f) = error_handler (errors.thrown f)
