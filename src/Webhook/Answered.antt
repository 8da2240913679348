-- ===== src/Webhook/Answered.antt =====
-- routes-webhook.js: which requests of GitHub are answered.
use ugo.Base.{
  Bool, false, ◌⊎◌, ◌≡◌, refl, inl, inr, String, true, ◌||◌, List, arith, Bool-cases, Option-cases,
}
use ugo.Model.Webhook.{WebhookRequest}
use ugo.World.{Services, World, Promise, type_error}
use ugo.Promise.{has_database, ◌>>=◌}
use ugo.Webhook.Events.{handle_status, handle_check_suite, handle_check_run, handle_repository}
use ugo.Reply.{Reply, next_failure, next_status, sent_text}
use ugo.GitHub.Frame.{Settled-cases}
use ugo.InstallationManager as Installation
use ugo.InstallationInfoManager.{delete_installation_infos}
use ugo.QueueManager as Queue
use ugo.PullRequestHandler.Handlers.{
  handle_closed, handle_opened, handle_sync, handle_status_change,
}
use ugo.Webhook.Button.{truthy}
use ugo.Webhook.Cases.{IsCaughtLaw, IsRouteLaw, caught-holds, dispatch-holds}
use ugo.Webhook.Installations.{uninstall}
use ugo.Webhook.Route.{webhook, handle_caught, dispatch}
use ugo.Webhook.Chain.{
  is_event, is_environment, signed, validate_signature, check_availability, read_sender, replying,
}
use ugo.Webhook.Replied.{
  Answered, Unanswered, Answered-replying_or_next, Answered-IsCaughtLaw, Answered-IsRouteLaw,
}

module _ (s : Services) where
  -- An event that is handled without a `catch`.
  abbrev pub is_uncaught : WebhookRequest → Bool
  is_uncaught r =
      is_event s r "status"
      || is_event s r "check_suite"
      || is_event s r "check_run"
      || is_event s r "repository"

  dispatch-caught : (r : WebhookRequest) → is_uncaught r ≡ false → dispatch s r ≡ handle_caught s r
  unfolding dispatch handle_status handle_check_suite handle_check_run handle_repository
  dispatch-caught r caught = ground (arith, caught)

  -- A promise that ends with one reply, or, for an event without a `catch` and a database that
  -- refuses, with none.
  abbrev pub Settles : WebhookRequest → Promise s (List Reply) → World s → Type 0
  Settles r m w =
      Answered m w
      ⊎ (Unanswered m w × (w.online ≡ false) × (w.refusing ≡ true) × (is_uncaught r ≡ true))

  Quiet-replying :
      {A : Type 0} (m : Promise s A) (f : A → String) (w : World s)
      → Answered (replying s m f) w ⊎ Unanswered (replying s m f) w
  Quiet-replying m f w = elim (Settled-cases (m w)) [
    | inl (a, v, e) ↦ inl (sent_text (f a), v, rw e refl)
    | inr (x, v, e) ↦ inr (v, rw e refl)
  ]

  Quiet-IsRouteLaw : (w : World s) → IsRouteLaw s (λ m. Answered m w ⊎ Unanswered m w)
  Quiet-IsRouteLaw w = record {
    caught = record {
      replies = λ r. inl (IsCaughtLaw.replies (Answered-IsCaughtLaw w) r);
      closes = λ p f. inl (Answered-replying_or_next (handle_closed s p) f w);
      opens = λ p id f. inl (Answered-replying_or_next (handle_opened s p id) f w);
      syncs = λ p id f. inl (Answered-replying_or_next (handle_sync s p id) f w);
      installs = λ owner id f.
          inl (Answered-replying_or_next (Installation.set_installation_id s owner id) f w);
      uninstalls = λ id owner f. inl (Answered-replying_or_next (uninstall s id owner) f w);
      changes_repositories =
          λ id f. inl (Answered-replying_or_next (delete_installation_infos s id) f w);
    };
    changes_status = λ owner repo sha f. Quiet-replying (handle_status_change s owner repo sha) f w;
    removes = λ owner repo branch x f.
        Quiet-replying (Queue.remove_item s owner repo branch x Queue.no_meta) f w;
    adds = λ owner repo branch x f. Quiet-replying (Queue.add_item s owner repo branch x) f w;
    forgets_infos = λ owner f.
        Quiet-replying (Installation.get_installation_id s owner >>= delete_installation_infos s) f
          w;
  }

  Settles-dispatch :
      (r : WebhookRequest) (w : World s) → has_database w ≡ true → Settles r (dispatch s r) w
  Settles-dispatch r w there = elim (Bool-cases w.online) [
    | inl on ↦ inl (dispatch-holds s (λ m. Answered m w) (Answered-IsRouteLaw s w on) r)
    | inr off ↦ elim (Bool-cases (is_uncaught r)) [
      | inr caught ↦ inl (
          rw (dispatch-caught r caught)
            (caught-holds s (λ m. Answered m w) (Answered-IsCaughtLaw w) r))
      | inl uncaught ↦
          elim (dispatch-holds s (λ m. Answered m w ⊎ Unanswered m w) (Quiet-IsRouteLaw w) r) [
            | inl answered ↦ inl answered
            | inr silent ↦ inr (silent, off, ground (arith, off, there), uncaught)
          ]
    ]
  ]

  available :
      (r : WebhookRequest) (next : Promise s (List Reply)) (w : World s)
      → (has_database w ≡ true → Settles r next w)
      → Settles r (check_availability s r next) w
  unfolding check_availability
  available r next w h = elim (Bool-cases (has_database w)) [
    | inl there ↦ rw there (h there)
    | inr absent ↦ inl (next_status 503, w, ground (arith, absent))
  ]

  with_sender :
      (r : WebhookRequest) (next : Promise s (List Reply)) (w : World s)
      → Settles r next w
      → Settles r (read_sender s r next) w
  unfolding read_sender
  with_sender r next w h = elim (Option-cases r.body.sender_login) [
    | inl absent ↦ rw absent (inl (next_failure type_error, w, refl))
    | inr (username, found) ↦ rw found h
  ]

  validated :
      (r : WebhookRequest) (next : Promise s (List Reply)) (w : World s)
      → Settles r next w
      → Settles r (validate_signature s r next) w
  unfolding validate_signature
  validated r next w h =
      elim (Bool-cases (is_environment s "test" || is_environment s "development")) [
        | inl unchecked ↦ rw unchecked h
        | inr checked ↦ elim (Bool-cases (signed s (truthy s.environment.secret_token) r)) [
          | inl right ↦ rw (checked, right) h
          | inr wrong ↦ rw (checked, wrong) (inl (next_status 401, w, refl))
        ]
      ]

  -- A request of GitHub is answered exactly once, whatever its headers and its body are, whatever
  -- GitHub answers and whether there is a database, unless the database rejects what is asked of it
  -- and the event is a status, a check suite, a check run or a repository, which are handled
  -- without a catch: then there is one answer or none.
  pub webhook-Answered : (r : WebhookRequest) (w : World s) → Settles r (webhook s r) w
  unfolding webhook
  webhook-Answered r w =
      validated r _ w
        (available r _ w (λ there. with_sender r (dispatch s r) w (Settles-dispatch r w there)))
