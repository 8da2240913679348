-- ===== src/Service/SafeRequests.antt =====
-- Double bookings along the requests of GitHub.
use ugo.Base.{String, List, [], ◌∷◌, Option, some, arith, inl, inr, Option-cases, ℕ, ◌||◌}
use ugo.Model.Webhook.{WebhookRequest}
use ugo.World.{Services, fulfilled, Promise, failure}
use ugo.Promise.{has_database, ◌>>=◌, ◌>>◌, resolve, ignoring, log_error}
use ugo.Reply.{Reply, sent_text, next_failure, next_status}
use ugo.InstallationManager as Installation
use ugo.InstallationInfoManager.{delete_installation_infos}
use ugo.InstallationInfoManager.Named.{KeepsNames-delete}
use ugo.PullRequestManager.{delete_pull_request_infos}
use ugo.QueueManager as Queue
use ugo.Service.SafeBookings.{KeepsSafe-add_item, KeepsSafe-remove_item, KeepsSafe-delete_queue}
use ugo.PullRequestHandler.Handlers.{
  handle_closed, handle_opened, handle_sync, handle_status_change,
}
use ugo.Webhook.Button.{truthy}
use ugo.Webhook.Cases.{IsCaughtLaw, IsRouteLaw, dispatch-holds}
use ugo.Webhook.Chain.{
  replying, replying_or_next, is_environment, signed, validate_signature, check_availability,
  read_sender,
}
use ugo.Webhook.Installations.{uninstall}
use ugo.Webhook.Route.{webhook, dispatch}
use ugo.Service.Safe.{
  Safe-refl, KeepsSafe-infos, KeepsSafe, KeepsSafe-then, KeepsSafe-catch, KeepsSafe-all_of,
  KeepsSafe-queues, KeepsSafe-resolve, KeepsSafe-opened, KeepsSafe-synced, either, either_at,
}
use ugo.Service.SafeEvents.{KeepsSafe-closed, KeepsSafe-checked}

module _ {s : Services} where
  KeepsSafe-ignoring : {A : Type 0} (m : Promise s A) → KeepsSafe m → KeepsSafe (ignoring m)
  KeepsSafe-ignoring m h = KeepsSafe-then m (λ _. resolve tt) h (λ _. KeepsSafe-resolve tt)

  KeepsSafe-replying :
      {A : Type 0} (m : Promise s A) (f : A → String) → KeepsSafe m → KeepsSafe (replying s m f)
  KeepsSafe-replying m f h =
      KeepsSafe-catch (m >>= λ a. resolve (sent_text (f a) ∷ [])) (λ e. resolve [])
        (KeepsSafe-then m _ h (λ a. Safe-refl)) (λ e. Safe-refl)

  KeepsSafe-replying_or_next :
      {A : Type 0} (m : Promise s A) (f : A → String)
      → KeepsSafe m
      → KeepsSafe (replying_or_next s m f)
  KeepsSafe-replying_or_next m f h =
      KeepsSafe-catch (m >>= λ a. resolve (sent_text (f a) ∷ []))
        (λ e. log_error (failure e) >> resolve (next_failure e ∷ []))
        (KeepsSafe-then m _ h (λ a. Safe-refl)) (λ e. Safe-refl)

  KeepsSafe-set_id :
      (owner : String) (id : ℕ) → KeepsSafe (Installation.set_installation_id s owner id)
  unfolding Installation.set_installation_id
  KeepsSafe-set_id owner id =
      KeepsSafe-queues (Installation.set_installation_id s owner id)
        (λ w. (ground arith, ground arith))

  KeepsSafe-get_id : (owner : String) → KeepsSafe (Installation.get_installation_id s owner)
  unfolding Installation.get_installation_id
  KeepsSafe-get_id owner =
      KeepsSafe-queues (Installation.get_installation_id s owner)
        (λ w. (ground arith, ground arith))

  KeepsSafe-delete_id : (owner : String) → KeepsSafe (Installation.delete_installation_id s owner)
  unfolding Installation.delete_installation_id
  KeepsSafe-delete_id owner =
      KeepsSafe-queues (Installation.delete_installation_id s owner)
        (λ w. (ground arith, ground arith))

  KeepsSafe-delete_infos : (id : Option ℕ) → KeepsSafe (delete_installation_infos s id)
  unfolding delete_installation_infos
  KeepsSafe-delete_infos id =
      KeepsSafe-infos (delete_installation_infos s id) (λ w. ground arith) (KeepsNames-delete s id)

  KeepsSafe-forget : (owner : String) → KeepsSafe (delete_pull_request_infos s owner)
  unfolding delete_pull_request_infos
  KeepsSafe-forget owner =
      KeepsSafe-queues (delete_pull_request_infos s owner) (λ w. (ground arith, ground arith))

  KeepsSafe-uninstall : (id : ℕ) (owner : String) → KeepsSafe (uninstall s id owner)
  unfolding uninstall
  KeepsSafe-uninstall id owner = KeepsSafe-all_of _ (
    KeepsSafe-delete_id owner,
    (
      KeepsSafe-delete_infos (some id),
      (
        KeepsSafe-forget owner,
        (KeepsSafe-ignoring (Queue.delete_queue s owner) (KeepsSafe-delete_queue s owner), tt),
      ),
    ),
  )

  KeepsSafe-IsCaughtLaw : IsCaughtLaw s KeepsSafe
  KeepsSafe-IsCaughtLaw = record {
    replies = λ r. Safe-refl;
    closes = λ p f. KeepsSafe-replying_or_next (handle_closed s p) f (KeepsSafe-closed p);
    opens = λ p id f. KeepsSafe-replying_or_next (handle_opened s p id) f (KeepsSafe-opened p id);
    syncs = λ p id f. KeepsSafe-replying_or_next (handle_sync s p id) f (KeepsSafe-synced p id);
    installs = λ owner id f.
        KeepsSafe-replying_or_next (Installation.set_installation_id s owner id) f
          (KeepsSafe-set_id owner id);
    uninstalls = λ id owner f.
        KeepsSafe-replying_or_next (uninstall s id owner) f (KeepsSafe-uninstall id owner);
    changes_repositories = λ id f.
        KeepsSafe-replying_or_next (delete_installation_infos s id) f (KeepsSafe-delete_infos id);
  }

  KeepsSafe-IsRouteLaw : IsRouteLaw s KeepsSafe
  KeepsSafe-IsRouteLaw = record {
    caught = KeepsSafe-IsCaughtLaw;
    changes_status = λ owner repo sha f.
        KeepsSafe-replying (handle_status_change s owner repo sha) f
          (KeepsSafe-checked owner repo sha);
    removes = λ owner repo branch x f.
        KeepsSafe-replying (Queue.remove_item s owner repo branch x Queue.no_meta) f
          (KeepsSafe-remove_item s owner repo branch x Queue.no_meta);
    adds = λ owner repo branch x f.
        KeepsSafe-replying (Queue.add_item s owner repo branch x) f
          (KeepsSafe-add_item s owner repo branch x);
    forgets_infos = λ owner f.
        KeepsSafe-replying
          (Installation.get_installation_id s owner >>= delete_installation_infos s) f
          (KeepsSafe-then (Installation.get_installation_id s owner) (delete_installation_infos s)
            (KeepsSafe-get_id owner) KeepsSafe-delete_infos);
  }

  KeepsSafe-available :
      (r : WebhookRequest) (next : Promise s (List Reply))
      → KeepsSafe next
      → KeepsSafe (check_availability s r next)
  unfolding check_availability
  KeepsSafe-available r next h w =
      either_at w (has_database w) (next w) (fulfilled (next_status 503 ∷ []) w) (h w) (Safe-refl w)

  KeepsSafe-sender :
      (r : WebhookRequest) (next : Promise s (List Reply))
      → KeepsSafe next
      → KeepsSafe (read_sender s r next)
  unfolding read_sender
  KeepsSafe-sender r next h = elim (Option-cases r.body.sender_login) [
    | inl absent ↦ rw absent Safe-refl
    | inr (username, found) ↦ rw found h
  ]

  KeepsSafe-validated :
      (r : WebhookRequest) (next : Promise s (List Reply))
      → KeepsSafe next
      → KeepsSafe (validate_signature s r next)
  unfolding validate_signature
  KeepsSafe-validated r next h =
      either (is_environment s "test" || is_environment s "development") next _ h (
        either (signed s (truthy s.environment.secret_token) r) next
          (resolve (next_status 401 ∷ [])) h Safe-refl)

  pub KeepsSafe-webhook : (r : WebhookRequest) → KeepsSafe (webhook s r)
  unfolding webhook
  KeepsSafe-webhook r = KeepsSafe-validated r _ (
      KeepsSafe-available r _
        (KeepsSafe-sender r (dispatch s r) (dispatch-holds s KeepsSafe KeepsSafe-IsRouteLaw r)))
