-- ===== src/Webhook/Uninstall.antt =====
-- routes-webhook.js: what is left of an owner whose installation is deleted.
use ugo.Base.{
  subst, sym, Bool-cases, inl, inr, false, ◌≡◌, refl, ap, ◌∙◌, String, true, [], ◌∷◌, Option, none,
  some, reject, reject-cong, arith, ℕ, ◌++◌,
}
use ugo.Model.Queue
use ugo.Model.Queue.{is_text}
use ugo.Model.PullRequest
use ugo.Model.PullRequest.{is_some_text}
use ugo.Model.Installation.{owned_by, same_number}
use ugo.Model.Installation as Condition
use ugo.Model.Message.{installation_delete, installation_info_delete, infos_delete}
use ugo.World.{Services, World, fulfilled}
use ugo.InstallationManager.{delete_installation_id}
use ugo.InstallationManager.Effects.{
  get_installation_id_sound, installation_at, installation-reject,
}
use ugo.InstallationInfoManager.{delete_installation_infos}
use ugo.InstallationInfoManager.Effects.{installation_info_at, infos-reject}
use ugo.PullRequestManager.{delete_pull_request_infos}
use ugo.PullRequestManager.Effects.{document_at}
use ugo.QueueManager.{delete_queue}
use ugo.Promise.{all_of, world_of}
use ugo.Reply.{sent_text}
use ugo.Model.User.{User}
use ugo.Model.Installation.{InstallationDocument}
use ugo.Model.Webhook.{Installation, WebhookRequest}
use ugo.Authenticator.{Access, development, authenticate}
use ugo.Authenticator.Laws.{authenticate-IsGranted}
use ugo.Authenticator.Frame.{SameBookings, KeepsBookings-get_token_info}
use ugo.Webhook.Button.{truthy}
use ugo.Webhook.Events.{handle_status, handle_check_suite, handle_check_run, handle_repository}
use ugo.Webhook.Chain.{signed}
use ugo.Webhook.Passed.{webhook-dispatch}
use ugo.Webhook.Route.{handle_caught, dispatch, webhook}
use ugo.Webhook.Installations.{
  handle_pull_request, handle_installation, uninstall, installation_text,
}

module _ (s : Services) where
  -- The collections without the owner and the installation.
  pub record IsWithout (id : ℕ) (owner : String) (w w' : World s) : Type 0 where
    pub online : w'.online ≡ w.online
    pub installations :
        (k : String)
        → installation_at s w'.installations k
          ≡ reject (λ d. is_some_text d.owner owner) (installation_at s w.installations k)
    pub installation_infos :
        (k : String)
        → installation_info_at s w'.installation_infos k
          ≡ reject
              (λ d. same_number d.installation_id (some id))
              (installation_info_at s w.installation_infos k)
    pub pull_requests :
        (k : String)
        → document_at s w'.pull_requests k
          ≡ reject (λ d. is_some_text d.owner owner) (document_at s w.pull_requests k)
    pub queues :
        (k : String)
        → s.queue_collection.stored w'.queues k
          ≡ reject (λ d. is_text d.owner owner) (s.queue_collection.stored w.queues k)

  -- Where the database answers, the deletion of an installation is fulfilled: what is stored of the
  -- owner's installations, queues and pull requests is gone, and what is stored for the
  -- installation's id, and what is stored of other owners and ids stays.
  pub uninstall_lem :
      (id : ℕ) (owner : String) (w : World s)
      → w.online ≡ true
      → (w' : World s) × (uninstall s id owner w ≡ fulfilled tt w') × IsWithout id owner w w'
  unfolding uninstall delete_installation_id delete_installation_infos delete_pull_request_infos
      delete_queue all_of
  uninstall_lem id owner w on = (
    record w {
      installations = s.installation_collection.delete_many (owned_by owner) w.installations;
      installation_infos =
          s.installation_info_collection.delete_many (Condition.of_installation (some id))
            w.installation_infos;
      pull_requests =
          s.pull_request_collection.delete_many (PullRequest.owner_is owner) w.pull_requests;
      queues = s.queue_collection.delete_many (Queue.owner_is owner) w.queues;
      published =
          ((w.published ++ installation_delete owner ∷ [])
            ++ installation_info_delete (some id) ∷ [])
          ++ infos_delete owner ∷ [];
    },
    ground (arith, on),
    record {
      online = refl;
      installations = installation-reject s owner w.installations;
      installation_infos = infos-reject s (some id) w.installation_infos;
      pull_requests = λ k.
          s.pull_request_driver.stored-delete_many (PullRequest.owner_is owner) w.pull_requests k
          ∙ reject-cong _ _ (document_at s w.pull_requests k)
              (s.pull_request_queries.satisfies-owner_is owner);
      queues = λ k.
          s.queue_driver.stored-delete_many (Queue.owner_is owner) w.queues k
          ∙ reject-cong _ _ (s.queue_collection.stored w.queues k)
              (s.queue_queries.satisfies-owner_is owner);
    },
  )

  not_rejected :
      (owner : String) (o : Option InstallationDocument) (d : InstallationDocument)
      → reject (λ e. is_some_text e.owner owner) o ≡ some d
      → is_some_text d.owner owner ≡ false
  not_rejected owner none d h = cc
  not_rejected owner (some e) d h = elim (Bool-cases (is_some_text e.owner owner)) [
    | inl own ↦ absurd (ground (arith, h, own))
    | inr other ↦ ground (arith, h, other)
  ]

  -- No user is let through to an owner without an installation.
  locked_out :
      (id : ℕ) (a : Access) (w w' v : World s) (u : User)
      → w.online ≡ true
      → IsWithout id a.owner w w'
      → development s ≡ false
      → ¬ (authenticate s a w' ≡ fulfilled (some u) v)
  locked_out id a w w' v u on gone live h =
      let g = (authenticate-IsGranted s a w' u v live).0 h in
      let same : SameBookings w' g.w1 =
        subst (λ r. SameBookings w' (world_of r)) g.has_user
          (KeepsBookings-get_token_info s g.token w') in
      let (k, d, found, own, _) =
        get_installation_id_sound s a.owner g.w1 g.id g.w2 (same.online ∙ gone.online ∙ on)
          g.has_id in
      let found' : installation_at s w'.installations k ≡ some d =
        ap (λ t. installation_at s t k) (sym same.installations) ∙ found in
      let other =
        not_rejected a.owner (installation_at s w.installations k) d
          (sym (gone.installations k) ∙ found') in
      ground (arith, own, other)

  dispatched :
      (r : WebhookRequest) (i : Installation) (w : World s)
      → r.event ≡ some "installation"
      → r.body.action ≡ some "deleted"
      → r.body.installation ≡ some i
      → (w' : World s) → uninstall s i.id i.account_login w ≡ fulfilled tt w'
      → dispatch s r w
        ≡ fulfilled (sent_text (installation_text s r.body.action i.id i.account_login) ∷ []) w'
  unfolding dispatch handle_caught handle_status handle_check_suite handle_check_run
      handle_repository handle_pull_request handle_installation
  dispatched r i w event action installation w' e = ground (arith, event, action, installation, e)

  -- Where the database answers and the environment is not development: a request that passes the
  -- test of the signature and says that an installation is deleted is answered with a text; what is
  -- stored of the owner's installations, queues and pull requests is gone, and what is stored for
  -- the installation's id, and what is stored of other owners and ids stays; no request to a
  -- repository of the owner is let through in the state that is left.
  pub webhook-uninstalls :
      (r : WebhookRequest) (i : Installation) (username : String) (w : World s)
      → w.online ≡ true
      → development s ≡ false
      → signed s (truthy s.environment.secret_token) r ≡ true
      → r.event ≡ some "installation"
      → r.body.sender_login ≡ some username
      → r.body.action ≡ some "deleted"
      → r.body.installation ≡ some i
      → (w' : World s) × (webhook s r w
          ≡ fulfilled (sent_text (installation_text s r.body.action i.id i.account_login) ∷ []) w')
        × IsWithout i.id i.account_login w w'
        × ((a : Access) (u : User) (v : World s)
            → a.owner ≡ i.account_login
            → ¬ (authenticate s a w' ≡ fulfilled (some u) v))
  webhook-uninstalls r i username w on live right event sender action installation =
      let (w', e, gone) = uninstall_lem i.id i.account_login w on in
      (
        w',
        webhook-dispatch s r username w on right sender
            ∙ dispatched r i w event action installation w' e,
        gone,
        λ a u v same.
            locked_out i.id a w w' v u on (subst (λ o. IsWithout i.id o w w') (sym same) gone) live,
      )
