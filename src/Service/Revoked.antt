-- ===== src/Service/Revoked.antt =====
-- What the service knows of the repositories of an installation after GitHub says that they changed.
use ugo.Base.{◌≡◌, sym, ap, subst, ◌∙◌, String, true, Option, none, some, arith, ℕ}
use ugo.Model.Queue.{Item}
use ugo.Model.Installation.{InstallationInfoDocument}
use ugo.Model.Webhook.{WebhookRequest, Installation}
use ugo.World.{Services, World, fulfilled}
use ugo.Promise.{world_of}
use ugo.InstallationInfoManager.{
  installation_info_id, get_installation_info, get_installation_info_from_github,
  delete_installation_infos,
}
use ugo.InstallationInfoManager.Effects.{
  installation_info_at, delete_installation_infos_lem,
  get_installation_info-delete_installation_infos,
}
use ugo.InstallationInfoManager.Ids.{installation_info_id_inj}
use ugo.InstallationInfoManager.Named.{AllNamed, IsNamed}
use ugo.Webhook.Button.{truthy}
use ugo.Webhook.Chain.{signed}
use ugo.Webhook.Events.{handle_status, handle_check_suite, handle_check_run, handle_repository}
use ugo.Webhook.Installations.{
  handle_pull_request, handle_installation, handle_installation_repositories,
}
use ugo.Webhook.Passed.{webhook-dispatch}
use ugo.Webhook.Route.{handle_caught, dispatch, webhook}
use ugo.Service.{Reach}
use ugo.Service.Invariant.{Reach-AllNamed}

module _ (s : Services) where
  -- What lies under an installation and a token is of this installation.
  IsNamed-own :
      (id : ℕ) (token : String) (o : Option InstallationInfoDocument)
      → IsNamed (installation_info_id id token) o
      → (d : InstallationInfoDocument) → o ≡ some d
      → d.installation_id ≡ some id
  IsNamed-own id token none named d found = cc
  IsNamed-own id token (some e) (id', token', key, own) d found =
      let same = installation_info_id_inj id id' token token' key in
      ground (arith, found, own, same)

  changed :
      (r : WebhookRequest) (i : Installation) (w w' : World s)
      → r.event ≡ some "installation_repositories"
      → r.body.installation ≡ some i
      → delete_installation_infos s (some i.id) w ≡ fulfilled tt w'
      → world_of (dispatch s r w) ≡ w'
  unfolding dispatch handle_caught handle_status handle_check_suite handle_check_run
      handle_repository handle_pull_request handle_installation handle_installation_repositories
  changed r i w w' event installation e = ground (arith, event, installation, e)

module _ (s : Services) (Body : Type 0) (validate : Body → Option Item) where
  -- Whatever happened before, from a state on in which everything that is stored of an installation
  -- for a token lies under the id of the installation, and where the database answers: after a
  -- request that passes the test of the signature and says that the repositories of an installation
  -- changed, the info of this installation is asked of GitHub again, for every token.
  pub Reach-revoked :
      {w0 w : World s}
      → Reach s Body validate w0 w
      → AllNamed s w0
      → (r : WebhookRequest) (i : Installation) (username token : String) → w.online ≡ true
      → signed s (truthy s.environment.secret_token) r ≡ true
      → r.event ≡ some "installation_repositories"
      → r.body.sender_login ≡ some username
      → r.body.installation ≡ some i
      → let w' = world_of (webhook s r w) in
        get_installation_info s token i.id w' ≡ get_installation_info_from_github s token i.id w'
  Reach-revoked {w = w} reach named r i username token on right event sender installation =
      let (t, e, _) = delete_installation_infos_lem s (some i.id) w on in
      let after =
        ap world_of (webhook-dispatch s r username w on right sender)
        ∙ changed s r i w _ event installation e
        ∙ sym (ap world_of e) in
      subst
        (λ v.
          get_installation_info s token i.id v ≡ get_installation_info_from_github s token i.id v)
        (sym after)
        (get_installation_info-delete_installation_infos s token i.id w on (
          IsNamed-own s i.id token
            (installation_info_at s w.installation_infos (installation_info_id i.id token))
            (Reach-AllNamed s Body validate reach named (installation_info_id i.id token))))
