-- ===== src/Sample/Revoked.antt =====
-- The theorem on the repositories of an installation: a user is let through, so that the info of the
-- installation is stored, and then GitHub says that its repositories changed.
use ugo.Base.{◌≡◌, refl, true, some}
use ugo.Model.Webhook.{WebhookRequest, Installation}
use ugo.Model.Queue.{Item}
use ugo.World.{World}
use ugo.Promise.{world_of}
use ugo.Authenticator.{authenticate, identify, check_client, token_of}
use ugo.TokenManager.{get_token_info, get_token_info_from_github, set_token}
use ugo.GitHub.Accounts.{get_user_info, get_installation_pages}
use ugo.InstallationManager.{get_installation_id}
use ugo.InstallationInfoManager.{
  get_installation_info, get_installation_info_from_github, set_installation_info_of,
}
use ugo.InstallationInfoManager.Named.{AllNamed}
use ugo.QueueRoutes.Api.{channel_request}
use ugo.Webhook.Route.{webhook}
use ugo.Service.{Call, channel, perform, serves, here, next}
use ugo.Service.Revoked.{Reach-revoked}
use ugo.Sample.Access.{access, installed}
use ugo.Sample.Driver.{lookup, all_matches}
use ugo.Sample.Events.{accept, nothing_known, empty_body}
use ugo.Sample.Data.{running}

abbrev reads : Call running Item accept
reads = channel access "main"

abbrev used : World running
used = world_of (perform running Item accept reads installed)

abbrev installation : Installation
installation = record { id = 5; account_login = "acme" }

abbrev change : WebhookRequest
change = record nothing_known {
  event = some "installation_repositories";
  body = record empty_body {
    action = some "removed";
    sender_login = some "ann";
    installation = some installation;
  };
}

nothing_stored : AllNamed running installed
unfolding lookup
nothing_stored k = tt

used_online : used.online ≡ true
unfolding perform channel_request authenticate identify check_client token_of get_token_info
    get_token_info_from_github get_user_info set_token get_installation_id get_installation_info
    get_installation_info_from_github get_installation_pages set_installation_info_of lookup
    all_matches
used_online = refl

Reach-revoked_example :
    let w' = world_of (webhook running change used) in
    get_installation_info running "abc" 5 w' ≡ get_installation_info_from_github running "abc" 5 w'
Reach-revoked_example =
    Reach-revoked running Item accept (next here (serves reads)) nothing_stored change installation
      "ann" "abc" used_online refl refl refl refl
