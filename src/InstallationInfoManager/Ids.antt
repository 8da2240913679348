-- ===== src/InstallationInfoManager/Ids.antt =====
-- The `_id` of an installation info, `${installationId}-${token}`.
use ugo.Base.{ℕ, String, ◌≡◌, decimal}
use ugo.Base.Text.Decimal.{decimal_inj}
use ugo.Base.Text.Dash.{NoDash-decimal, dashed_inj}
use ugo.InstallationInfoManager.{installation_info_id}

-- Two installation infos with the same `_id` are of the same installation and the same token.
pub installation_info_id_inj :
    (id id' : ℕ) (token token' : String)
    → installation_info_id id token ≡ installation_info_id id' token'
    → (id ≡ id') × (token ≡ token')
installation_info_id_inj id id' token token' e =
    let (same, rest) =
      dashed_inj (decimal id) (decimal id') token token' (NoDash-decimal id) (NoDash-decimal id')
        e in
    (decimal_inj id id' same, rest)
