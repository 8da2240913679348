-- ===== src/TokenManager.antt =====
-- manager-token.js: the user of a token, a document of the collection `githubToken`.
pub mod Effects
use ugo.Base.{length, String, Option, none, some, if◌then◌else◌}
use ugo.Model.User.{TokenInfo, set_token_info, token_info}
use ugo.Model.Message.{token_add}
use ugo.World.{Services, fulfilled, Promise}
use ugo.Promise.{has_database, ◌>>=◌, ◌>>◌, resolve, publish, get_collection}
use ugo.GitHub.Accounts.{get_user_info}

module _ (s : Services) where
  open s use {token_collection, timestamp}

  unfoldable pub set_token : String → TokenInfo → Promise s TokenInfo
  set_token token i w =
      if has_database w
      then (do
        get_collection
        λ v. fulfilled tt (record v {
          tokens =
              token_collection.upsert_one token (set_token_info i (timestamp (length v.requests)))
                v.tokens;
        })
        publish (token_add token i)
        resolve i)
          w
      else fulfilled i w

  unfoldable pub get_token_info_from_github : String → Promise s TokenInfo
  get_token_info_from_github token = get_user_info s token >>= set_token token

  -- What is stored, or GitHub's answer.
  abbrev pub token_or_github : String → Option TokenInfo → Promise s TokenInfo
  token_or_github token none = get_token_info_from_github token
  token_or_github token (some i) = resolve i

  unfoldable pub get_token_info : String → Promise s TokenInfo
  get_token_info token w =
      if has_database w
      then (do
        get_collection
        found ← λ v. fulfilled (token_collection.find_by_id token token_info v.tokens) v
        token_or_github token found)
          w
      else get_token_info_from_github token w
