-- ===== src/Model/User.antt =====
-- manager-token.js: the documents of the collection `githubToken`, and its query; and the user that
-- authenticator-github.js puts into a request.
use ugo.Base.{String, ◌≡◌, Bool, false, true, Option, none, some, str_eq}
use ugo.Mongo.{Collection}

-- The value of a key that may be `undefined`, null or a text.
pub data Field : Type 0 where
  undefined : Field
  null : Field
  text : String → Field

-- `===`.
abbrev pub same_field : Field → Field → Bool
same_field undefined undefined = true
same_field null null = true
same_field (text a) (text b) = str_eq a b
same_field _ _ = false

abbrev pub field_of : Option String → Field
field_of none = undefined
field_of (some t) = text t

-- `req.user` with its permissions; a permission that is absent counts as false.
pub record User : Type 0 where
  pub username : Field
  pub can_push : Bool
  pub can_pull : Bool
  pub is_admin : Bool

-- The user of a token and the application that the token was made for; the keys that are neither
-- read nor set are left out. A date that is stored is the text that it is made of.
pub record TokenInfo : Type 0 where
  pub login : Field
  pub client_id : Field
  pub created_at : Field
  pub updated_at : Field

-- What the driver stores of `undefined` under a key, and of a key that is not there.
abbrev pub stored_field : Field → Field
stored_field undefined = null
stored_field f = f

abbrev pub kept_field : Field → Field → Field
kept_field undefined old = old
kept_field f old = f

-- `{ $set: { ...tokenInfo, updated_at: new Date(tokenInfo.updated_at), created_at: new Date() } }`,
-- with the time of the clock.
pub data Update : Type 0 where
  set_token_info : TokenInfo → String → Update

-- `{ _id: false, created_at: false, updated_at: false }`.
pub data Projection : Type 0 where
  token_info : Projection

pub record IsTokenQueries {T C : Type 0} (c : Collection T TokenInfo C Update Projection TokenInfo)
    : Type 0 where
  pub blank-eq : c.blank ≡ record {
    login = undefined;
    client_id = undefined;
    created_at = undefined;
    updated_at = undefined;
  }
  pub apply-set_token_info :
      (i d : TokenInfo) (now : String)
      → c.apply (set_token_info i now) d ≡ record {
        login = kept_field i.login d.login;
        client_id = stored_field i.client_id;
        created_at = text now;
        updated_at = i.updated_at;
      }
  pub project-token_info :
      (d : TokenInfo)
      → c.project token_info d ≡ record d { created_at = undefined; updated_at = undefined }
