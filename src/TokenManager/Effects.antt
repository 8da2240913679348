-- ===== src/TokenManager/Effects.antt =====
-- manager-token.js: what is stored of a token, and what a stored token is answered with.
use ugo.Base.{◌≡◌, refl, sym, ap, ◌∙◌, String, true, Option, none, some, str_eq_refl, arith}
use mathlib.Core.Option
use ugo.Model.User.{
  TokenInfo, Field, undefined, null, text, kept_field, stored_field, set_token_info, token_info,
}
use ugo.Base.{length, [], ◌∷◌, ◌++◌}
use ugo.Model.Message.{token_add}
use ugo.Promise.{world_of}
use ugo.Promise.Cases.{fulfilled-then}
use ugo.GitHub.Accounts.{get_user_info}
use ugo.World.{Services, World, fulfilled}
use ugo.TokenManager.{set_token, get_token_info_from_github, get_token_info}

abbrev pub token_at : (s : Services) → World s → String → Option TokenInfo
token_at s w k = s.token_collection.stored w.tokens k

-- What is stored, at a time, of the answer for a token that is not stored: a key that is `undefined`
-- is null, and the answer's creation is the time.
abbrev pub stored_token : TokenInfo → String → TokenInfo
stored_token i now = record i { client_id = stored_field i.client_id; created_at = text now }

-- The answer for what is stored: the dates are left out.
abbrev pub without_dates : TokenInfo → TokenInfo
without_dates i = record i { created_at = undefined; updated_at = undefined }

-- The answer for a token whose first answer is stored.
abbrev pub token_again : TokenInfo → TokenInfo
token_again i = without_dates (record i { client_id = stored_field i.client_id })

kept-undefined : (f : Field) → kept_field f undefined ≡ f
kept-undefined undefined = refl
kept-undefined null = refl
kept-undefined (text t) = refl

module _ (s : Services) where
  open s use {token_collection, token_driver, token_queries}

  stored-fresh :
      (token : String) (i : TokenInfo) (now : String) (t : s.TokenTable)
      → token_collection.stored t token ≡ none
      → token_collection.stored (token_collection.upsert_one token (set_token_info i now) t) token
        ≡ some (stored_token i now)
  stored-fresh token i now t absent = rw token_driver.upsert_one-eq (
      ground (
        arith,
        token_driver.stored-write token
            (token_collection.apply (set_token_info i now) token_collection.blank) t token,
        str_eq_refl token,
        token_queries.apply-set_token_info i token_collection.blank now,
        token_queries.blank-eq,
        kept-undefined i.login,
      ))

  stored-set_token :
      (token : String) (i : TokenInfo) (v : World s)
      → v.online ≡ true
      → token_at s v token ≡ none
      → (t : s.TokenTable) × (set_token s token i v
          ≡ fulfilled i
              (record v { tokens = t; published = v.published ++ token_add token i ∷ [] }))
        × (token_collection.stored t token
            ≡ some (stored_token i (s.timestamp (length v.requests))))
  unfolding set_token
  stored-set_token token i v up absent = (
    token_collection.upsert_one token (set_token_info i (s.timestamp (length v.requests))) v.tokens,
    ground (arith, up),
    stored-fresh token i (s.timestamp (length v.requests)) v.tokens absent,
  )

  -- What GitHub's answer leaves.
  tokens-get_user_info :
      (token : String) (w : World s)
      → ((world_of (get_user_info s token w)).tokens ≡ w.tokens)
        × ((world_of (get_user_info s token w)).online ≡ w.online)
  unfolding get_user_info
  tokens-get_user_info token w = (ground arith, ground arith)

module _ (s : Services) (token : String) (w : World s) (on : w.online ≡ true) where
  open s use {token_collection, token_driver, token_queries}

  pub get_token_info_stored :
      (i : TokenInfo)
      → token_at s w token ≡ some i
      → get_token_info s token w ≡ fulfilled (without_dates i) w
  unfolding get_token_info
  get_token_info_stored i found = ground (
    arith,
    on,
    token_driver.find_by_id-eq token token_info w.tokens
        ∙ ap (Option.map (token_collection.project token_info)) found,
    token_queries.project-token_info i,
  )

  pub get_token_info_absent :
      token_at s w token ≡ none → get_token_info s token w ≡ get_token_info_from_github s token w
  unfolding get_token_info
  get_token_info_absent absent = ground (
    arith,
    on,
    token_driver.find_by_id-eq token token_info w.tokens
        ∙ ap (Option.map (token_collection.project token_info)) absent,
  )

module _ (s : Services) (token : String) (w : World s) (on : w.online ≡ true) where
  open s use {token_collection}

  pub stored-get_token_info :
      (i : TokenInfo) (w' : World s)
      → token_at s w token ≡ none
      → get_token_info s token w ≡ fulfilled i w'
      → (now : String) × (w'.online ≡ true) × (token_at s w' token ≡ some (stored_token i now))
  unfolding get_token_info_from_github
  stored-get_token_info i w' absent got =
      let (i1, v, asked, set) =
        fulfilled-then (get_user_info s token) (set_token s token) w i w'
          (sym (get_token_info_absent s token w on absent) ∙ got) in
      let (same, up) = tokens-get_user_info s token w in
      let v_same = sym (ap (λ r. (world_of r).tokens) asked) ∙ same in
      let v_up = sym (ap (λ r. (world_of r).online) asked) ∙ up ∙ on in
      let (t, done, stored) =
        stored-set_token s token i1 v v_up
          (ap (λ u. token_collection.stored u token) v_same ∙ absent) in
      let ended = sym set ∙ done in
      let w'_up = ap (λ r. (world_of r).online) ended ∙ v_up in
      let given : i ≡ i1 = cc in
      let now = ap (λ r. token_collection.stored (world_of r).tokens token) ended ∙ stored in
      let at = s.timestamp (length v.requests) in
      (at, w'_up, now ∙ ap (λ u. some (stored_token u at)) (sym given))

  -- Where the database answers and nothing is stored of a token: if getTokenInfo is fulfilled with
  -- GitHub's answer, asking again is fulfilled with that answer without the dates of its creation
  -- and its update, and with null for a client id that was `undefined`, and sends no request and
  -- changes nothing.
  pub get_token_info_again :
      (i : TokenInfo) (w' : World s)
      → token_at s w token ≡ none
      → get_token_info s token w ≡ fulfilled i w'
      → get_token_info s token w' ≡ fulfilled (token_again i) w'
  get_token_info_again i w' absent got =
      let (at, up, now) = stored-get_token_info i w' absent got in
      get_token_info_stored s token w' up (stored_token i at) now
