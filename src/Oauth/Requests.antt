-- ===== src/Oauth/Requests.antt =====
-- middleware/oauth/oauth.go: the requests to the token server.
use httpio.Base.{
  ◌||◌, List, [], ◌∷◌, ◌++◌, Option, none, some, Bytes, bytes, eq, is_empty, ltb, leb,
  if◌then◌else◌,
}
use httpio.Http.{errorf, wrap, Response}
use httpio.Http.Headers.{set, put}
use httpio.Oauth.{TokenResponse, Values, Config, State, Result, failed, ok, Platform}

-- `strings.Join(s, " ")`
unfoldable pub join : List Bytes → Bytes
join [] = []
join (s ∷ []) = s
join (s ∷ t ∷ ss) = s ++ 32 ∷ join (t ∷ ss)

-- `data.Set(k, v)` for each parameter.
set_all : List (Bytes × Bytes) → Values → Values
set_all [] data_ = data_
set_all ((k, v) ∷ params) data_ = set_all params (put k (v ∷ []) data_)

abbrev param : Bytes → Bytes → Values → Values
param k v data_ = put k (v ∷ []) data_

-- The current token, where it has a refresh token.
abbrev pub has_refresh_token : Option TokenResponse → Option TokenResponse
has_refresh_token none = none
has_refresh_token (some t) = if is_empty t.refresh_token then none else some t

module _ {W : Type 0} (platform : Platform W) (config : Config W) where
  -- The request's answer, with the body closed on every path.
  unfoldable pub read_token : Response → W → Result TokenResponse × W
  read_token resp w =
      if ltb resp.status_code 200 || leb 300 resp.status_code
      then (
        failed (
            errorf (
              bytes "oauth middleware: token server returned status "
              ++ platform.show_status resp.status_code)),
        platform.close resp w,
      )
      else let decoded = platform.decode resp w in
        (
          elim decoded.0 [
            | failed e ↦
                failed (wrap (bytes "oauth middleware: failed to parse token response: ") e)
            | ok token ↦ ok token
          ],
          platform.close resp decoded.1,
        )

  unfoldable pub send_token_request : Values → W → Result TokenResponse × W
  unfolding read_token
  send_token_request data_ w =
      elim (platform.new_request (bytes "POST") config.token_url (platform.encode data_)) [
        | failed e ↦
            (failed (wrap (bytes "oauth middleware: failed to create token request: ") e), w)
        | ok req ↦
            let form =
              set req.header (bytes "Content-Type") (bytes "application/x-www-form-urlencoded") in
            let header = set form (bytes "Accept") (bytes "application/json") in
            let sent = platform.client_do (record req { header = header }) w in
            elim sent.0 [
              | failed e ↦
                  (failed (wrap (bytes "oauth middleware: token request failed: ") e), sent.1)
              | ok resp ↦ read_token resp sent.1
            ]
      ]

  abbrev secret_param : Values → Values
  secret_param data_ =
      if is_empty config.client_secret
      then data_
      else param (bytes "client_secret") config.client_secret data_

  abbrev scope_param : Values → Values
  scope_param data_ = elim config.scopes [
    | [] ↦ data_
    | _ ∷ _ ↦ param (bytes "scope") (join config.scopes) data_
  ]

  -- What both requests add behind their own parameters.
  common_params : Values → Values
  unfolding join set_all
  common_params data_ = set_all config.additional_params (scope_param data_)

  -- The parameters behind `grant_type` for a refresh token.
  abbrev refresh_params : TokenResponse → Values → Values
  refresh_params t data_ = secret_param (
      param (bytes "client_id") config.client_id
        (param (bytes "refresh_token") t.refresh_token data_))

  unfoldable pub refresh_existing_token : State → W → Result TokenResponse × W
  unfolding common_params
  refresh_existing_token s w = elim (has_refresh_token s.current_token) [
    | none ↦ (failed (errorf (bytes "oauth middleware: no refresh token available")), w)
    | some t ↦
        send_token_request
          (common_params (refresh_params t (param (bytes "grant_type") (bytes "refresh_token") [])))
          w
  ]

  -- The switch on the grant type; no values where the refresh token is missing.
  unfoldable pub grant_params : State → Option Values
  grant_params s =
      let data_ = param (bytes "grant_type") config.grant_type [] in
      if eq config.grant_type (bytes "client_credentials")
      then some (
          param (bytes "client_secret") config.client_secret
            (param (bytes "client_id") config.client_id data_))
      else if eq config.grant_type (bytes "password")
      then some (
          secret_param (
            param (bytes "client_id") config.client_id (
              param (bytes "password") config.password
                (param (bytes "username") config.username data_))))
      else if eq config.grant_type (bytes "refresh_token")
      then elim (has_refresh_token s.current_token) [
        | none ↦ none
        | some t ↦ some (refresh_params t data_)
      ]
      else some data_

  unfoldable pub fetch_new_token : State → W → Result TokenResponse × W
  unfolding common_params
  fetch_new_token s w = elim (grant_params s) [
    | none ↦ (failed (errorf (bytes "oauth middleware: missing refresh token")), w)
    | some data_ ↦ send_token_request (common_params data_) w
  ]
