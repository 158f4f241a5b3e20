-- ===== src/Oauth.antt =====
-- middleware/oauth/oauth.go: the access token that the middleware keeps, gets and sends.
pub mod Requests
pub mod Access
pub mod Tokens
pub mod Sharing
pub mod Unauthorized
mod Tests
use httpio.Base.{
  ℕ, suc, ◌+◌, ◌-◌, ◌*◌, ◌^◌, ℤ, pos, negsuc, Bool, true, false, ◌||◌, List, [], ◌∷◌, ◌++◌, Option,
  none, some, Bytes, bytes, eq, is_empty, ltb, leb, ◌==◌, if◌then◌else◌, positive_or,
}
use Prim.Native.Nat.{◌%◌}
use httpio.Http.{Error, errorf, wrap, Header, Request, Response, Context, Answer, Handler}
use httpio.Http.Headers.{set, put}

pub record TokenResponse : Type 0 where
  pub access_token : Bytes
  pub token_type : Bytes
  pub expires_in : ℤ
  pub refresh_token : Bytes
  pub scope : Bytes

-- `url.Values`
abbrev pub Values : Type 0
Values = List (Bytes × List Bytes)

-- The map `AdditionalParams` is a list in the order in which the loop meets its keys.
pub record Config (W : Type 0) : Type 0 where
  pub token_url : Bytes
  pub client_id : Bytes
  pub client_secret : Bytes
  pub scopes : List Bytes
  pub grant_type : Bytes
  pub username : Bytes
  pub password : Bytes
  pub additional_params : List (Bytes × Bytes)
  pub header_name : Bytes
  pub header_format : Bytes
  pub refresh_threshold : ℤ
  pub on_new_token : Option (TokenResponse → W → W)
  pub on_token_error : Option (Error → W → W)

-- The fields of `type Middleware` that change.
pub record State : Type 0 where
  pub current_token : Option TokenResponse
  pub token_expires_at : ℕ

pub data Result (A : Type 0) : Type 0 where
  failed : Error → Result A
  ok : A → Result A

-- What the middleware uses of time, net/http, net/url, encoding/json and fmt. An instant is the
-- number of nanoseconds since the first one that `time.Time` holds.
pub record Platform (W : Type 0) : Type 0 where
  pub now : W → ℕ × W
  pub new_request : Bytes → Bytes → Bytes → Result Request
  pub client_do : Request → W → Result Response × W
  pub decode : Response → W → Result TokenResponse × W
  pub close : Response → W → W
  pub encode : Values → Bytes
  pub sprintf : Bytes → Bytes → Bytes
  pub show_status : ℕ → Bytes

unfoldable pub default_config : {W : Type 0} → Config W
default_config = record {
  token_url = [];
  client_id = [];
  client_secret = [];
  scopes = [];
  grant_type = bytes "client_credentials";
  username = [];
  password = [];
  additional_params = [];
  header_name = bytes "Authorization";
  header_format = bytes "Bearer %s";
  refresh_threshold = pos (30 * 10 ^ 9);
  on_new_token = none;
  on_token_error = none;
}

-- `New(config)`, which fills the empty names in; its middleware has no token.
unfoldable pub fill_in : {W : Type 0} → Option (Config W) → Config W
unfolding default_config
fill_in none = default_config
fill_in (some c) = record c {
  header_name = if is_empty c.header_name then bytes "Authorization" else c.header_name;
  header_format = if is_empty c.header_format then bytes "Bearer %s" else c.header_format;
}

abbrev pub initial : State
initial = record { current_token = none; token_expires_at = 0 }
