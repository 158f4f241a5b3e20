-- ===== src/Client.antt =====
-- httpio.go: the client and its requests, and the builder methods of internal/client/request.go.
pub mod Execute
pub mod Order
pub mod Responses
pub mod Readers
pub mod Resend
mod Tests
use httpio.Base.{
  ℕ, ℤ, pos, Bool, true, false, List, [], ◌∷◌, ◌++◌, Option, none, some, Bytes, bytes, is_empty,
  if◌then◌else◌,
}
use httpio.Http.{Header, Context}
use httpio.Http.Headers.{set, add, values, put}
use httpio.Middleware.{Middleware}

-- `url.Values`
abbrev pub Values : Type 0
Values = List (Bytes × List Bytes)

-- The settings of `http.Transport` that the client changes.
pub record Pool : Type 0 where
  pub max_idle_conns : ℤ
  pub max_conns_per_host : ℤ
  pub max_idle_conns_per_host : ℤ
  pub idle_conn_timeout : ℤ

-- What the library sets in `http.Client`; its transport is missing, or a pool.
pub record HttpClient : Type 0 where
  pub timeout : ℤ
  pub transport : Option Pool

pub record Client (W : Type 0) : Type 0 where
  pub client : HttpClient
  pub base_url : Bytes
  pub headers : Header
  pub middlewares : List (Middleware W)

-- The body of a request by its type: nil, `[]byte`, `string`, or a value of J for the JSON encoder.
pub data Body (J : Type 0) : Type 0 where
  no_body : Body J
  raw : Bytes → Body J
  text : Bytes → Body J
  value : J → Body J

-- `type Request` of internal/client/request.go.
pub record ClientRequest (J W : Type 0) : Type 0 where
  pub method : Bytes
  pub url : Bytes
  pub headers : Header
  pub query : Values
  pub body : Body J
  pub client : Client W
  pub middlewares : List (Middleware W)
  pub timeout : Option ℤ

-- `data.Add(k, v)` on `url.Values`
unfoldable pub add_value : Bytes → Bytes → Values → Values
add_value k v data_ = put k (values k data_ ++ v ∷ []) data_

-- A call for each value of each key, in the order in which a loop over the map meets them.
unfoldable pub each_value :
    {A : Type 0} → (Bytes → Bytes → A → A) → List (Bytes × List Bytes) → A → A
each_value f [] a = a
each_value f ((k, []) ∷ m) a = each_value f m a
each_value f ((k, v ∷ vs) ∷ m) a = each_value f ((k, vs) ∷ m) (f k v a)

-- A call for each pair of a map of strings.
unfoldable pub each : {A : Type 0} → (Bytes → Bytes → A → A) → List (Bytes × Bytes) → A → A
each f [] a = a
each f ((k, v) ∷ m) a = each f m (f k v a)

module _ {W : Type 0} where
  -- `New()`
  unfoldable pub new : Client W
  new = record {
    client = record { timeout = pos 0; transport = none };
    base_url = [];
    headers = set [] (bytes "User-Agent") (bytes "httpio");
    middlewares = [];
  }

  unfoldable pub with_base_url : Bytes → Client W → Client W
  with_base_url base_url c = record c { base_url = base_url }

  unfoldable pub with_client_header : Bytes → Bytes → Client W → Client W
  with_client_header key val c = record c { headers = set c.headers key val }

  unfoldable pub with_client_headers : List (Bytes × Bytes) → Client W → Client W
  with_client_headers headers c = each with_client_header headers c

  unfoldable pub with_client_timeout : ℤ → Client W → Client W
  with_client_timeout timeout c = record c { client = record c.client { timeout = timeout } }

  unfoldable pub with_client_middleware : Middleware W → Client W → Client W
  with_client_middleware m c = record c { middlewares = c.middlewares ++ m ∷ [] }

  unfoldable pub with_client_middlewares : List (Middleware W) → Client W → Client W
  with_client_middlewares ms c = record c { middlewares = c.middlewares ++ ms }

  -- `WithConnectionPool`: a missing transport is made first, and all four settings are written.
  unfoldable pub with_connection_pool : ℤ → ℤ → ℤ → ℤ → Client W → Client W
  with_connection_pool idle per_host idle_per_host idle_timeout c = record c {
    client = record c.client {
      transport = some (record {
        max_idle_conns = idle;
        max_conns_per_host = per_host;
        max_idle_conns_per_host = idle_per_host;
        idle_conn_timeout = idle_timeout;
      });
    };
  }

module _ {J W : Type 0} where
  -- `c.NewRequest(method, path)`
  unfoldable pub new_request : Client W → Bytes → Bytes → ClientRequest J W
  new_request c method path = record {
    method = method;
    url = if is_empty c.base_url then path else c.base_url ++ path;
    headers = each_value (λ k v h. add h k v) c.headers [];
    query = [];
    body = no_body;
    client = c;
    middlewares = [];
    timeout = none;
  }

  unfoldable pub with_header : Bytes → Bytes → ClientRequest J W → ClientRequest J W
  with_header key val r = record r { headers = set r.headers key val }

  unfoldable pub with_headers : List (Bytes × Bytes) → ClientRequest J W → ClientRequest J W
  with_headers headers r = each with_header headers r

  unfoldable pub with_query : Bytes → Bytes → ClientRequest J W → ClientRequest J W
  with_query key val r = record r { query = add_value key val r.query }

  unfoldable pub with_query_map : List (Bytes × Bytes) → ClientRequest J W → ClientRequest J W
  with_query_map params r = each with_query params r

  unfoldable pub with_body : Body J → ClientRequest J W → ClientRequest J W
  with_body body r = record r { body = body }

  unfoldable pub with_middleware : Middleware W → ClientRequest J W → ClientRequest J W
  with_middleware m r = record r { middlewares = r.middlewares ++ m ∷ [] }

  unfoldable pub with_middlewares : List (Middleware W) → ClientRequest J W → ClientRequest J W
  with_middlewares ms r = record r { middlewares = r.middlewares ++ ms }

  unfoldable pub with_timeout : ℤ → ClientRequest J W → ClientRequest J W
  with_timeout timeout r = record r { timeout = some timeout }
