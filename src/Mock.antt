-- ===== src/Mock.antt =====
-- mockserver/mock_server.go: the server's routes and the dispatch of a request. The server's lock is
-- not modelled, nor is what `Start` and `Stop` do with net/http.
pub mod Routes
pub mod Rest
mod Fixtures
pub mod Dispatch
pub mod Ndjson
pub mod Events
pub mod Data
pub mod Setup
mod Tests
use httpio.Base.{
  ℕ, ℤ, pos, suc, zero, ◌+◌, ◌-◌, Bool, true, false, List, [], ◌∷◌, ◌++◌, Option, none, some, Bytes,
  bytes, eq, any, is_empty, if◌then◌else◌,
}
use httpio.Http.{Header, Request}
use httpio.Http.Headers.{set}

-- `http.ResponseWriter`: the first status counts. `left` is how many writes succeed before the
-- connection breaks, if it does; `can_flush` whether the writer is an `http.Flusher`; `panicked`
-- whether the handler has panicked, when net/http drops the connection.
pub record ResponseWriter : Type 0 where
  pub header : Header
  pub status : Option ℕ
  pub body : Bytes
  pub left : Option ℕ
  pub can_flush : Bool
  pub panicked : Bool

abbrev pub HandlerFunc : Type 0 → Type 0
HandlerFunc S = ResponseWriter → Request → S → ResponseWriter × S

-- `type MiddlewareFunc func(http.Handler) http.Handler`
abbrev pub MiddlewareFunc : Type 0 → Type 0
MiddlewareFunc S = HandlerFunc S → HandlerFunc S

-- `w.Header().Set(key, value)`
abbrev pub put_header : Bytes → Bytes → ResponseWriter → ResponseWriter
put_header key value w = record w { header = set w.header key value }

abbrev first_status : Option ℕ → ℕ → Option ℕ
first_status none code = some code
first_status (some s) code = some s

-- `w.WriteHeader(code)`
unfoldable pub write_header : ℕ → ResponseWriter → ResponseWriter
write_header code w = record w { status = first_status w.status code }

-- `w.Write(b)`: whether it succeeds, and the writer.
unfoldable pub write : Bytes → ResponseWriter → Bool × ResponseWriter
unfolding write_header
write b w = elim w.left [
  | none ↦ (true, record (write_header 200 w) { body = w.body ++ b })
  | some zero ↦ (false, write_header 200 w)
  | some (suc n) ↦ (true, record (write_header 200 w) { body = w.body ++ b; left = some n })
]

-- `http.Error(w, message, code)`
unfoldable pub http_error : Bytes → ℕ → ResponseWriter → ResponseWriter
unfolding write write_header
http_error message code w =
    (write (message ++ 10 ∷ []) (
      write_header code (
        put_header (bytes "X-Content-Type-Options") (bytes "nosniff")
          (put_header (bytes "Content-Type") (bytes "text/plain; charset=utf-8") w)))).1

-- The handler of a route, which may read the server's default delay when it is called.
abbrev pub RouteHandler : Type 0 → Type 0
RouteHandler S = ℤ → HandlerFunc S

pub record RouteConfig (S : Type 0) : Type 0 where
  pub handler : RouteHandler S
  pub methods : List Bytes
  pub middleware : List (MiddlewareFunc S)

pub record MockServer (S : Type 0) : Type 0 where
  pub routes : List (Bytes × RouteConfig S)
  pub middleware : List (MiddlewareFunc S)
  pub address : Bytes
  pub default_delay : ℤ

-- The methods of `AddRoute`.
abbrev pub all_methods : List Bytes
all_methods =
    bytes "GET" ∷ bytes "POST" ∷ bytes "PUT" ∷ bytes "DELETE" ∷ bytes "PATCH" ∷ bytes "OPTIONS" ∷ []

module _ {S : Type 0} where
  -- `NewMockServer(address)`
  unfoldable pub new_mock_server : Bytes → MockServer S
  new_mock_server address = record {
    routes = [];
    middleware = [];
    address = if is_empty address then bytes "localhost:8080" else address;
    default_delay = pos 0;
  }

  -- `AddMiddleware(middleware)`
  unfoldable pub add_middleware : MiddlewareFunc S → MockServer S → MockServer S
  add_middleware m ms = record ms { middleware = ms.middleware ++ m ∷ [] }

  -- `SetDefaultDelay(delay)`
  unfoldable pub set_default_delay : ℤ → MockServer S → MockServer S
  set_default_delay delay ms = record ms { default_delay = delay }

  -- `routes[path]` and `routes[path] = config`
  unfoldable pub route_of : Bytes → List (Bytes × RouteConfig S) → Option (RouteConfig S)
  route_of path [] = none
  route_of path ((p, c) ∷ routes) = if eq p path then some c else route_of path routes

  unfoldable pub assign_route :
      Bytes → RouteConfig S → List (Bytes × RouteConfig S) → List (Bytes × RouteConfig S)
  assign_route path config [] = (path, config) ∷ []
  assign_route path config ((p, c) ∷ routes) =
      if eq p path then (p, config) ∷ routes else (p, c) ∷ assign_route path config routes

  -- `AddRouteWithMethods(path, handler, methods)`
  unfoldable pub add_route_with_methods :
      Bytes → RouteHandler S → List Bytes → MockServer S → MockServer S
  unfolding assign_route
  add_route_with_methods path handler methods ms = record ms {
    routes =
        assign_route path (record { handler = handler; methods = methods; middleware = [] })
          ms.routes;
  }

  -- `AddRoute(path, handler)`
  unfoldable pub add_route : Bytes → RouteHandler S → MockServer S → MockServer S
  unfolding add_route_with_methods
  add_route path handler ms = add_route_with_methods path handler all_methods ms

  -- `for _, middleware := range ms { handler = middleware(handler) }`
  unfoldable pub wrap_all : List (MiddlewareFunc S) → HandlerFunc S → HandlerFunc S
  wrap_all [] handler = handler
  wrap_all (m ∷ ms) handler = wrap_all ms (m handler)

  -- `handler()`
  unfoldable pub handler : MockServer S → HandlerFunc S
  unfolding route_of write write_header wrap_all
  handler ms w r s = elim (route_of r.path ms.routes) [
    | none ↦ ((write (bytes "{\"error\": \"Not Found\"}") (write_header 404 w)).1, s)
    | some config ↦
        if any (λ method. eq method r.method) config.methods
        then wrap_all config.middleware (wrap_all ms.middleware (config.handler ms.default_delay)) w
            r s
        else ((write (bytes "{\"error\": \"Method Not Allowed\"}") (write_header 405 w)).1, s)
  ]

  -- `URL(path)`
  unfoldable pub url : MockServer S → Bytes → Bytes
  url ms path = bytes "http://" ++ (ms.address ++ path)
