-- ===== src/Mock/Dispatch.antt =====
-- mockserver/mock_server.go: which handler a request comes to, and a connection that does not break.
use httpio.Base.{
  ◌≡◌, refl, ap, ◌∙◌, inl, inr, true, List, [], ◌∷◌, ◌++◌, none, some, Bytes, bytes, eq, eq_refl,
  any, if◌then◌else◌, Bool-cases,
}
use httpio.Http.{Request}
use httpio.Mock.{
  http_error, all_methods, RouteHandler, ResponseWriter, RouteConfig, MockServer, write,
  write_header, handler, route_of, assign_route, add_route, add_route_with_methods, wrap_all,
}
use httpio.Mock.Routes.{Platform, if_flusher}

-- A write whose connection does not break.
pub write_whole :
    (b : Bytes) (w : ResponseWriter)
    → w.left ≡ none
    → ((write b w).0 ≡ true) × ((write b w).1.body ≡ w.body ++ b) × ((write b w).1.left ≡ none)
unfolding write write_header
write_whole b w h = rw (h) (refl, refl, refl)

-- A writer whose connection does not break, with nothing written yet, and which can flush.
pub record IsFresh (w : ResponseWriter) : Type 0 where
  pub unbroken : w.left ≡ none
  pub unwritten : w.body ≡ []
  pub flushes : w.can_flush ≡ true

-- A request that asks for the path.
pub record Asks (path : Bytes) (r : Request) : Type 0 where
  pub at_path : r.path ≡ path
  pub with_get : r.method ≡ bytes "GET"

get_allowed : (method : Bytes) → method ≡ bytes "GET" → any (λ m. eq m method) all_methods ≡ true
unfolding eq
get_allowed method e = rw (e)

module _ {J S : Type 0} (platform : Platform J S) where
  pub if_flusher-true :
      (go : ResponseWriter → S → ResponseWriter × S) (w : ResponseWriter) (s : S)
      → w.can_flush ≡ true
      → if_flusher platform go w s ≡ go w s
  unfolding if_flusher
  if_flusher-true go w s h =
      ap (λ b. if b then go w s else (http_error (bytes "Streaming not supported") 500 w, s)) h

module _ {S : Type 0} where
  route_of_same :
      (p path : Bytes) (c : RouteConfig S) (routes : List (Bytes × RouteConfig S))
      → eq p path ≡ true
      → route_of path ((p, c) ∷ routes) ≡ some c
  unfolding route_of
  route_of_same p path c routes same = rw (same)

  route_of-assign_route :
      (path : Bytes) (c : RouteConfig S) (routes : List (Bytes × RouteConfig S))
      → route_of path (assign_route path c routes) ≡ some c
  unfolding route_of assign_route
  route_of-assign_route path c [] = route_of_same path path c [] (eq_refl path)
  route_of-assign_route path c ((p, d) ∷ routes) = elim (Bool-cases (eq p path)) [
    | inl same ↦ rw (same, assign_route) (route_of_same p path c routes same)
    | inr different ↦ rw (different, assign_route, different) (route_of-assign_route path c routes)
  ]

  handler_found :
      (ms : MockServer S) (w : ResponseWriter) (r : Request) (s : S) (c : RouteConfig S)
      → route_of r.path ms.routes ≡ some c
      → any (λ method. eq method r.method) c.methods ≡ true
      → handler ms w r s
        ≡ wrap_all c.middleware (wrap_all ms.middleware (c.handler ms.default_delay)) w r s
  unfolding handler
  handler_found ms w r s c found allowed = rw (found, handler, allowed)

  -- A request to a server without global middlewares comes to the handler of its path's route.
  pub handler-add_route :
      (path : Bytes) (h : RouteHandler S) (ms : MockServer S) (w : ResponseWriter) (r : Request)
      (s : S)
      → ms.middleware ≡ []
      → Asks path r
      → handler (add_route path h ms) w r s ≡ h ms.default_delay w r s
  unfolding add_route add_route_with_methods wrap_all
  handler-add_route path h ms w r s plain asks =
      let served = add_route path h ms in
      handler_found served w r s _
        (ap (λ p. route_of p served.routes) asks.at_path ∙ route_of-assign_route path _ ms.routes)
        (get_allowed r.method asks.with_get)
      ∙ ap (λ m. wrap_all m (h ms.default_delay) w r s) plain
