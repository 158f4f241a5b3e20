-- ===== src/Example.antt =====
-- example/custom-middleware/main.go: middlewares as the library's documentation tells users to write
-- them. A write to the header of a response without a header map would panic; net/http gives none.
pub mod Traced
pub mod Streaming
mod Tests
use httpio.Base.{
  ℕ, Bool, true, Option, none, some, Bytes, bytes, List, [], ◌∷◌, ◌++◌, is_empty, if◌then◌else◌,
}
use httpio.Http.{Request, Response, Answer, Handler}
use httpio.Http.Headers.{get, set}
use httpio.Middleware.{Middleware, chain, wrap_middleware}

-- Packages time and fmt: the clock, the time since an instant, and the standard output.
pub record Platform (W : Type 0) : Type 0 where
  pub now : W → ℕ × W
  pub since : ℕ → W → Bytes × W
  pub print : Bytes → W → W
  pub show_instant : ℕ → Bytes
  pub show_number : ℕ → Bytes

-- `type Config struct`
pub record Config : Type 0 where
  pub name : Bytes
  pub enable_detailed : Bool
  pub threshold : ℕ

pub record RequestTimer : Type 0 where
  pub name : Bytes

-- `NewRequestTimer(config)`
unfoldable pub new_request_timer : Option Config → RequestTimer
new_request_timer none = record { name = bytes "RequestTimer" }
new_request_timer (some config) = record { name = config.name }

-- The timer of `main`.
unfoldable pub api_timer : RequestTimer
unfolding new_request_timer
api_timer =
    new_request_timer
      (some (record { name = bytes "APITimer"; enable_detailed = true; threshold = 1000000000 }))

-- `if resp != nil { resp.Header.Set(key, value) }`
unfoldable pub tag_response : Bytes → Bytes → Option Response → Option Response
tag_response key value none = none
tag_response key value (some r) = some (record r { header = set r.header key value })

abbrev pub correlation_header : Bytes
correlation_header = bytes "X-Correlation-ID"

abbrev pub correlation_key : Bytes
correlation_key = bytes "correlation_id"

-- The request with the user agent in front of its own, if it has one.
unfoldable pub with_user_agent : Bytes → Request → Request
with_user_agent user_agent req =
    let original = get req.header (bytes "User-Agent") in
    let value = if is_empty original then user_agent else user_agent ++ 32 ∷ original in
    record req { header = set req.header (bytes "User-Agent") value }

module _ {W : Type 0} (platform : Platform W) where
  -- `fmt.Printf("[%s] %s %s took %v\n", ...)`
  abbrev report : Bytes → Request → Bytes → Bytes
  report name req duration =
      bytes "["
      ++ (name
          ++ (bytes "] "
              ++ (req.method
                  ++ (bytes " " ++ (req.path ++ (bytes " took " ++ (duration ++ 10 ∷ [])))))))

  -- `Handle(next)` of the timer; the request is read after the call.
  unfoldable pub handle_timed : RequestTimer → Handler W → Handler W
  unfolding tag_response
  handle_timed timer next ctx req w =
      let (start, w1) = platform.now w in
      let a = next ((bytes "request_start", platform.show_instant start) ∷ ctx) req w1 in
      let (duration, w2) = platform.since start a.world in
      record a {
        response = tag_response (bytes "X-Request-Duration") duration a.response;
        world = platform.print (report timer.name a.request duration) w2;
      }

  -- The correlation ID of a request, which a request without one gets.
  unfoldable pub correlate : Request → W → Bytes × Request × W
  correlate req w =
      let id = get req.header correlation_header in
      if is_empty id
      then (let (now, w1) = platform.now w in
          let fresh = bytes "req-" ++ platform.show_number now in
          (fresh, record req { header = set req.header correlation_header fresh }, w1))
      else (id, req, w)

  -- `correlationIDMiddleware(next)`
  unfoldable pub correlation_id_middleware : Handler W → Handler W
  unfolding correlate tag_response
  correlation_id_middleware next ctx req w =
      let (id, req', w1) = correlate req w in
      let w2 =
        platform.print (bytes "Processing request with correlation ID: " ++ (id ++ 10 ∷ [])) w1 in
      let a = next ((correlation_key, id) ∷ ctx) req' w2 in
      record a { response = tag_response correlation_header id a.response }

  -- `userAgentMiddleware(userAgent)`
  unfoldable pub user_agent_middleware : Bytes → Handler W → Handler W
  unfolding with_user_agent
  user_agent_middleware user_agent next ctx req w =
      let req' = with_user_agent user_agent req in
      next ctx req' (
        platform.print
          (bytes "Set User-Agent: " ++ (get req'.header (bytes "User-Agent") ++ 10 ∷ [])) w)

  -- The middlewares of `main`.
  unfoldable pub middlewares : List (Middleware W)
  unfolding wrap_middleware handle_timed correlation_id_middleware user_agent_middleware
  middlewares =
      record { handle = handle_timed api_timer }
      ∷ wrap_middleware correlation_id_middleware
      ∷ wrap_middleware (user_agent_middleware (bytes "CombinedApp/1.0"))
      ∷ []

  -- They stand around the client's own handler.
  unfoldable pub combined : Handler W → Handler W
  unfolding chain middlewares
  combined base = chain base middlewares
