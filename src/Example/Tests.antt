-- ===== src/Example/Tests.antt =====
-- The example's middlewares at a concrete request.
use httpio.Base.{ℕ, ◌+◌, ◌≡◌, refl, pos, none, some, [], ◌∷◌, ◌++◌, Bytes, bytes, eq}
use httpio.Http.{Request, Handler}
use httpio.Http.Headers.{get, set, put, values, canonical}
use httpio.Example.{
  Platform, tag_response, correlate, with_user_agent, handle_timed, correlation_id_middleware,
  user_agent_middleware, combined, new_request_timer,
}
use httpio.Example.Traced.{IsTraced, combined-IsTraced}

program : Unit {0}
unfolding get set put values canonical eq tag_response correlate with_user_agent handle_timed
    correlation_id_middleware user_agent_middleware new_request_timer
program = tt

-- The world is the number of readings of the clock and what has been printed.
abbrev World : Type 0
World = ℕ × Bytes

abbrev platform : Platform World
platform = record {
  now = λ w. (w.0, (w.0 + 1, w.1));
  since = λ start w. (bytes "1s", w);
  print = λ text w. (w.0, w.1 ++ text);
  show_instant = λ n. n ∷ [];
  show_number = λ n. n ∷ [];
}

abbrev request : Request
request = record {
  method = bytes "POST";
  url = bytes "https://httpbin.org/post";
  host = bytes "httpbin.org";
  path = bytes "/post";
  header = (bytes "User-Agent", bytes "x" ∷ []) ∷ [];
  body = none;
  get_body = none;
  content_length = pos 0;
}

-- A handler that answers with the headers of the request.
abbrev echo : Handler World
echo ctx req w = record {
  response = some (record { status_code = 200; header = req.header; body = none });
  error = none;
  request = req;
  world = w;
}

combined-IsTraced_example : IsTraced echo [] request (combined platform echo [] request (65, []))
combined-IsTraced_example = combined-IsTraced platform echo [] request (65, [])

correlated :
    ((correlate platform request (65, [])).0 ≡ bytes "req-A")
    × (get (with_user_agent (bytes "App") request).header (bytes "User-Agent") ≡ bytes "App x")
    × ((correlation_id_middleware platform echo [] request (65, [])).world.1
        ≡ bytes "Processing request with correlation ID: req-A" ++ 10 ∷ [])
    × ((handle_timed platform (new_request_timer none) echo [] request (65, [])).world.1
        ≡ bytes "[RequestTimer] POST /post took 1s" ++ 10 ∷ [])
unfolding program
correlated = (refl, refl, refl, refl)
