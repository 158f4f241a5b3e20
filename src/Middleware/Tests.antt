-- ===== src/Middleware/Tests.antt =====
-- The order of a chain of two middlewares.
use httpio.Base.{ℕ, ◌≡◌, refl, pos, List, [], ◌∷◌, ◌++◌, none, bytes}
use httpio.Http.{Handler, Request}
use httpio.Middleware.{Middleware, chain, wrap_middleware}

-- A middleware that logs its number in front of the next handler's call.
abbrev logging : ℕ → Middleware (List ℕ)
unfolding wrap_middleware
logging n = wrap_middleware (λ next ctx req w. next ctx req (w ++ n ∷ []))

abbrev base : Handler (List ℕ)
base ctx req w = record { response = none; error = none; request = req; world = w ++ 0 ∷ [] }

abbrev request : Request
request = record {
  method = bytes "GET";
  url = [];
  host = [];
  path = [];
  header = [];
  body = none;
  get_body = none;
  content_length = pos 0;
}

in_order : (chain base (logging 1 ∷ logging 2 ∷ []) [] request []).world ≡ 1 ∷ 2 ∷ 0 ∷ []
unfolding chain wrap_middleware
in_order = refl
