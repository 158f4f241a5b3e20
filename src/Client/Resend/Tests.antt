-- ===== src/Client/Resend/Tests.antt =====
-- A client that retries, at a concrete request.
use httpio.Base.{
  ℕ, ◌≡◌, refl, ap, sym, ◌⊎◌, pos, inr, List, [], ◌∷◌, Option, none, some, Bytes, bytes, map, eq,
}
use httpio.Http.{Error, BodySource, gives, Request, Response}
use httpio.Http.Headers.{get, set, add, put, values, canonical}
use httpio.Client.{
  Client, ClientRequest, new, new_request, with_body, with_client_middleware, text, each_value,
  add_value,
}
use httpio.Client.Execute.{
  Platform, do_, execute, read_body, finish, handler_of, build_middleware_chain,
}
use httpio.Client.Resend.{Observes, Carry, do-Carry}
use httpio.Middleware.{chain}
use httpio.Retry.{
  World, Host, Config, middleware, handle, attempts, round, after_wait, attempt_with, judge,
  back_off, clone_request, is_settled, is_below_500, should_retry, has_retryable_status, close_body,
}
use httpio.Retry.Float64.{natural}

program : Unit {0}
unfolding new new_request with_body with_client_middleware each_value add_value do_ execute
    read_body finish handler_of build_middleware_chain chain middleware handle attempts round
    after_wait attempt_with judge back_off clone_request is_settled is_below_500 should_retry
    has_retryable_status close_body get set add put values canonical eq
program = tt

abbrev config : Config ℕ
config = record {
  max_retries = pos 2;
  retryable_status_codes = 503 ∷ [];
  base_delay = pos 100;
  max_delay = pos 250;
  error_predicate = none;
  jitter_factor = 0;
}

abbrev Log : Type 0
Log = List Request

abbrev host : Host Log ℕ
host = record { wait = λ d v. (none, v); random = λ v. (0, v) }

abbrev busy : Response
busy = record { status_code = 503; header = []; body = none }

abbrev body_source : Option Bytes → Option BodySource
body_source none = none
body_source (some b) = some (gives b)

abbrev made : Bytes → Bytes → Option Bytes → Request
made m u b = record {
  method = m;
  url = u;
  host = [];
  path = [];
  header = [];
  body = b;
  get_body = body_source b;
  content_length = pos 0;
}

abbrev platform : Platform Bytes (World Log)
platform = record {
  parse = λ u. inr (record { query = []; print = λ q. u });
  marshal = λ j. inr j;
  make_request = λ m u b. inr (made m u b);
  send = λ c ctx req w. record {
    response = some busy;
    error = none;
    request = req;
    world = record w { rest = req ∷ w.rest };
  };
  limit = λ t ctx. ctx;
  cancel = λ w. w;
  close = λ b w. w;
}

made_of : {r q : Request} → ◌≡◌ {A = Error ⊎ Request} (inr r) (inr q) → r ≡ q
made_of h = cc

platform-Observes : Observes platform host (λ v. v)
platform-Observes = record {
  send = λ c ctx r w. refl;
  leaves = λ c ctx r w. refl;
  wait = λ d v. refl;
  random = λ v. refl;
  cancel = λ w. refl;
  close = λ b w. refl;
  bodiless = λ m u r h. ap (λ q. q.body) (sym (made_of h));
  readable =
      λ m u b r h. (ap (λ q. q.body) (sym (made_of h)), ap (λ q. q.get_body) (sym (made_of h)));
}

abbrev client : Client (World Log)
unfolding program
client = with_client_middleware (middleware natural host config) new

abbrev request : ClientRequest Bytes (World Log)
unfolding program
request = with_body (text (bytes "x")) (new_request client (bytes "PUT") (bytes "http://h/"))

abbrev start : World Log
start = record { closed = []; rest = [] }

do-Carry_example :
    Carry natural host config platform
      (λ v. v)
      platform-Observes
      (some (bytes "x"))
      request.headers
      (do_ platform [] request start).world
unfolding program
do-Carry_example =
    do-Carry natural host config platform (λ v. v) platform-Observes [] request start
      (some (bytes "x")) request.headers refl refl refl refl

-- The server is busy each time.
sent :
    map (λ r. r.body) (do_ platform [] request start).world.rest
    ≡ some (bytes "x") ∷ some (bytes "x") ∷ some (bytes "x") ∷ []
unfolding program
sent = refl
