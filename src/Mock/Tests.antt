-- ===== src/Mock/Tests.antt =====
-- The mock server at concrete requests.
use httpio.Base.{◌≡◌, refl, ◌++◌, pos, List, [], ◌∷◌, none, some, Bytes, bytes, arith}
use httpio.Stream.{Callback}
use httpio.Stream.Lines.{lines_loop, line_of}
use httpio.Stream.Scanner.{drop_cr}
use httpio.Stream.Sse.Deliver.{deliver}
use httpio.Mock.{MockServer, handler, url}
use httpio.Mock.Routes.{add_json_route, add_streaming_json_route, add_ndjson_route}
use httpio.Mock.Rest.{item, add_rest_route}
use httpio.Mock.Ndjson.{marshalled, IsJsonLine, lines_loop-handler}
use httpio.Mock.Fixtures.{
  program, Shared, platform, fresh, ask, server, server_plain, storage, encoding, stored,
}

abbrev log : Callback Bytes (List Bytes)
log a w = (none, a ∷ w)

abbrev items : List Bytes
items = bytes "{}" ∷ bytes "[1]" ∷ []

lines_short : (IsJsonLine platform (bytes "{}")) × (IsJsonLine platform (bytes "[1]"))
unfolding program line_of drop_cr
lines_short = (
  record { one_line = ((omega arith, (omega arith, tt)), omega arith); no_return = refl },
  record {
    one_line = ((omega arith, (omega arith, (omega arith, tt))), omega arith);
    no_return = refl;
  },
)

lines_loop-handler_example :
    lines_loop 4
      (10 ∷ [])
      log
      none
      (handler
        (add_ndjson_route platform (bytes "/n") items 500 server)
        fresh
        (ask (bytes "GET") (bytes "/n"))
        ([], 0)).0.body
      []
    ≡ some (deliver log items none [])
unfolding marshalled
lines_loop-handler_example =
    lines_loop-handler platform (bytes "/n") items 500 server fresh (ask (bytes "GET") (bytes "/n"))
      ([], 0) log none 4 [] server_plain (record { at_path = refl; with_get = refl })
      (record { unbroken = refl; unwritten = refl; flushes = refl })
      (lines_short.0, (lines_short.1, tt)) (omega arith)

abbrev rest : MockServer Shared
unfolding program
rest = add_rest_route platform encoding storage (bytes "/r") server

-- No request for an item finds the route, which stands under the path "/r/{id}"; the handler itself
-- works, and a resource that is created after another one was deleted replaces the last one.
resources :
    ((handler rest fresh (ask (bytes "GET") (bytes "/r/1")) stored).0.status ≡ some 404)
    × ((handler rest fresh (ask (bytes "GET") (bytes "/r/{id}")) stored).0.status ≡ some 404)
    × ((item platform encoding storage 2
          (pos 0)
          fresh
          (ask (bytes "GET") (bytes "/r/1"))
          stored).0.body
        ≡ bytes "a" ++ 10 ∷ [])
    × ((item platform encoding storage 2
          (pos 0)
          fresh
          (ask (bytes "DELETE") (bytes "/r/1"))
          stored).1.0
        ≡ (bytes "2", bytes "b") ∷ [])
    × ((handler rest fresh (ask (bytes "POST") (bytes "/r")) ((bytes "2", bytes "b") ∷ [], 0)).1.0
        ≡ (bytes "2", bytes "new") ∷ [])
    × ((handler rest fresh (ask (bytes "PATCH") (bytes "/r")) stored).0.status ≡ some 405)
unfolding program
resources = (refl, refl, refl, refl, refl, refl)

-- The default delay, and a connection that breaks behind the first item.
delays :
    ((handler
        (add_json_route platform
          (bytes "/j")
          (record { status_code = 0; headers = []; data_ = some (bytes "1"); delay = pos 0 })
          server)
        fresh
        (ask (bytes "GET") (bytes "/j"))
        ([], 0)).1.1
      ≡ 1)
    × ((handler
          (add_streaming_json_route platform (bytes "/s") items 500 server)
          (record fresh { left = some 1 })
          (ask (bytes "GET") (bytes "/s"))
          ([], 0)).0.body
        ≡ bytes "{}" ++ 10 ∷ [])
    × (url server (bytes "/x") ≡ bytes "http://localhost:8080/x")
unfolding program
delays = (refl, refl, refl)
