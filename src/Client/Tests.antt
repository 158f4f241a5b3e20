-- ===== src/Client/Tests.antt =====
-- A client and its requests at concrete inputs.
use httpio.Base.{
  ℕ, ◌≡◌, refl, pos, ◌++◌, inr, List, [], ◌∷◌, none, some, Bytes, bytes, eq, strip_prefix, false,
}
use httpio.Http.{foreign, eof}
use httpio.Http.Headers.{get, set, add, put, values, canonical}
use httpio.Middleware.{Middleware, chain}
use httpio.Middleware.Order.{nest}
use httpio.Client.{
  Client, ClientRequest, value, text, new, with_base_url, with_client_header, with_client_headers,
  with_client_middleware, with_client_middlewares, with_client_timeout, with_connection_pool,
  new_request, with_header, with_headers, with_query, with_query_map, with_body, with_middleware,
  with_middlewares, with_timeout, each, each_value, add_value,
}
use httpio.Client.Execute.{
  Platform, build_middleware_chain, read_body, handler_of, finish, execute, do_, do_with_body,
}
use httpio.Client.Readers.{
  Bodies, read_bytes, read_string, read_json, write_to, consume, pipe, send_slice, received,
  Streams, then_stream, response_stream, response_stream_lines, response_stream_json,
  request_stream, request_stream_lines, request_stream_json,
}
use httpio.Stream.{
  Callback, more, last, stop, stream, stream_loop, hand, apply_options, default_stream_options,
  check_content_type,
}
use httpio.Stream.Scanner.{drop_cr}
use httpio.Stream.Lines.{stream_lines, lines_loop, scan, cut_at, line_of}
use httpio.Client.Order.{handler_of-nest}

program : Unit {0}
unfolding get set add put values canonical eq chain new with_base_url with_client_header
    with_client_headers with_client_middleware with_client_middlewares with_client_timeout
    with_connection_pool new_request with_header with_headers with_query with_query_map with_body
    with_middleware with_middlewares with_timeout each each_value add_value build_middleware_chain
    read_body handler_of finish execute do_ do_with_body
program = tt

-- The world is the list of what has run.
abbrev logging : ℕ → Middleware (List ℕ)
logging n = record { handle = λ next ctx req w. next ctx req (w ++ n ∷ []) }

-- The server fails with a response whose body is open, where the body sent is empty.
abbrev platform : Platform Bytes (List ℕ)
platform = record {
  parse = λ u. inr (record { query = []; print = λ q. u });
  marshal = λ j. inr j;
  make_request = λ m u b. inr (record {
    method = m;
    url = u;
    host = [];
    path = [];
    header = [];
    body = b;
    get_body = none;
    content_length = pos 0;
  });
  send = λ c ctx req w. record {
    response = some (record { status_code = 200; header = []; body = some 5 });
    error = elim req.body [ none ↦ some (foreign 1) | some b ↦ none ];
    request = req;
    world = w ++ 0 ∷ [];
  };
  limit = λ t ctx. ctx;
  cancel = λ w. w ++ 8 ∷ [];
  close = λ b w. w ++ 9 ∷ [];
}

abbrev client : Client (List ℕ)
client = with_client_timeout (pos 5) (
    with_connection_pool (pos 1) (pos 2) (pos 3) (pos 4) (
      with_client_middlewares (logging 2 ∷ []) (
        with_client_middleware (logging 1) (
          with_client_headers ((bytes "accept", bytes "*/*") ∷ [])
            (with_base_url (bytes "http://host") new)))))

abbrev request : ClientRequest Bytes (List ℕ)
request = with_timeout (pos 7) (
    with_middlewares (logging 4 ∷ []) (
      with_middleware (logging 3) (
        with_query_map ((bytes "q", bytes "1") ∷ []) (
          with_headers ((bytes "x-id", bytes "7") ∷ [])
            (new_request client (bytes "GET") (bytes "/a"))))))

handler_of-nest_example :
    handler_of platform request
    ≡ nest
        (nest (platform.send request.client.client) request.middlewares)
        request.client.middlewares
handler_of-nest_example = handler_of-nest platform request

-- The body of a response that comes with an error is closed, then the deadline is cancelled.
runs :
    ((do_ platform [] request []).world ≡ 1 ∷ 2 ∷ 3 ∷ 4 ∷ 0 ∷ 9 ∷ 8 ∷ [])
    × ((do_ platform [] request []).response ≡ none)
    × ((do_with_body platform (bytes "POST") client [] (bytes "/") (value (bytes "x")) []).error
        ≡ none)
    × (get
          (do_with_body platform
            (bytes "POST")
            client
            []
            (bytes "/")
            (value (bytes "x"))
            []).request.headers
          (bytes "content-type")
        ≡ bytes "application/json")
    × (request.url ≡ bytes "http://host/a")
unfolding program
runs = (refl, refl, refl, refl, refl)

-- Two slices of one buffer: a receiver that is late reads the second chunk twice. The end is an error.
piped :
    (received
        (pipe
          (more (bytes "ab") (last (bytes "cd") eof))
          (record { buf = bytes "...."; slices = []; is_closed = false })).1
      ≡ bytes "cd" ∷ bytes "cd" ∷ [])
    × ((pipe (last [] eof) (record { buf = bytes "...."; slices = []; is_closed = false })).0 ≡ eof)
unfolding pipe send_slice
piped = (refl, refl)

-- A body that gives a byte and then an error.
abbrev bodies : Bodies (List ℕ)
bodies = record {
  read_all = λ b w. (bytes "x", some (foreign b), w);
  copy = λ b w. (1, some (foreign b), w);
  discard = λ b w. (some (foreign b), w);
  decode = λ b w. (none, w);
  close = λ b w. (none, 9 ∷ w);
}

read_all_ways :
    (read_bytes bodies 5 [] ≡ (bytes "x", some (foreign 5), 9 ∷ []))
    × (read_string bodies 5 [] ≡ ([], some (foreign 5), 9 ∷ []))
    × (read_json bodies 5 [] ≡ (none, 9 ∷ []))
    × (write_to bodies 5 [] ≡ (1, some (foreign 5), 9 ∷ []))
    × (consume bodies 5 [] ≡ (some (foreign 5), 9 ∷ []))
unfolding read_bytes read_string read_json write_to consume
read_all_ways = (refl, refl, refl, refl, refl)

abbrev streams : Streams Bytes (List ℕ)
streams = record {
  reads = λ b w. last (bytes "r") eof;
  reader = λ b w. record { content = bytes "s"; failure = none };
  decodes = λ b w. stop eof;
  close_stream = λ b w. 9 ∷ w;
}

abbrev count : Callback Bytes (List ℕ)
count s w = (none, s ++ w)

-- `Do` fails without a body, and a request with one is streamed.
streamed :
    (request_stream platform streams [] count [] (with_body (text (bytes "x")) request) []
      ≡ some (none, 9 ∷ b'r' ∷ 1 ∷ 2 ∷ 3 ∷ 4 ∷ 0 ∷ 8 ∷ []))
    × (request_stream_lines platform streams 5 [] count [] (with_body (text (bytes "x")) request) []
        ≡ some (some (none, 9 ∷ b's' ∷ 1 ∷ 2 ∷ 3 ∷ 4 ∷ 0 ∷ 8 ∷ [])))
    × (request_stream_json platform streams [] count request []
        ≡ some (some (foreign 1), 1 ∷ 2 ∷ 3 ∷ 4 ∷ 0 ∷ 9 ∷ 8 ∷ []))
unfolding program request_stream request_stream_lines request_stream_json then_stream
    response_stream response_stream_lines response_stream_json stream stream_loop hand stream_lines
    lines_loop scan cut_at line_of apply_options default_stream_options check_content_type
    strip_prefix drop_cr eq
streamed = (refl, refl, refl)
