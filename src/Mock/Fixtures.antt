-- ===== src/Mock/Fixtures.antt =====
-- A mock server and its surroundings for the tests.
use httpio.Base.{false, ℕ, ◌≡◌, refl, ◌+◌, pos, true, List, [], ◌∷◌, none, some, Bytes, bytes, eq}
use httpio.Http.{Request}
use httpio.Http.Headers.{get, set, put, values, canonical}
use httpio.Mock.{
  ResponseWriter, MockServer, write_header, write, http_error, new_mock_server, add_middleware,
  set_default_delay, route_of, assign_route, add_route_with_methods, add_route, wrap_all, handler,
  url,
}
use httpio.Mock.Routes.{
  Platform, write_json, handle_json_response, add_json_route, add_json_route_with_methods,
  stream_items, add_streaming_json_route, if_flusher, ndjson_items, ndjson_handler,
  add_ndjson_route, sse_items, add_sse_route,
}
use httpio.Mock.Rest.{
  Storage, Encoding, find_item, assign_item, delete_item, collection, serve_item, item,
  add_rest_route,
}
use httpio.Mock.Setup.{setup_url}
use httpio.Mock.Data.{
  generate_mock_data, stream_from, ndjson_from, default_users, default_posts, default_comments,
  default_products, default_events,
}
use httpio.Stream.Sse.RoundTrip.{write_event}

unfoldable pub program : Unit {0}
unfolding write_header write http_error new_mock_server add_middleware set_default_delay route_of
    assign_route add_route_with_methods add_route wrap_all handler url write_json
    handle_json_response add_json_route add_json_route_with_methods stream_items
    add_streaming_json_route if_flusher ndjson_items ndjson_handler add_ndjson_route sse_items
    add_sse_route find_item assign_item delete_item collection serve_item item add_rest_route get
    set put values canonical eq write_event setup_url generate_mock_data stream_from ndjson_from
    default_users default_posts default_comments default_products default_events
program = tt

-- The shared state: the map of a resource, and how often a handler has slept.
abbrev pub Shared : Type 0
Shared = List (Bytes × Bytes) × ℕ

abbrev pub platform : Platform Bytes Shared
platform = record { sleep = λ n s. (s.0, s.1 + 1); marshal = λ j. some j }

abbrev pub fresh : ResponseWriter
fresh = record {
  header = [];
  status = none;
  body = [];
  left = none;
  can_flush = true;
  panicked = false;
}

abbrev pub ask : Bytes → Bytes → Request
ask method path = record {
  method = method;
  url = path;
  host = bytes "h";
  path = path;
  header = [];
  body = some (bytes "new");
  get_body = none;
  content_length = pos 3;
}

abbrev pub server : MockServer Shared
server = set_default_delay (pos 5) (new_mock_server [])

abbrev pub storage : Storage Bytes Shared
storage = record { load = λ s. s.0; save = λ m s. (m, s.1) }

-- Numbers are one digit.
abbrev pub encoding : Encoding Bytes
encoding = record {
  decode = λ b. b;
  is_null = λ j. eq j (bytes "null");
  object = λ m. bytes "all";
  created = λ id j. id;
  show_number = λ n. (48 + n) ∷ [];
}

abbrev pub stored : Shared
stored = ((bytes "1", bytes "a") ∷ (bytes "2", bytes "b") ∷ [], 0)

pub server_plain : server.middleware ≡ []
unfolding program
server_plain = refl
