-- ===== src/Custom/Tests.antt =====
-- The header middleware at a concrete request.
use httpio.Base.{◌≡◌, refl, true, false, [], ◌∷◌, none, some, bytes, eq, pos}
use httpio.Http.{Request}
use httpio.Http.Headers.{get, set, put, values, canonical}
use httpio.Custom.{Config, set_header, set_headers, set_conditional, add_headers}
use httpio.Custom.Keeps.{add_headers-keeps}

program : Unit {0}
unfolding get set put values canonical eq set_header set_headers set_conditional add_headers
program = tt

abbrev request : Request
request = record {
  method = bytes "GET";
  url = bytes "http://host/";
  host = bytes "host";
  path = bytes "/";
  header = (bytes "Accept", bytes "text/html" ∷ []) ∷ [];
  body = none;
  get_body = none;
  content_length = pos 0;
}

abbrev config : Config
config = record {
  headers = (bytes "accept", bytes "*/*") ∷ (bytes "x-id", bytes "7") ∷ [];
  conditional_headers =
      record {
        name = bytes "X-Again";
        value = bytes "1";
        condition = some (λ req. eq (get req.header (bytes "X-Id")) (bytes "7"));
      }
      ∷ [];
  overwrite_existing = false;
}

add_headers-keeps_example :
    get (add_headers config request).header (bytes "ACCEPT") ≡ get request.header (bytes "ACCEPT")
unfolding program
add_headers-keeps_example = add_headers-keeps config request (bytes "ACCEPT") refl refl

adds_headers :
    (get (add_headers config request).header (bytes "X-Again") ≡ bytes "1")
    × (get
          (add_headers (record config { overwrite_existing = true }) request).header
          (bytes "Accept")
        ≡ bytes "*/*")
unfolding program
adds_headers = (refl, refl)
