-- ===== src/Logger/Tests.antt =====
-- The logger at concrete requests.
use httpio.Base.{
  ℕ, ◌≡◌, ◌⊎◌, ◌-◌, ◌^◌, any, refl, true, false, List, [], ◌∷◌, ◌++◌, none, some, Bytes, bytes, eq,
  has_prefix, trim_space, pos, if◌then◌else◌, All,
}
use httpio.Http.{Request, Response, Context, Handler}
use httpio.Http.Headers.{get, set, put, values, canonical}
use httpio.Logger.{
  Config, format_text, format_json, Fields, Json, str, obj, end, member, arr, nil, cons, Parsers,
  redacted, redact, redact_json_fields, redact_headers, truncate_body, equal_fold,
  should_skip_logging, default_config, merge, new, with_level, with_json,
}
use httpio.Logger.Handle.{
  Platform, with_context, is_left_out, sample, identify, duplicate_request, take_body,
  request_fields, log_request, duplicate_body, log_body, response_fields, completed, level_of,
  log_response, handle_logged, handle, log,
}
use httpio.Logger.Handle.Clean.{IsClean, Keeps, handle-keeps}
use httpio.Logger.Handle.Passes.{
  IsPassedOn, IsReadable, Reads, handle-IsPassedOn, response_fields-Reads,
}
use httpio.Logger.Redaction.{key, index, at, IsEncoded, redact_json_fields-redacts}
use httpio.Logger.Standard
use httpio.Logger.Standard.{
  StandardLogger, Output, get_request_id, assign_field, assign_fields, level_string, json_entry,
  text_entry, text_fields,
}

program : Unit {0}
unfolding redact redact_json_fields redact_headers truncate_body equal_fold should_skip_logging
    default_config merge new with_level with_json with_context is_left_out sample identify
    duplicate_request take_body request_fields log_request duplicate_body log_body response_fields
    completed level_of log_response handle_logged handle get set put values canonical eq has_prefix
    trim_space at Standard.log get_request_id assign_field assign_fields level_string json_entry
    text_entry text_fields
program = tt

-- The one reader's bytes, and the entries, the last first.
abbrev World : Type 0
World = Bytes × List Fields

abbrev platform : Platform World
platform = record {
  read_request = λ b w. (true, w);
  read_all = λ b w. (some w.0, w);
  close = λ b w. w;
  new_body = λ s w. (0, (s, w.1));
  now = λ w. (0, w);
  random_id = λ w. (7, w);
  show_error = λ e. bytes "error";
  show_number = λ n. bytes "#";
}

-- {"user":{"Password":"x"},"n":["y"]}
abbrev login : Json
login = obj (
    member (bytes "user") (obj (member (bytes "password") (str (bytes "x")) end))
      (member (bytes "n") (arr (cons (str (bytes "y")) nil)) end))

abbrev login_redacted : Json
login_redacted = obj (
    member (bytes "user") (obj (member (bytes "password") (str redacted) end))
      (member (bytes "n") (arr (cons (str (bytes "y")) nil)) end))

-- A parser that knows two texts; a pattern is found in itself.
abbrev parsers : Parsers
unfolding eq
parsers = record {
  unmarshal = λ s. if eq s (bytes "{login") then some login else some login_redacted;
  marshal = λ j. some (bytes "{}");
  found = λ pattern k. eq pattern k;
}

abbrev standard : Context → ℕ → Bytes → Fields → World → World
standard ctx level msg fields (s, log) = (s, fields ∷ log)

abbrev config : Config World
config = record (default_config standard (λ w. (bytes "id", w))) { level = 4 }

abbrev request : Request
request = record {
  method = bytes "GET";
  url = bytes "http://h/a";
  host = bytes "h";
  path = bytes "/a";
  header = (bytes "Cookie", bytes "c" ∷ []) ∷ [];
  body = none;
  get_body = none;
  content_length = pos 0;
}

abbrev page : Response
page = record { status_code = 404; header = []; body = some 3 }

abbrev next : Handler World
next ctx req w = record { response = some page; error = none; request = req; world = w }

test_answer :
    (handle platform parsers config next [] request (bytes "b", [])).response
    ≡ some (record page { body = some 0 })
unfolding program
test_answer = refl

encoded :
    IsEncoded parsers (redact (λ k. any (λ f. parsers.found f k) (bytes "password" ∷ [])) login)
unfolding program
encoded = (bytes "{}", refl, refl)

redact_json_fields-redacts_example :
    (j' : Json) × (parsers.unmarshal
        (redact_json_fields parsers (bytes "password" ∷ []) (bytes "{login"))
      ≡ some j')
    × ((at (key (bytes "user") ∷ key (bytes "password") ∷ []) j' ≡ none)
        ⊎ (at (key (bytes "user") ∷ key (bytes "password") ∷ []) j' ≡ some (str redacted)))
    × (at (key (bytes "n") ∷ index 0 ∷ []) j' ≡ some (str (bytes "y")))
unfolding program
redact_json_fields-redacts_example =
    redact_json_fields-redacts parsers (bytes "password" ∷ []) (bytes "{login") login encoded refl
      refl refl (key (bytes "user") ∷ []) (bytes "password") (key (bytes "n") ∷ index 0 ∷ []) refl
      (refl, (tt, tt))

-- Every entry so far is clean.
abbrev AllClean : World → Type 0
AllClean w = All (IsClean config.sensitive_headers) w.1

all_clean : Keeps platform parsers config AllClean next
unfolding program
all_clean = record {
  on_log = λ ctx level msg fields w clean small q. (clean, q);
  on_generate = λ w q. q;
  on_read_request = λ b w q. q;
  on_read_all = λ b w q. q;
  on_close = λ b w q. q;
  on_new_body = λ s w q. q;
  on_now = λ w q. q;
  on_random_id = λ w q. q;
  on_next = λ ctx req w q. q;
}

handle-keeps_example :
    AllClean (handle platform parsers config next [] request (bytes "b", [])).world
handle-keeps_example =
    handle-keeps platform parsers config AllClean next all_clean [] request (bytes "b", []) tt

handle-IsPassedOn_example :
    IsPassedOn platform parsers config next [] request
      (handle platform parsers config next [] request (bytes "b", []))
handle-IsPassedOn_example =
    handle-IsPassedOn platform parsers config next [] request (bytes "b", [])

readable : IsReadable platform parsers config
readable = record { reads_new = λ s w. refl }

response_fields-Reads_example :
    Reads platform parsers config
      (bytes "b")
      (response_fields platform parsers config page (bytes "b", [])).1
      (response_fields platform parsers config page (bytes "b", [])).2
response_fields-Reads_example =
    response_fields-Reads platform parsers config page (bytes "b", []) 3 (bytes "b") readable refl
      refl

-- `WithLevel(LevelNone)` logs at the level of information; `WithJSON` leaves the standard logger; both
-- turn the header of the identifier off.
defaults :
    ((with_level standard (λ w. (bytes "id", w)) 0).level ≡ 2)
    × ((with_json standard (λ w. (bytes "id", w))).logger ≡ some standard)
    × ((with_json standard (λ w. (bytes "id", w))).propagate_request_id ≡ false)
    × ((new standard (λ w. (bytes "id", w)) none).propagate_request_id ≡ true)
unfolding program
defaults = (refl, refl, refl, refl)

-- With a rate of 1/100 no number of 32 bits is left out.
rates : is_left_out platform parsers (record config { sample_rate = (1, 100) }) (2 ^ 32 - 1) ≡ false
unfolding program
rates = refl

-- A reader that fails leaves the response without a body.
failing :
    (response_fields
      (record platform { read_all = λ b w. (none, w) })
      parsers
      config
      page
      ([], [])).1.body
    ≡ none
unfolding program
failing = refl

abbrev output : Output Bytes
output = record {
  now_text = λ w. (bytes "T", w);
  show_number = λ n. bytes "9";
  show_fields = λ f. bytes "map";
  marshal = λ f. some (bytes "{}");
  print = λ s w. w ++ s;
}

lines :
    (Standard.log output (record { level = 2; format = format_text }) [] 1 (bytes "m") [] []
      ≡ bytes "[T] [ERROR] [unknown] m" ++ 10 ∷ [])
    × (Standard.log output (record { level = 2; format = format_json }) [] 3 (bytes "m") [] [] ≡ [])
    × (Standard.log output (record { level = 3; format = format_json }) [] 3 (bytes "m") [] []
        ≡ bytes "{}" ++ 10 ∷ [])
unfolding program
lines = (refl, refl, refl)

-- A request whose body cannot be read goes on without it.
lost :
    (handle
      (record platform { read_request = λ b w. (false, w) })
      parsers
      config
      next
      []
      (record request { body = some (bytes "b") })
      (bytes "b", [])).request.body
    ≡ none
unfolding program
lost = refl
