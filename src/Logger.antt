-- ===== src/Logger.antt =====
-- middleware/logger/logger.go: the configuration of the logger middleware and what it redacts. A log
-- level is a number from 0; text is folded to lower case as far as ASCII goes.
pub mod Handle
pub mod Standard
pub mod Redaction
mod Tests
use httpio.Base.{
  ℕ, ◌+◌, ◌*◌, Bool, true, false, ◌||◌, ◌&&◌, List, [], ◌∷◌, ◌++◌, map, Option, none, some, Bytes,
  bytes, any, eq, is_empty, has_prefix, trim_space, length, take, leb, ltb, ◌==◌, if◌then◌else◌,
}
use httpio.Http.{Header, Context}

-- `LevelNone` to `LevelTrace`
abbrev pub level_none : ℕ
level_none = 0

abbrev pub level_error : ℕ
level_error = 1

abbrev pub level_info : ℕ
level_info = 2

abbrev pub level_debug : ℕ
level_debug = 3

abbrev pub level_trace : ℕ
level_trace = 4

pub data OutputFormat : Type 0 where
  format_text : OutputFormat
  format_json : OutputFormat

-- The values of the map `fields`.
pub data Field : Type 0 where
  text : Bytes → Field
  number : ℕ → Field
  header : Header → Field

abbrev pub Fields : Type 0
Fields = List (Bytes × Field)

-- `type Logger interface`
abbrev pub Logger : Type 0 → Type 0
Logger W = Context → ℕ → Bytes → Fields → W → W

-- The sample rate is the fraction of two numbers, without the rounding of float64. A nil logger or
-- generator is `none`.
pub record Config (W : Type 0) : Type 0 where
  pub logger : Option (Logger W)
  pub level : ℕ
  pub format : OutputFormat
  pub request_id_generator : Option (W → Bytes × W)
  pub request_id_header : Bytes
  pub sensitive_headers : List Bytes
  pub skip_paths : List Bytes
  pub sensitive_fields : List Bytes
  pub enable_sampling : Bool
  pub sample_rate : ℕ × ℕ
  pub propagate_request_id : Bool

-- The defaults; the standard logger and `uuid.NewString` are passed in.
unfoldable pub default_config : {W : Type 0} → Logger W → (W → Bytes × W) → Config W
default_config standard new_string = record {
  logger = some standard;
  level = level_info;
  format = format_text;
  request_id_generator = some new_string;
  request_id_header = bytes "X-Request-ID";
  sensitive_headers =
      bytes "Authorization" ∷ bytes "Cookie" ∷ bytes "X-Api-Key" ∷ bytes "Proxy-Authorization" ∷ [];
  skip_paths = bytes "/healthz" ∷ bytes "/ready" ∷ bytes "/metrics" ∷ [];
  sensitive_fields =
      bytes "password"
      ∷ bytes "token"
      ∷ bytes "secret"
      ∷ bytes "key"
      ∷ bytes "credential"
      ∷ bytes "auth"
      ∷ [];
  enable_sampling = false;
  sample_rate = (1, 1);
  propagate_request_id = true;
}

abbrev or_else {ℓ} : {A : Type ℓ} → Option A → Option A → Option A
or_else none b = b
or_else (some a) b = some a

abbrev given : {A : Type 0} → List A → List A → List A
given [] b = b
given (x ∷ xs) b = x ∷ xs

abbrev given_format : OutputFormat → OutputFormat → OutputFormat
given_format format_text b = b
given_format format_json b = format_json

-- The fields of a given configuration that are not their zero value replace the defaults.
unfoldable pub merge : {W : Type 0} → Config W → Config W → Config W
merge config cfg = record {
  logger = or_else config.logger cfg.logger;
  level = if config.level == 0 then cfg.level else config.level;
  format = given_format config.format cfg.format;
  request_id_generator = or_else config.request_id_generator cfg.request_id_generator;
  request_id_header =
      if is_empty config.request_id_header then cfg.request_id_header else config.request_id_header;
  sensitive_headers = given config.sensitive_headers cfg.sensitive_headers;
  skip_paths = given config.skip_paths cfg.skip_paths;
  sensitive_fields = given config.sensitive_fields cfg.sensitive_fields;
  enable_sampling = if config.enable_sampling then true else cfg.enable_sampling;
  sample_rate = if config.enable_sampling then config.sample_rate else cfg.sample_rate;
  propagate_request_id = config.propagate_request_id;
}

module _ {W : Type 0} (standard : Logger W) (new_string : W → Bytes × W) where
  -- `New(config)`
  unfoldable pub new : Option (Config W) → Config W
  new none = default_config standard new_string
  new (some config) = merge config (default_config standard new_string)

  -- `Config{}`
  abbrev pub no_config : Config W
  no_config = record {
    logger = none;
    level = 0;
    format = format_text;
    request_id_generator = none;
    request_id_header = [];
    sensitive_headers = [];
    skip_paths = [];
    sensitive_fields = [];
    enable_sampling = false;
    sample_rate = (0, 1);
    propagate_request_id = false;
  }

  -- `WithLevel(level)`
  unfoldable pub with_level : ℕ → Config W
  with_level level = new (some (record no_config { level = level }))

  -- `WithJSON()`
  unfoldable pub with_json : Config W
  with_json = new (some (record no_config { format = format_json }))

-- `MaxBodyLogSize`
abbrev pub max_body_log_size : ℕ
max_body_log_size = 10 * 1024

unfoldable pub truncate_body : Bytes → Bytes
truncate_body body =
    if leb (length body) max_body_log_size
    then body
    else take max_body_log_size body ++ bytes "... (truncated)"

abbrev lower : ℕ → ℕ
lower c = if leb 65 c && leb c 90 then c + 32 else c

-- `strings.EqualFold(s, t)`
unfoldable pub equal_fold : Bytes → Bytes → Bool
equal_fold s t = eq (map lower s) (map lower t)

abbrev pub redacted : Bytes
redacted = bytes "[REDACTED]"

abbrev pub is_sensitive_header : List Bytes → Bytes → Bool
is_sensitive_header sensitive name = any (λ s. equal_fold name s) sensitive

-- `redactHeaders(headers)`
unfoldable pub redact_headers : List Bytes → Header → Header
redact_headers sensitive [] = []
redact_headers sensitive ((name, vals) ∷ h) =
    (name, if is_sensitive_header sensitive name then redacted ∷ [] else vals)
    ∷ redact_headers sensitive h

-- Values of encoding/json; `other` is a number, a Boolean or null.
mutual
  pub data Json : Type 0 where
    str : Bytes → Json
    other : ℕ → Json
    arr : Items → Json
    obj : Members → Json

  pub data Items : Type 0 where
    nil : Items
    cons : Json → Items → Items

  pub data Members : Type 0 where
    end : Members
    member : Bytes → Json → Members → Members

-- `is_sensitive k` says whether one of the patterns `(?i)field` is found in the key.
unfoldable mutual
  pub redact : (Bytes → Bool) → Json → Json
  redact is_sensitive (str s) = str s
  redact is_sensitive (other n) = other n
  redact is_sensitive (arr xs) = arr (redact_items is_sensitive xs)
  redact is_sensitive (obj ms) = obj (redact_members is_sensitive ms)

  pub redact_items : (Bytes → Bool) → Items → Items
  redact_items is_sensitive nil = nil
  redact_items is_sensitive (cons x xs) =
      cons (redact is_sensitive x) (redact_items is_sensitive xs)

  pub redact_members : (Bytes → Bool) → Members → Members
  redact_members is_sensitive end = end
  redact_members is_sensitive (member k v ms) =
      member k (if is_sensitive k then str redacted else redact is_sensitive v)
        (redact_members is_sensitive ms)

-- Packages encoding/json and regexp: `found pattern k` is whether the pattern `(?i)pattern` is found
-- in k. The patterns are ones that compile; regexp.MustCompile panics for others, which is not modelled.
pub record Parsers : Type 0 where
  pub unmarshal : Bytes → Option Json
  pub marshal : Json → Option Bytes
  pub found : Bytes → Bytes → Bool

abbrev pub is_sensitive_field : Parsers → List Bytes → Bytes → Bool
is_sensitive_field parsers sensitive k = any (λ field. parsers.found field k) sensitive

-- `redactJSONFields(body)`
unfoldable pub redact_json_fields : Parsers → List Bytes → Bytes → Bytes
unfolding redact
redact_json_fields parsers sensitive body =
    if is_empty body
    then body
    else if has_prefix (trim_space body) (bytes "{") || has_prefix (trim_space body) (bytes "[")
    then elim (parsers.unmarshal body) [
      | none ↦ body
      | some j ↦ elim (parsers.marshal (redact (is_sensitive_field parsers sensitive) j)) [
        | none ↦ body
        | some b ↦ b
      ]
    ]
    else body

-- `shouldSkipLogging(path)`
unfoldable pub should_skip_logging : List Bytes → Bytes → Bool
should_skip_logging paths path = any (λ p. has_prefix path p) paths
