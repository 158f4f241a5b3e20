-- ===== src/Logger/Standard.antt =====
-- middleware/logger/logger.go: the logger that writes to the standard output.
use httpio.Base.{ℕ, [], ◌∷◌, ◌++◌, Option, none, some, Bytes, bytes, eq, ltb, ◌==◌, if◌then◌else◌}
use httpio.Http.{Context}
use httpio.Logger.{
  Logger, Field, text, Fields, OutputFormat, format_text, format_json, level_none, level_error,
  level_info, level_debug, level_trace,
}

pub record StandardLogger : Type 0 where
  pub level : ℕ
  pub format : OutputFormat

-- Packages time, fmt, os and encoding/json: the time in RFC 3339, numbers, a map in Go's syntax and
-- in JSON, and what is written out.
pub record Output (W : Type 0) : Type 0 where
  pub now_text : W → Bytes × W
  pub show_number : ℕ → Bytes
  pub show_fields : Fields → Bytes
  pub marshal : Fields → Option Bytes
  pub print : Bytes → W → W

abbrev newline : Bytes
newline = 10 ∷ []

-- `GetRequestID(ctx)`
unfoldable pub get_request_id : Context → Option Bytes
get_request_id [] = none
get_request_id ((k, v) ∷ ctx) = if eq k (bytes "request_id") then some v else get_request_id ctx

-- `data[k] = v`
unfoldable pub assign_field : Bytes → Field → Fields → Fields
assign_field k v [] = (k, v) ∷ []
assign_field k v ((j, u) ∷ fields) =
    if eq j k then (j, v) ∷ fields else (j, u) ∷ assign_field k v fields

-- `for k, v := range fields { data[k] = v }`
unfoldable pub assign_fields : Fields → Fields → Fields
unfolding assign_field
assign_fields [] data_ = data_
assign_fields ((k, v) ∷ fields) data_ = assign_fields fields (assign_field k v data_)

module _ {W : Type 0} (output : Output W) where
  -- `level.String()`
  unfoldable pub level_string : ℕ → Bytes
  level_string l =
      if l == level_none
      then bytes "NONE"
      else if l == level_error
      then bytes "ERROR"
      else if l == level_info
      then bytes "INFO"
      else if l == level_debug
      then bytes "DEBUG"
      else if l == level_trace
      then bytes "TRACE"
      else bytes "UNKNOWN(" ++ (output.show_number l ++ bytes ")")

  abbrev with_request_id : Option Bytes → Fields → Fields
  unfolding assign_field
  with_request_id none data_ = data_
  with_request_id (some id) data_ = assign_field (bytes "request_id") (text id) data_

  -- What `json.Marshal` gives is printed even if it fails.
  abbrev marshalled : Option Bytes → Bytes
  marshalled none = []
  marshalled (some b) = b

  -- The entry in JSON.
  unfoldable pub json_entry : Bytes → Context → ℕ → Bytes → Fields → Fields
  unfolding assign_fields level_string get_request_id
  json_entry time ctx level msg fields = with_request_id (get_request_id ctx) (
      assign_fields fields (
        (bytes "timestamp", text time)
        ∷ (bytes "level", text (level_string level))
        ∷ (bytes "message", text msg)
        ∷ []))

  abbrev id_or_unknown : Option Bytes → Bytes
  id_or_unknown none = bytes "unknown"
  id_or_unknown (some id) = id

  abbrev bracketed : Bytes → Bytes
  bracketed s = b'[' ∷ (s ++ bytes "] ")

  -- The line's first part in text, and its rest.
  unfoldable pub text_entry : Bytes → Context → ℕ → Bytes → Bytes
  unfolding level_string get_request_id
  text_entry time ctx level msg =
      bracketed time
      ++ (bracketed (level_string level) ++ (bracketed (id_or_unknown (get_request_id ctx)) ++ msg))

  unfoldable pub text_fields : Fields → Bytes
  text_fields [] = newline
  text_fields (f ∷ fields) = bytes " | " ++ (output.show_fields (f ∷ fields) ++ newline)

  -- `Log(ctx, level, msg, fields)`
  unfoldable pub log : StandardLogger → Logger W
  unfolding json_entry text_entry text_fields
  log l ctx level msg fields w =
      if ltb l.level level
      then w
      else let (time, w1) = output.now_text w in
        elim l.format [
          | format_json ↦
              output.print
                (marshalled (output.marshal (json_entry time ctx level msg fields)) ++ newline) w1
          | format_text ↦
              output.print (text_fields fields) (output.print (text_entry time ctx level msg) w1)
        ]
