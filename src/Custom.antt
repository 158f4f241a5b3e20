-- ===== src/Custom.antt =====
-- middleware/headers/header.go: the middleware that adds headers to every request.
pub mod Keeps
mod Tests
use httpio.Base.{
  Bool, true, false, ◌||◌, List, [], ◌∷◌, Option, none, some, Bytes, is_empty, if◌then◌else◌,
}
use httpio.Http.{Request, Handler}
use httpio.Http.Headers.{get, set}

pub record ConditionalHeader : Type 0 where
  pub name : Bytes
  pub value : Bytes
  pub condition : Option (Request → Bool)

-- The map `Headers` is a list in the order in which the loop meets its keys; a nil map or slice
-- is empty.
pub record Config : Type 0 where
  pub headers : List (Bytes × Bytes)
  pub conditional_headers : List ConditionalHeader
  pub overwrite_existing : Bool

-- `New(config)`
unfoldable pub fill_in : Option Config → Config
fill_in none = record { headers = []; conditional_headers = []; overwrite_existing = false }
fill_in (some c) = c

-- `NewSimple(headers)`
unfoldable pub new_simple : List (Bytes × Bytes) → Config
unfolding fill_in
new_simple headers =
    fill_in
      (some (record { headers = headers; conditional_headers = []; overwrite_existing = false }))

-- One header, unless the request has it and may keep it.
unfoldable pub set_header : Bool → Bytes → Bytes → Request → Request
set_header overwrite name value req =
    if overwrite || is_empty (get req.header name)
    then record req { header = set req.header name value }
    else req

-- The loop over `Headers`.
unfoldable pub set_headers : Bool → List (Bytes × Bytes) → Request → Request
set_headers overwrite [] req = req
set_headers overwrite ((name, value) ∷ hs) req =
    set_headers overwrite hs (set_header overwrite name value req)

abbrev pub holds : Option (Request → Bool) → Request → Bool
holds none req = false
holds (some condition) req = condition req

-- The loop over `ConditionalHeaders`: a condition sees the headers set before it.
unfoldable pub set_conditional : Bool → List ConditionalHeader → Request → Request
set_conditional overwrite [] req = req
set_conditional overwrite (c ∷ cs) req =
    let req' = if holds c.condition req then set_header overwrite c.name c.value req else req in
    set_conditional overwrite cs req'

unfoldable pub add_headers : Config → Request → Request
add_headers config req =
    set_conditional config.overwrite_existing config.conditional_headers
      (set_headers config.overwrite_existing config.headers req)

-- `Handle(next)`
unfoldable pub handle : {W : Type 0} → Config → Handler W → Handler W
handle config next ctx req = next ctx (add_headers config req)
