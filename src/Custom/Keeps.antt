-- ===== src/Custom/Keeps.antt =====
-- middleware/headers/header.go: without OverwriteExisting no header of the request is lost.
use httpio.Base.{
  ◌≡◌, refl, sym, ap, ◌∙◌, ◌≢◌, inl, inr, true, false, List, [], ◌∷◌, Bytes, is_empty, Bool-cases,
}
use httpio.Http.{Request, Header}
use httpio.Http.Headers.{canonical, get, get-set_ne}
use httpio.Custom.{
  Config, ConditionalHeader, holds, set_header, set_headers, set_conditional, add_headers,
}

get-canonical : (h : Header) (j k : Bytes) → canonical j ≡ canonical k → get h j ≡ get h k
unfolding get
get-canonical h j k e = rw e

true≢false : true ≢ false
true≢false e = cc

-- A header that has a value keeps it.
set_header-keeps :
    (name value : Bytes) (req : Request) (key : Bytes)
    → is_empty (get req.header key) ≡ false
    → get (set_header false name value req).header key ≡ get req.header key
unfolding set_header
set_header-keeps name value req key h = elim (Bool-cases (is_empty (get req.header name))) [
  | inr full ↦ rw (full, set_header)
  | inl free ↦
      rw (free, set_header)
        (get-set_ne req.header name key value
          (λ e. true≢false (sym free ∙ ap is_empty (get-canonical req.header name key e) ∙ h)))
]

set_headers-keeps :
    (hs : List (Bytes × Bytes)) (req : Request) (key : Bytes)
    → is_empty (get req.header key) ≡ false
    → get (set_headers false hs req).header key ≡ get req.header key
unfolding set_headers
set_headers-keeps [] req key h = refl
set_headers-keeps ((name, value) ∷ hs) req key h =
    let kept = set_header-keeps name value req key h in
    set_headers-keeps hs (set_header false name value req) key (ap is_empty kept ∙ h) ∙ kept

set_conditional-keeps :
    (cs : List ConditionalHeader) (req : Request) (key : Bytes)
    → is_empty (get req.header key) ≡ false
    → get (set_conditional false cs req).header key ≡ get req.header key
unfolding set_conditional
set_conditional-keeps [] req key h = refl
set_conditional-keeps (c ∷ cs) req key h = elim (Bool-cases (holds c.condition req)) [
  | inr unmet ↦ rw (unmet, set_conditional) (set_conditional-keeps cs req key h)
  | inl met ↦
      let kept = set_header-keeps c.name c.value req key h in
      rw (met, set_conditional)
        (set_conditional-keeps cs (set_header false c.name c.value req) key (ap is_empty kept ∙ h)
          ∙ kept)
]

-- Without `OverwriteExisting` a header for which `Get` gives a value when the request comes in has
-- the same value when it goes on, whatever the configured headers and conditions.
pub add_headers-keeps :
    (config : Config) (req : Request) (key : Bytes)
    → config.overwrite_existing ≡ false
    → is_empty (get req.header key) ≡ false
    → get (add_headers config req).header key ≡ get req.header key
unfolding add_headers
add_headers-keeps config req key off h =
    let kept = set_headers-keeps config.headers req key h in
    rw (off) (
      set_conditional-keeps config.conditional_headers (set_headers false config.headers req) key
        (ap is_empty kept ∙ h)
      ∙ kept)
