-- ===== src/Cache/Keys.antt =====
-- middleware/cache/cache.go: the keys under which responses are cached. A request's body is its
-- bytes, so the full key reads it and leaves it as it was. `hash` is MD5 in hexadecimal.
pub mod Collisions
pub mod Order
use httpio.Base.{
  ℕ, ◌*◌, ◌+◌, ℤ, pos, negsuc, Bool, true, false, ◌&&◌, List, [], ◌∷◌, ◌++◌, map, Option, none,
  some, Bytes, bytes, ltb, leb, ◌==◌, if◌then◌else◌,
}
use httpio.Http.{Request, Header}
use httpio.Cache.Config.{
  KeyStrategyType, key_by_url_and_method, key_by_url_only, key_by_full_request, unnamed,
}

-- `MethodURLKeyStrategy`
unfoldable pub method_url_key : Request → Bytes
method_url_key req = req.method ++ 58 ∷ req.url

-- `URLOnlyKeyStrategy`
abbrev pub url_only_key : Request → Bytes
url_only_key req = req.url

-- `a <= b` on strings: by bytes, and a prefix comes first.
unfoldable pub text_leb : Bytes → Bytes → Bool
text_leb [] t = true
text_leb (a ∷ s) [] = false
text_leb (a ∷ s) (b ∷ t) = if a == b then text_leb s t else ltb a b

-- The map's keys in the order of `sort.Strings`, each with its values.
unfoldable pub insert_key : Bytes × List Bytes → Header → Header
insert_key p [] = p ∷ []
insert_key p (q ∷ h) = if text_leb p.0 q.0 then p ∷ q ∷ h else q ∷ insert_key p h

unfoldable pub sort_keys : Header → Header
unfolding insert_key
sort_keys [] = []
sort_keys (p ∷ h) = insert_key p (sort_keys h)

abbrev joined : List Bytes → Bytes
joined [] = []
joined (s ∷ ss) = s ++ joined ss

-- What the loop over the sorted keys writes into the hash.
unfoldable pub write_headers : Header → Bytes
write_headers [] = []
write_headers ((key, vals) ∷ h) = key ++ (joined vals ++ write_headers h)

-- `req.ContentLength > 0 && req.ContentLength < 1024*1024`
abbrev pub is_hashed : ℤ → Bool
is_hashed (pos n) = ltb 0 n && ltb n (1024 * 1024)
is_hashed (negsuc n) = false

abbrev pub hashed_body : ℤ → Option Bytes → Bytes
hashed_body n none = []
hashed_body n (some b) = if is_hashed n then b else []

-- What `FullRequestKeyStrategy` writes into the hash.
unfoldable pub full_request_text : Request → Bytes
unfolding write_headers
full_request_text req =
    req.method
    ++ (req.url
        ++ (write_headers (sort_keys req.header) ++ hashed_body req.content_length req.body))

module _ (hash : Bytes → Bytes) where
  -- `GenerateKey` of the strategy that `NewMiddleware` picks.
  unfoldable pub generate_key : KeyStrategyType → Request → Bytes
  generate_key key_by_url_and_method req = method_url_key req
  generate_key key_by_full_request req = hash (full_request_text req)
  generate_key key_by_url_only req = url_only_key req
  generate_key (unnamed n) req = method_url_key req
