-- ===== src/Cache/Policy.antt =====
-- middleware/cache/cache.go: which requests and responses are cached, and for how long.
use httpio.Base.{
  ℕ, ℤ, Bool, true, false, ◌||◌, List, [], ◌∷◌, ◌++◌, map, Option, none, some, Bytes, bytes, any,
  eq, is_empty, contains, split, trim_space, strip_prefix, ltb, ◌==◌, if◌then◌else◌, time_add,
}
use httpio.Http.{Request, Response}
use httpio.Http.Headers.{get}
use httpio.Cache.{CachedResponse}
use httpio.Cache.Config.{Config}

-- What the middleware uses of time, io and crypto/md5. A body is a number that V knows; `new_body`
-- makes one that gives the bytes.
pub record Platform (V : Type 0) : Type 0 where
  pub now : V → ℕ × V
  pub parse_duration : Bytes → Option ℤ
  pub parse_time : Bytes → Option ℕ
  pub read_all : Option ℕ → V → Option Bytes × V
  pub close : Option ℕ → V → V
  pub new_body : Bytes → V → ℕ × V
  pub hash : Bytes → Bytes

-- `CacheableStatus[code]`
unfoldable pub is_cacheable_status : ℕ → Bool
is_cacheable_status code = any (λ c. c == code) (200 ∷ 203 ∷ 204 ∷ 206 ∷ 300 ∷ 301 ∷ 404 ∷ 410 ∷ [])

unfoldable pub is_cacheable_method : Bytes → Bool
is_cacheable_method method = eq method (bytes "GET") || eq method (bytes "HEAD")

abbrev pub has_any : Bytes → List Bytes → Bool
has_any url patterns = any (λ p. contains url p) patterns

unfoldable pub should_cache : Config → Request → Bool
should_cache config req =
    if has_any req.url config.exclude_patterns
    then false
    else if any (λ h. eq req.host h) config.exclude_hosts
    then false
    else elim config.include_patterns [ [] ↦ true | p ∷ ps ↦ has_any req.url (p ∷ ps) ]

-- The directives of a Cache-Control header that is not empty.
unfoldable pub directives : Bytes → List Bytes
directives cache_control = let parts = split 44 cache_control in map trim_space (parts.0 ∷ parts.1)

abbrev pub has_directive : (Bytes → Bool) → Bytes → Bool
has_directive p cache_control =
    if is_empty cache_control then false else any p (directives cache_control)

-- The request asks for a response that is not cached.
unfoldable pub asks_no_cache : Config → Request → Bool
asks_no_cache config req =
    if config.respect_cache_control
    then if has_directive (λ d. eq d (bytes "no-cache")) (get req.header (bytes "Cache-Control"))
      then true
      else eq (get req.header (bytes "Pragma")) (bytes "no-cache")
    else false

abbrev forbids : Bytes → Bool
forbids d = eq d (bytes "no-store") || eq d (bytes "no-cache") || eq d (bytes "private")

unfoldable pub is_cacheable : Config → Response → Bool
unfolding is_cacheable_status
is_cacheable config resp =
    if is_cacheable_status resp.status_code
    then if config.respect_cache_control
      then if has_directive forbids (get resp.header (bytes "Cache-Control")) then false else true
      else true
    else false

module _ {V : Type 0} (platform : Platform V) where
  -- `isFresh(cachedResp, req)`, which sets the time of access through the pointer.
  unfoldable pub is_fresh : Config → CachedResponse → Request → V → Bool × CachedResponse × V
  is_fresh config cached req v =
      let read = platform.now v in
      if ltb cached.expires_at read.0
      then (false, cached, read.1)
      else if asks_no_cache config req
      then (false, cached, read.1)
      else let again = platform.now read.1 in
        (true, record cached { last_accessed = again.0 }, again.1)

  -- The first `max-age` whose number of seconds can be read.
  unfoldable pub max_age : List Bytes → Option ℤ
  max_age [] = none
  max_age (d ∷ ds) = elim (strip_prefix d (bytes "max-age=")) [
    | none ↦ max_age ds
    | some seconds ↦ elim (platform.parse_duration (seconds ++ bytes "s")) [
      | none ↦ max_age ds
      | some n ↦ some n
    ]
  ]

  abbrev pub expires_header : Response → Option ℕ
  expires_header resp =
      let expires = get resp.header (bytes "Expires") in
      if is_empty expires then none else platform.parse_time expires

  abbrev pub age_header : Response → Option ℤ
  age_header resp =
      let cache_control = get resp.header (bytes "Cache-Control") in
      if is_empty cache_control then none else max_age (directives cache_control)

  unfoldable pub calculate_expiration : Response → ℤ → V → ℕ × V
  calculate_expiration resp default_ttl v =
      let read = platform.now v in
      elim (age_header resp) [
        | some age ↦ (time_add read.0 age, read.1)
        | none ↦ elim (expires_header resp) [
          | some t ↦ (t, v)
          | none ↦ (time_add read.0 default_ttl, read.1)
        ]
      ]
