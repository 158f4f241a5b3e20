-- ===== src/Cache/Tests.antt =====
-- The cache middleware over the in-memory cache, at concrete requests.
use httpio.Base.{
  ℕ, ◌≡◌, ◌≢◌, refl, ap, arith, ◌+◌, pos, true, [], ◌∷◌, none, some, bytes, eq, contains, split,
  trim_space, has_prefix, strip_prefix, length,
}
use httpio.Http.{Header, Request, Response, Handler, Answer, foreign}
use httpio.Http.Headers.{get, set, put, values, canonical}
use httpio.Cache.{CachedResponse}
use httpio.Cache.Config.{
  key_by_full_request, default_config, with_enabled, with_default_ttl, with_respect_cache_control,
  with_include_patterns, with_exclude_patterns, with_exclude_hosts, with_key_strategy,
  with_domain_ttl, with_path_ttl, with_cleanup_interval, put_rule,
}
use httpio.Cache.Keys.{
  method_url_key, generate_key, full_request_text, sort_keys, insert_key, write_headers, text_leb,
}
use httpio.Cache.Keys.Order.{sent_with, generate_key-perm}
use mathlib.Core.List.Permᴰ
use httpio.Cache.Policy.{
  Platform, is_cacheable_status, is_cacheable_method, should_cache, directives, asks_no_cache,
  is_cacheable, is_fresh, max_age, calculate_expiration,
}
use httpio.Cache.Memory.{
  MemoryCache, new_memory_cache, assign, write, member, remove, move_to_front, back, unlink,
  bring_front, use_element, evict_oldest, push_front, delete,
}
use httpio.Cache.Memory
use httpio.Cache.Memory.Invariant.{IsValid}
use httpio.Cache.Memory.Operations.{new_memory_cache-IsValid}
use httpio.Cache.Serve.{
  World, key_of, look_up, serve, make_entry, keep, settle, after_next, is_considered, handle_cached,
  handle, run_pending,
}
use httpio.Cache.Serve.Hits.{IsLawful, IsServed, handle-IsServed}
use httpio.Cache.Serve.Misses.{Follows, handle-Follows}
use httpio.Cache.Serve.Again.{IsFirst, handle-handle}
use httpio.Cache.Serve.InMemory
use httpio.Cache.Serve.InMemory.{memory_store, write_back, memory_store-IsLawful}

program : Unit {0}
unfolding eq contains split trim_space has_prefix strip_prefix get set put values canonical
    default_config with_enabled with_default_ttl with_respect_cache_control with_include_patterns
    with_exclude_patterns with_exclude_hosts with_key_strategy with_domain_ttl with_path_ttl
    with_cleanup_interval put_rule method_url_key generate_key full_request_text sort_keys
    insert_key write_headers text_leb is_cacheable_status is_cacheable_method should_cache
    directives asks_no_cache is_cacheable is_fresh max_age calculate_expiration new_memory_cache
    assign write member remove move_to_front back unlink bring_front use_element evict_oldest
    push_front delete Memory.get Memory.set look_up serve make_entry keep settle after_next
    is_considered handle_cached handle run_pending InMemory.get write_back
program = tt

-- V is the clock; every body gives the same bytes, and a body is a number that tells their count.
abbrev platform : Platform ℕ
platform = record {
  now = λ v. (v, v + 1);
  parse_duration = λ s. some (pos 60);
  parse_time = λ s. none;
  read_all = λ b v. (some (bytes "hi"), v + 1);
  close = λ b v. v;
  new_body = λ b v. (length b, v);
  hash = λ s. s;
}

abbrev request : Request
request = record {
  method = bytes "GET";
  url = bytes "http://h/a";
  host = bytes "h";
  path = bytes "/a";
  header = [];
  body = none;
  get_body = none;
  content_length = pos 0;
}

-- The same request of another user.
abbrev other : Request
other = record request { header = (bytes "Authorization", bytes "other" ∷ []) ∷ [] }

abbrev answer : Response
answer = record {
  status_code = 200;
  header = (bytes "Cache-Control", bytes "public, max-age=60" ∷ []) ∷ [];
  body = some 7;
}

abbrev next : Handler (World MemoryCache ℕ)
next ctx req w = record { response = some answer; error = none; request = req; world = w }

abbrev down : Handler (World MemoryCache ℕ)
down ctx req w = record { response = none; error = some (foreign 1); request = req; world = w }

abbrev old : CachedResponse
old = record {
  response = record { status_code = 0; header = []; body = none };
  body = [];
  request_url = [];
  last_accessed = 0;
  created_at = 0;
  expires_at = 0;
}

abbrev empty : World MemoryCache ℕ
empty = record {
  store = new_memory_cache (λ i. record { key = []; response = old }) (pos 2);
  pending = [];
  rest = 5;
}

abbrev run :
    Handler (World MemoryCache ℕ) → Request → World MemoryCache ℕ → Answer (World MemoryCache ℕ)
run n req w = handle (memory_store platform) platform default_config n [] req w

abbrev stored : World MemoryCache ℕ
stored = run_pending (memory_store platform) platform default_config (run next request empty).world

-- Another user's request is answered from the cache, with the network down.
served : (run down other stored).response ≡ some (record answer { body = some 2 })
unfolding program
served = refl

expired : (run down other (record stored { rest = 200 })).error ≡ some (foreign 1)
unfolding program
expired = refl

considered : is_considered (memory_store platform) platform default_config request ≡ true
unfolding program
considered = refl

missed : (look_up (memory_store platform) platform default_config request empty).0 ≡ none
unfolding program
missed = refl

handle-Follows_example :
    Follows
      (memory_store platform)
      platform
      default_config
      (next [] request (look_up (memory_store platform) platform default_config request empty).1)
      (handle (memory_store platform) platform default_config next [] request empty)
handle-Follows_example =
    handle-Follows (memory_store platform) platform default_config next [] request empty missed
      considered

good : is_cacheable default_config answer ≡ true
unfolding program
good = refl

first :
    IsFirst
      (memory_store platform)
      platform
      default_config
      next
      []
      request
      empty
      answer
      (bytes "hi")
unfolding program
first = record {
  considered = refl;
  miss = refl;
  fine = refl;
  given = refl;
  good = refl;
  read = refl;
  idle = refl;
}

-- Later, with the answer stored.
abbrev later : World MemoryCache ℕ
later =
    record (run_pending (memory_store platform) platform default_config
      (handle (memory_store platform) platform default_config next [] request empty).world) {
        rest = 40;
      }

handle-handle_example :
    (v : ℕ) × ((handle (memory_store platform) platform default_config down [] other later).response
      ≡ some (record answer { body = some (platform.new_body (bytes "hi") v).0 }))
    × ((handle (memory_store platform) platform default_config down [] other later).error ≡ none)
    × (handle (memory_store platform) platform default_config down [] other later
        ≡ handle (memory_store platform) platform default_config next [] other later)
unfolding program
handle-handle_example =
    handle-handle (memory_store platform) platform default_config (memory_store-IsLawful platform)
      next [] request empty answer (bytes "hi") first
      (new_memory_cache-IsValid (λ i. record { key = []; response = old }) (pos 2)) [] other later
      down next refl refl refl refl refl refl

abbrev kept : CachedResponse
kept = record old { response = record answer { body = none }; body = bytes "hi"; expires_at = 66 }

abbrev filled : World MemoryCache ℕ
filled = record empty { store = Memory.set empty.store (bytes "GET:http://h/a") kept }

key : key_of (memory_store platform) platform default_config other ≡ bytes "GET:http://h/a"
unfolding program
key = refl

handle-IsServed_example :
    IsServed
      (memory_store platform)
      platform
      default_config
      kept
      (handle (memory_store platform) platform default_config down [] other filled)
unfolding program
handle-IsServed_example =
    handle-IsServed (memory_store platform) platform default_config (memory_store-IsLawful platform)
      down [] other filled kept empty.store
      (new_memory_cache-IsValid (λ i. record { key = []; response = old }) (pos 2)) refl refl refl
      refl refl

memory_store-IsLawful_example : IsLawful (memory_store platform) platform IsValid
memory_store-IsLawful_example = memory_store-IsLawful platform

-- Two headers in either order.
abbrev accept_first : Header
accept_first = (bytes "Accept", bytes "a" ∷ []) ∷ (bytes "Cookie", bytes "c" ∷ []) ∷ []

abbrev cookie_first : Header
cookie_first = (bytes "Cookie", bytes "c" ∷ []) ∷ (bytes "Accept", bytes "a" ∷ []) ∷ []

apart : bytes "Accept" ≢ bytes "Cookie"
apart e = let h : ◌≡◌ {A = ℕ} 65 67 = ap (λ s. elim s [ [] ↦ 0 | c ∷ t ↦ c ]) e in omega (arith, h)

generate_key-perm_example :
    generate_key (λ s. s) key_by_full_request (sent_with request accept_first)
    ≡ generate_key (λ s. s) key_by_full_request (sent_with request cookie_first)
generate_key-perm_example =
    generate_key-perm (λ s. s) key_by_full_request request accept_first cookie_first
      ((apart, tt), (tt, tt)) ∣ Permᴰ.swap refl refl ∣₁

full_key :
    generate_key (λ s. s) key_by_full_request (sent_with request cookie_first)
    ≡ bytes "GEThttp://h/aAcceptaCookiec"
unfolding program
full_key = refl

-- The rules for domains and paths are written and read by nothing.
configured :
    (with_domain_ttl
      (bytes "h")
      (pos 1)
      (with_path_ttl (bytes "/") (pos 2) default_config)).domain_ttl_rules
    ≡ (bytes "h", pos 1) ∷ []
unfolding program
configured = refl
