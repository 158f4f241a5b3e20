-- ===== src/Cache/Serve.antt =====
-- middleware/cache/cache.go: the cache middleware, over any store of responses.
pub mod Hits
pub mod Misses
pub mod InMemory
pub mod Again
use httpio.Base.{
  ℕ, ℤ, Bool, true, false, ◌&&◌, List, [], ◌∷◌, ◌++◌, Option, none, some, Bytes, if◌then◌else◌,
}
use httpio.Http.{Error, Request, Response, Context, Answer, Handler}
use httpio.Cache.{CachedResponse}
use httpio.Cache.Config.{Config, default_config}
use httpio.Cache.Keys.{generate_key}
use httpio.Cache.Policy.{
  Platform, is_cacheable_method, should_cache, is_fresh, is_cacheable, calculate_expiration,
}

-- `type Cache interface`, as far as the middleware calls it; it drops the errors. `write_back` is
-- what a change through the pointer that `Get` gave does to the store.
pub record Store (S V : Type 0) : Type 0 where
  pub get : Bytes → S → V → Option CachedResponse × S × V
  pub set : Bytes → CachedResponse → S → S
  pub delete : Bytes → S → S
  pub write_back : Bytes → CachedResponse → S → S

-- `pending` has the calls of `Set` whose goroutines have started and not run yet.
pub record World (S V : Type 0) : Type 0 where
  pub store : S
  pub pending : List (Bytes × CachedResponse)
  pub rest : V

-- `NewMiddleware(cache, config)`
abbrev pub or_default : Option Config → Config
or_default none = default_config
or_default (some c) = c

module _ {S V : Type 0} (store : Store S V) (platform : Platform V) (config : Config) where
  abbrev pub key_of : Request → Bytes
  key_of req = generate_key platform.hash config.key_strategy req

  -- The lookup: the response to serve, if one is cached and fresh.
  unfoldable pub look_up : Request → World S V → Option CachedResponse × World S V
  look_up req w =
      let (found, s, v) = store.get (key_of req) w.store w.rest in
      elim found [
        | none ↦ (none, record w { store = s; rest = v })
        | some cached ↦
            let (fresh, c, v') = is_fresh platform config cached req v in
            if fresh
            then (some c, record w { store = store.write_back (key_of req) c s; rest = v' })
            else (none, record w { store = store.delete (key_of req) s; rest = v' })
      ]

  -- A hit: the cached response with a new body, which it keeps.
  unfoldable pub serve : CachedResponse → Request → World S V → Answer (World S V)
  serve c req w =
      let (body, v) = platform.new_body c.body w.rest in
      let resp : Response = record c.response { body = some body } in
      record {
        response = some resp;
        error = none;
        request = req;
        world = record w {
          store = store.write_back (key_of req) (record c { response = resp }) w.store;
          rest = v;
        };
      }

  -- What is cached of a response, with the bytes of its body; the clock is read three times.
  unfoldable pub make_entry : Request → Response → Bytes → V → CachedResponse × V
  make_entry req resp body v =
      let (expires, v1) = calculate_expiration platform resp config.default_ttl v in
      let (accessed, v2) = platform.now v1 in
      let (created, v3) = platform.now v2 in
      (
        record {
          response = record resp { body = none };
          body = body;
          request_url = req.url;
          last_accessed = accessed;
          created_at = created;
          expires_at = expires;
        },
        v3,
      )

  -- What is done with a cacheable response: a body that cannot be read leaves it as it is.
  unfoldable pub keep : Bytes → Request → Response → Answer (World S V) → Answer (World S V)
  keep key req resp a =
      let (content, v) = platform.read_all resp.body a.world.rest in
      elim content [
        | none ↦ record a { world = record a.world { rest = v } }
        | some body ↦
            let (reader, v1) = platform.new_body body (platform.close resp.body v) in
            let returned : Response = record resp { body = some reader } in
            let (entry, v2) = make_entry req returned body v1 in
            record a {
              response = some returned;
              world = record a.world { pending = a.world.pending ++ (key, entry) ∷ []; rest = v2 };
            }
      ]

  -- `if err != nil || resp == nil`, and `if m.isCacheable(resp)`.
  unfoldable pub settle :
      Bytes → Answer (World S V) → Option Error → Option Response → Answer (World S V)
  settle key a (some e) resp = a
  settle key a none none = a
  settle key a none (some resp) = if is_cacheable config resp then keep key a.request resp a else a

  -- The end of `Handle`, from the results of the next handler on.
  unfoldable pub after_next : Bytes → Answer (World S V) → Answer (World S V)
  after_next key a = settle key a a.error a.response

  -- `!m.config.Enabled || !isCacheableMethod(req.Method)` and `!m.shouldCache(req)` are both false.
  unfoldable pub is_considered : Request → Bool
  is_considered req = config.enabled && is_cacheable_method req.method && should_cache config req

  -- `Handle` for a request that may be cached.
  unfoldable pub handle_cached : Handler (World S V) → Handler (World S V)
  handle_cached next ctx req w =
      let (hit, w') = look_up req w in
      elim hit [ some c ↦ serve c req w' | none ↦ after_next (key_of req) (next ctx req w') ]

  -- `Handle(next)`
  unfoldable pub handle : Handler (World S V) → Handler (World S V)
  handle next ctx req w = if is_considered req then handle_cached next ctx req w else next ctx req w

  -- A goroutine that was started runs, in the order of the list.
  unfoldable pub run_pending : World S V → World S V
  run_pending w = elim w.pending [
    | [] ↦ w
    | (key, entry) ∷ rest ↦ record w { store = store.set key entry w.store; pending = rest }
  ]
