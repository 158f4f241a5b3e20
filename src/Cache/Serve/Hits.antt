-- ===== src/Cache/Serve/Hits.antt =====
-- middleware/cache/cache.go: a response that the store has is served again.
use httpio.Base.{◌≡◌, refl, ap, ◌∙◌, true, false, none, some, Bytes, ltb}
use httpio.Http.{Request, Context, Answer, Handler}
use httpio.Cache.{CachedResponse}
use httpio.Cache.Config.{Config}
use httpio.Cache.Policy.{Platform, is_fresh, asks_no_cache}
use httpio.Cache.Serve.{Store, World, key_of, look_up, serve, is_considered, handle_cached, handle}

-- A response is there, up to its time of access.
pub record Same (c r : CachedResponse) : Type 0 where
  pub response : r.response ≡ c.response
  pub body : r.body ≡ c.body
  pub expires_at : r.expires_at ≡ c.expires_at

-- What the middleware needs of a store: a response that was set is got, until it expires.
pub record IsLawful {S V : Type 0} (store : Store S V) (platform : Platform V)
    (IsValid : S → Type 0) : Type 0 where
  pub get-set :
      (k : Bytes) (c : CachedResponse) (s : S) (v : V)
      → IsValid s
      → ltb c.expires_at (platform.now v).0 ≡ false
      → (r : CachedResponse) × ((store.get k (store.set k c s) v).0 ≡ some r) × Same c r
  pub set-IsValid : (k : Bytes) (c : CachedResponse) (s : S) → IsValid s → IsValid (store.set k c s)

module _ {S V : Type 0} (store : Store S V) (platform : Platform V) (config : Config) where
  is_fresh-true :
      (c : CachedResponse) (req : Request) (v : V)
      → ltb c.expires_at (platform.now v).0 ≡ false
      → asks_no_cache config req ≡ false
      → is_fresh platform config c req v ≡ (
        true,
        record c { last_accessed = (platform.now (platform.now v).1).0 },
        (platform.now (platform.now v).1).1,
      )
  unfolding is_fresh
  is_fresh-true c req v early asks = rw (early, asks)

  -- A served answer: the cached response with a new reader of the cached bytes, and no error.
  abbrev pub IsServed : CachedResponse → Answer (World S V) → Type 0
  IsServed c a =
      (v : V) × (a.response
        ≡ some (record c.response { body = some (platform.new_body c.body v).0 }))
      × (a.error ≡ none)

  pub serve-IsServed :
      (c r : CachedResponse) (req : Request) (w : World S V)
      → Same c r
      → IsServed c (serve store platform config r req w)
  unfolding serve
  serve-IsServed c r req w same = (w.rest, cc (same.response, same.body), refl)

  pub look_up_hit :
      (req : Request) (w : World S V) (c r : CachedResponse)
      → (store.get (key_of store platform config req) w.store w.rest).0 ≡ some r
      → Same c r
      → ltb c.expires_at
          (platform.now (store.get (key_of store platform config req) w.store w.rest).2).0
        ≡ false
      → asks_no_cache config req ≡ false
      → (c' : CachedResponse) × ((look_up store platform config req w).0 ≡ some c') × Same c c'
  unfolding look_up
  look_up_hit req w c r found same early asks =
      let v = (store.get (key_of store platform config req) w.store w.rest).2 in
      let fresh =
        is_fresh-true r req v (ap (λ e. ltb e (platform.now v).0) same.expires_at ∙ early) asks in
      (
        record r { last_accessed = (platform.now (platform.now v).1).0 },
        rw (found, look_up, fresh) refl,
        record { response = same.response; body = same.body; expires_at = same.expires_at },
      )

  -- Whatever the next handler and the context, and whatever else the request says: where the store
  -- has just been given a response under the request's key, the request is served that response with
  -- the bytes of its body, if it may be cached, does not ask for a response that is not, and the two
  -- readings of the clock on the way are not behind the expiry.
  pub handle-IsServed :
      {IsValid : S → Type 0} (lawful : IsLawful store platform IsValid) (next : Handler (World S V))
      (ctx : Context) (req : Request) (w : World S V) (c : CachedResponse) (s : S)
      → IsValid s
      → w.store ≡ store.set (key_of store platform config req) c s
      → is_considered store platform config req ≡ true
      → asks_no_cache config req ≡ false
      → ltb c.expires_at (platform.now w.rest).0 ≡ false
      → ltb c.expires_at
          (platform.now (store.get (key_of store platform config req) w.store w.rest).2).0
        ≡ false
      → IsServed c (handle store platform config next ctx req w)
  unfolding handle handle_cached
  handle-IsServed lawful next ctx req w c s valid stored considered asks early early' =
      let key = key_of store platform config req in
      let (r, found, same) = lawful.get-set key c s w.rest valid early in
      let (c', hit, same') =
        look_up_hit req w c r (ap (λ t. (store.get key t w.rest).0) stored ∙ found) same early'
          asks in
      rw (considered, handle, handle_cached, hit)
        (serve-IsServed c c' req (look_up store platform config req w).1 same')
