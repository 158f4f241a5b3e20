-- ===== src/Cache/Serve/Again.antt =====
-- middleware/cache/cache.go: a request whose answer is stored, and a later one with the same key.
use httpio.Base.{
  ◌≡◌, refl, sym, ap, ◌∙◌, true, false, [], ◌∷◌, ◌++◌, Option, some, none, Bytes, ltb,
}
use httpio.Http.{Error, Request, Response, Context, Answer, Handler}
use httpio.Cache.{CachedResponse}
use httpio.Cache.Config.{Config}
use httpio.Cache.Policy.{Platform, is_cacheable, asks_no_cache}
use httpio.Cache.Serve.{
  Store, World, key_of, look_up, make_entry, keep, after_next, settle, is_considered, handle_cached,
  handle, run_pending, serve,
}
use httpio.Cache.Serve.Hits.{IsLawful, look_up_hit, serve-IsServed}
use httpio.Cache.Serve.Misses.{handle_cached_miss}

module _ {S V : Type 0} (store : Store S V) (platform : Platform V) (config : Config) where
  -- The entry that is made of an answer's response, whose body has the bytes `b`.
  abbrev pub entry_of : Response → Bytes → Answer (World S V) → CachedResponse
  unfolding make_entry
  entry_of r b a =
      let v = platform.close r.body (platform.read_all r.body a.world.rest).1 in
      let (reader, v1) = platform.new_body b v in
      (make_entry store platform config a.request (record r { body = some reader }) b v1).0

  keep_read :
      (key : Bytes) (r : Response) (b : Bytes) (a : Answer (World S V))
      → (platform.read_all r.body a.world.rest).0 ≡ some b
      → ((keep store platform config key a.request r a).world.store ≡ a.world.store)
        × ((keep store platform config key a.request r a).world.pending
            ≡ a.world.pending ++ (key, entry_of r b a) ∷ [])
  unfolding keep entry_of
  keep_read key r b a read = rw (read, keep) (refl, refl)

  settle_kept :
      (key : Bytes) (a : Answer (World S V)) (err : Option Error) (resp : Option Response)
      (r : Response)
      → err ≡ none
      → resp ≡ some r
      → is_cacheable config r ≡ true
      → settle store platform config key a err resp ≡ keep store platform config key a.request r a
  unfolding settle
  settle_kept key a err resp r fine given good = rw (fine, given, settle, good)

  -- The world after a miss whose answer is kept.
  handle_miss :
      (next : Handler (World S V)) (ctx : Context) (req : Request) (w : World S V) (r : Response)
      → is_considered store platform config req ≡ true
      → (look_up store platform config req w).0 ≡ none
      → (next ctx req (look_up store platform config req w).1).error ≡ none
      → (next ctx req (look_up store platform config req w).1).response ≡ some r
      → is_cacheable config r ≡ true
      → handle store platform config next ctx req w
        ≡ keep store platform config
            (key_of store platform config req)
            (next ctx req (look_up store platform config req w).1).request
            r
            (next ctx req (look_up store platform config req w).1)
  unfolding handle after_next
  handle_miss next ctx req w r considered miss fine given good =
      rw (considered, handle, handle_cached_miss store platform config next ctx req w miss)
        (settle_kept (key_of store platform config req) _ _ _ r fine given good)

  -- A hit does not depend on the next handler.
  handle_hit :
      (next : Handler (World S V)) (ctx : Context) (req : Request) (w : World S V)
      (c : CachedResponse)
      → is_considered store platform config req ≡ true
      → (look_up store platform config req w).0 ≡ some c
      → handle store platform config next ctx req w
        ≡ serve store platform config c req (look_up store platform config req w).1
  unfolding handle handle_cached
  handle_hit next ctx req w c considered hit = rw (considered, handle, handle_cached, hit)

  run_pending_one :
      (key : Bytes) (e : CachedResponse) (w : World S V)
      → w.pending ≡ (key, e) ∷ []
      → (run_pending store platform config w).store ≡ store.set key e w.store
  unfolding run_pending
  run_pending_one key e w h = rw (h, run_pending)

  -- A request that is not in the cache and whose answer is kept.
  pub record IsFirst (next : Handler (World S V)) (ctx : Context) (req : Request) (w : World S V)
      (r : Response) (b : Bytes) : Type 0 where
    pub considered : is_considered store platform config req ≡ true
    pub miss : (look_up store platform config req w).0 ≡ none
    pub fine : (next ctx req (look_up store platform config req w).1).error ≡ none
    pub given : (next ctx req (look_up store platform config req w).1).response ≡ some r
    pub good : is_cacheable config r ≡ true
    pub read :
        (platform.read_all r.body
          (next ctx req (look_up store platform config req w).1).world.rest).0
        ≡ some b
    pub idle : (next ctx req (look_up store platform config req w).1).world.pending ≡ []

  handle_first :
      (next : Handler (World S V)) (ctx : Context) (req : Request) (w : World S V) (r : Response)
      (b : Bytes)
      → IsFirst next ctx req w r b
      → (run_pending store platform config
          (handle store platform config next ctx req w).world).store
        ≡ store.set
            (key_of store platform config req)
            (entry_of r b (next ctx req (look_up store platform config req w).1))
            (next ctx req (look_up store platform config req w).1).world.store
  handle_first next ctx req w r b first =
      let a = next ctx req (look_up store platform config req w).1 in
      let key = key_of store platform config req in
      let (held, started) = keep_read key r b a first.read in
      ap (λ o. (run_pending store platform config o.world).store)
        (handle_miss next ctx req w r first.considered first.miss first.fine first.given first.good)
      ∙ run_pending_one key (entry_of r b a) _
          (started ∙ ap (λ p. p ++ (key, entry_of r b a) ∷ []) first.idle)
      ∙ ap (λ s. store.set key (entry_of r b a) s) held

  -- The end-to-end promise of the cache over any lawful store. A request misses; the next handler
  -- answers it without an error, with a response that may be kept and a body that can be read; the
  -- store stays valid meanwhile, no other call of `Set` is pending, and the call that is started runs.
  -- Then a request with the same key that finds the store just as that call left it, as nothing else
  -- has used the store in between, that may be cached and does not ask for a fresh response, while the
  -- readings of the clock on the way are not behind the entry's expiry, is answered without an error by
  -- the first answer's status and header, with a new reader of its bytes; and the whole answer is the
  -- same for any two handlers behind the cache.
  pub handle-handle :
      {IsValid : S → Type 0} (lawful : IsLawful store platform IsValid) (next : Handler (World S V))
      (ctx : Context) (req : Request) (w : World S V) (r : Response) (b : Bytes)
      → IsFirst next ctx req w r b
      → IsValid (next ctx req (look_up store platform config req w).1).world.store
      → (ctx' : Context) (req' : Request) (w' : World S V) (next' next'' : Handler (World S V))
      → w'.store
        ≡ (run_pending store platform config
            (handle store platform config next ctx req w).world).store
      → key_of store platform config req' ≡ key_of store platform config req
      → is_considered store platform config req' ≡ true
      → asks_no_cache config req' ≡ false
      → ltb
          (entry_of r b (next ctx req (look_up store platform config req w).1)).expires_at
          (platform.now w'.rest).0
        ≡ false
      → ltb
          (entry_of r b (next ctx req (look_up store platform config req w).1)).expires_at
          (platform.now (store.get (key_of store platform config req') w'.store w'.rest).2).0
        ≡ false
      → (v : V) × ((handle store platform config next' ctx' req' w').response
          ≡ some (record r { body = some (platform.new_body b v).0 }))
        × ((handle store platform config next' ctx' req' w').error ≡ none)
        × (handle store platform config next' ctx' req' w'
            ≡ handle store platform config next'' ctx' req' w')
  unfolding entry_of
  handle-handle lawful next ctx req w r b first valid ctx' req' w' next' next'' stored same_key
        considered asks early early' =
      let a = next ctx req (look_up store platform config req w).1 in
      let key = key_of store platform config req' in
      let c = entry_of r b a in
      let set_again =
        stored
        ∙ handle_first next ctx req w r b first
        ∙ ap (λ k. store.set k c a.world.store) (sym same_key) in
      let (e, found, same) = lawful.get-set key c a.world.store w'.rest valid early in
      let (c', hit, same') =
        look_up_hit store platform config req' w' c e
          (ap (λ t. (store.get key t w'.rest).0) set_again ∙ found) same early' asks in
      let answered = handle_hit next' ctx' req' w' c' considered hit in
      let (v, body, fine) =
        serve-IsServed store platform config c c' req' (look_up store platform config req' w').1
          same' in
      (
        v,
        ap (λ o. o.response) answered ∙ body,
        ap (λ o. o.error) answered ∙ fine,
        answered ∙ sym (handle_hit next'' ctx' req' w' c' considered hit),
      )
