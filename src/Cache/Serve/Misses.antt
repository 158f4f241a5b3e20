-- ===== src/Cache/Serve/Misses.antt =====
-- middleware/cache/cache.go: requests that the cache cannot serve, and what is stored of the answers.
use httpio.Base.{
  ℕ, ◌≡◌, refl, ◌⊎◌, inl, inr, true, [], ◌∷◌, ◌++◌, Option, none, some, Option-cases, Bool-cases,
  Bytes,
}
use mathlib.Core.Option
use httpio.Http.{Error, Request, Response, Context, Answer, Handler}
use httpio.Cache.{CachedResponse}
use httpio.Cache.Config.{Config}
use httpio.Cache.Policy.{Platform, is_cacheable}
use httpio.Cache.Serve.{
  Store, World, key_of, look_up, make_entry, keep, after_next, settle, is_considered, handle_cached,
  handle,
}

-- A response without its body.
abbrev pub bare : Response → Response
bare r = record r { body = none }

module _ {S V : Type 0} (store : Store S V) (platform : Platform V) (config : Config) where
  -- The response is good to keep.
  abbrev pub IsKept : Answer (World S V) → Type 0
  IsKept a =
      (a.error ≡ none) × ((r : Response) × (a.response ≡ some r) × (is_cacheable config r ≡ true))

  -- The answer `o` is the next handler's answer `a`, up to the reader of the body; the store is as
  -- `a` left it, and only a response that is good to keep starts a call of `Set`.
  pub record Follows (a o : Answer (World S V)) : Type 0 where
    pub response : Option.map bare o.response ≡ Option.map bare a.response
    pub error : o.error ≡ a.error
    pub request : o.request ≡ a.request
    pub held : o.world.store ≡ a.world.store
    pub pending : (o.world.pending ≡ a.world.pending) ⊎ IsKept a

  Follows-refl : (a : Answer (World S V)) → Follows a a
  Follows-refl a = record {
    response = refl;
    error = refl;
    request = refl;
    held = refl;
    pending = inl refl;
  }

  keep-Follows :
      (key : Bytes) (req : Request) (r : Response) (a : Answer (World S V))
      → a.error ≡ none
      → a.response ≡ some r
      → is_cacheable config r ≡ true
      → Follows a (keep store platform config key req r a)
  unfolding keep
  keep-Follows key req r a e h ok = elim (Option-cases (platform.read_all r.body a.world.rest).0) [
    | inl n ↦
        rw (n, keep)
          (record {
            response = refl;
            error = refl;
            request = refl;
            held = refl;
            pending = inl refl;
          })
    | inr (b, s) ↦
        rw (s, keep)
          (record {
            response = rw (h) refl;
            error = refl;
            request = refl;
            held = refl;
            pending = inr (e, (r, h, ok));
          })
  ]

  settle-Follows :
      (key : Bytes) (a : Answer (World S V)) (err : Option Error) (resp : Option Response)
      → a.error ≡ err
      → a.response ≡ resp
      → Follows a (settle store platform config key a err resp)
  unfolding settle
  settle-Follows key a (some e) resp n h = Follows-refl a
  settle-Follows key a none none n h = Follows-refl a
  settle-Follows key a none (some r) n h = elim (Bool-cases (is_cacheable config r)) [
    | inl ok ↦ rw (ok) (keep-Follows key a.request r a n h ok)
    | inr out ↦ rw (out) (Follows-refl a)
  ]

  pub handle_cached_miss :
      (next : Handler (World S V)) (ctx : Context) (req : Request) (w : World S V)
      → (look_up store platform config req w).0 ≡ none
      → handle_cached store platform config next ctx req w
        ≡ after_next store platform config
            (key_of store platform config req)
            (next ctx req (look_up store platform config req w).1)
  unfolding handle_cached
  handle_cached_miss next ctx req w miss = rw (miss, handle_cached)

  -- A request that the cache does not serve: the answer is the next handler's, with its error and its
  -- status and headers; the store is as the next handler left it; and a call of `Set` is started only
  -- for an answer without an error whose response is good to keep.
  pub handle-Follows :
      (next : Handler (World S V)) (ctx : Context) (req : Request) (w : World S V)
      → (look_up store platform config req w).0 ≡ none
      → is_considered store platform config req ≡ true
      → Follows
          (next ctx req (look_up store platform config req w).1)
          (handle store platform config next ctx req w)
  unfolding handle after_next
  handle-Follows next ctx req w miss considered =
      rw (considered, handle, handle_cached_miss next ctx req w miss)
        (settle-Follows (key_of store platform config req) _ _ _ refl refl)

  -- What a miss leaves: the answer's response has a new reader, and `Set` has been started for the
  -- request's key, with the response and the bytes of its body.
  abbrev pub IsStored : Bytes → Response → Bytes → Answer (World S V) → Answer (World S V) → Type 0
  IsStored key r b a o =
      (e : CachedResponse) × (n : ℕ) × (o.response ≡ some (record r { body = some n }))
      × (o.world.pending ≡ a.world.pending ++ (key, e) ∷ [])
      × (e.response ≡ bare r)
      × (e.body ≡ b)

  keep-IsStored :
      (key : Bytes) (req : Request) (r : Response) (b : Bytes) (a : Answer (World S V))
      → (platform.read_all r.body a.world.rest).0 ≡ some b
      → IsStored key r b a (keep store platform config key req r a)
  unfolding keep make_entry
  keep-IsStored key req r b a read = rw (read, keep) (_, _, refl, refl, refl, refl)

  -- A miss on a request that may be cached: if the next handler gives a response that is good to keep
  -- and its body can be read, then it is stored.
  pub handle-IsStored :
      (next : Handler (World S V)) (ctx : Context) (req : Request) (w : World S V) (r : Response)
      (b : Bytes)
      → is_considered store platform config req ≡ true
      → (look_up store platform config req w).0 ≡ none
      → (next ctx req (look_up store platform config req w).1).error ≡ none
      → (next ctx req (look_up store platform config req w).1).response ≡ some r
      → is_cacheable config r ≡ true
      → (platform.read_all r.body
          (next ctx req (look_up store platform config req w).1).world.rest).0
        ≡ some b
      → IsStored
          (key_of store platform config req)
          r
          b
          (next ctx req (look_up store platform config req w).1)
          (handle store platform config next ctx req w)
  unfolding handle after_next settle
  handle-IsStored next ctx req w r b considered miss fine given good read =
      rw
        (
          considered,
          handle,
          handle_cached_miss next ctx req w miss,
          after_next,
          fine,
          given,
          settle,
          good,
        )
        (keep-IsStored (key_of store platform config req) _ r b _ read)
