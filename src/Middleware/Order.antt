-- ===== src/Middleware/Order.antt =====
-- The order in which `Chain` puts the middlewares round the base handler.
use httpio.Base.{ℕ, zero, suc, ◌≡◌, refl, sym, ap, ◌∙◌, List, [], ◌∷◌, ◌++◌, length}
use httpio.Http.{Handler}
use httpio.Middleware.{Middleware, get_elem?, chain_from, chain, apply_at}

module _ {W : Type 0} where
  -- The first middleware is the outermost.
  abbrev pub nest : Handler W → List (Middleware W) → Handler W
  nest base [] = base
  nest base (m ∷ ms) = m.handle (nest base ms)

  chain_from-cons :
      (m : Middleware W) (ms : List (Middleware W)) (i : ℕ) (handler : Handler W)
      → chain_from (m ∷ ms) (suc i) handler ≡ m.handle (chain_from ms i handler)
  unfolding chain_from get_elem?
  chain_from-cons m ms zero handler = refl
  chain_from-cons m ms (suc i) handler = chain_from-cons m ms i (apply_at (get_elem? ms i) handler)

  -- `Chain` nests: for `m1, ..., mn` the handler is `m1.Handle(... mn.Handle(base))`, so the first
  -- middleware sees the request first and the response last.
  pub chain-nest :
      (base : Handler W) (middlewares : List (Middleware W))
      → chain base middlewares ≡ nest base middlewares
  unfolding chain
  chain-nest base [] = refl
  chain-nest base (m ∷ ms) =
      chain_from-cons m ms (length ms) base ∙ ap m.handle (chain-nest base ms)

  nest-append :
      (base : Handler W) (xs ys : List (Middleware W))
      → nest base (xs ++ ys) ≡ nest (nest base ys) xs
  nest-append base [] ys = refl
  nest-append base (x ∷ xs) ys = ap x.handle (nest-append base xs ys)

  -- Chaining two lists at once is chaining the second, and the first round it: what the client's
  -- middlewares and the request's own come to in `buildMiddlewareChain`.
  pub chain-append :
      (base : Handler W) (xs ys : List (Middleware W))
      → chain base (xs ++ ys) ≡ chain (chain base ys) xs
  chain-append base xs ys =
      chain-nest base (xs ++ ys)
      ∙ nest-append base xs ys
      ∙ sym (chain-nest (chain base ys) xs ∙ ap (λ b. nest b xs) (chain-nest base ys))
