-- ===== src/Middleware.antt =====
-- middleware/middleware.go: middlewares as functions on handlers, and `Chain`.
pub mod Order
mod Tests
use httpio.Base.{ℕ, zero, suc, ◌≡◌, refl, List, [], ◌∷◌, Option, none, some, length}
use httpio.Http.{Handler}

-- `type Middleware interface { Handle(next Handler) Handler }`
pub record Middleware (W : Type 0) : Type 0 where
  pub handle : Handler W → Handler W

-- `middlewares[i]`; the loop of `Chain` reads no other index.
pub get_elem? {ℓ} : {A : Type ℓ} → List A → ℕ → Option A
get_elem? [] i = none
get_elem? (x ∷ xs) zero = some x
get_elem? (x ∷ xs) (suc i) = get_elem? xs i

module _ {W : Type 0} where
  abbrev apply_at : Option (Middleware W) → Handler W → Handler W
  apply_at none handler = handler
  apply_at (some m) handler = m.handle handler

  -- `for i := n - 1; i >= 0; i--`: the rounds that are left.
  pub chain_from : List (Middleware W) → ℕ → Handler W → Handler W
  unfolding get_elem?
  chain_from middlewares zero handler = handler
  chain_from middlewares (suc i) handler =
      chain_from middlewares i (apply_at (get_elem? middlewares i) handler)

  -- `Chain(base, middlewares...)`
  unfoldable pub chain : Handler W → List (Middleware W) → Handler W
  unfolding chain_from
  chain base middlewares = chain_from middlewares (length middlewares) base

  -- `WrapMiddleware(mw)`
  unfoldable pub wrap_middleware : (Handler W → Handler W) → Middleware W
  wrap_middleware mw = record { handle = mw }
