-- ===== src/Cache.antt =====
-- middleware/cache: the responses that are cached, and the stores that hold them.
pub mod Config
pub mod Keys
pub mod Policy
pub mod Serve
pub mod Disk
pub mod Memory
mod Tests
use httpio.Base.{ℕ, Bytes}
use httpio.Http.{Response}

-- `type CachedResponse`. Times are in nanoseconds.
pub record CachedResponse : Type 0 where
  pub response : Response
  pub body : Bytes
  pub request_url : Bytes
  pub last_accessed : ℕ
  pub created_at : ℕ
  pub expires_at : ℕ
