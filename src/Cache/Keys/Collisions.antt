-- ===== src/Cache/Keys/Collisions.antt =====
-- middleware/cache/cache.go: which requests share a key.
use httpio.Base.{
  ℕ, ◌≡◌, sym, ap, ◌⊎◌, inl, inr, true, [], ◌∷◌, ◌++◌, append_assoc, append-nil, Bytes, bytes, eq,
  eq_iff, Bool-cases, arith,
}
use httpio.Http.{Request}
use httpio.Cache.Policy.{is_cacheable_method}
use httpio.Cache.Config.{key_by_full_request}
use httpio.Cache.Keys.{
  method_url_key, write_headers, sort_keys, insert_key, hashed_body, full_request_text,
  generate_key,
}

pub is_cacheable_method_cases :
    (m : Bytes) → is_cacheable_method m ≡ true → (m ≡ bytes "GET") ⊎ (m ≡ bytes "HEAD")
unfolding is_cacheable_method
is_cacheable_method_cases m h = elim (Bool-cases (eq m (bytes "GET"))) [
  | inl get ↦ inl ((eq_iff _ _).0 get)
  | inr other ↦ inr ((eq_iff _ _).0 (rw (other) at h))
]

abbrev head : Bytes → ℕ
head [] = 0
head (c ∷ s) = c

apart : (s t : Bytes) → bytes "GET" ++ s ≡ bytes "HEAD" ++ t → ⊥
apart s t h = let e : ◌≡◌ {A = ℕ} 71 72 = ap head h in omega (arith, e)

-- Two requests that may be cached have the same default key only if their methods and their URLs are
-- the same.
pub method_url_key_injective :
    (req req' : Request)
    → is_cacheable_method req.method ≡ true
    → is_cacheable_method req'.method ≡ true
    → method_url_key req ≡ method_url_key req'
    → (req.method ≡ req'.method) × (req.url ≡ req'.url)
unfolding method_url_key
method_url_key_injective req req' h h' same = elim (is_cacheable_method_cases req.method h) [
  | inl g ↦ elim (is_cacheable_method_cases req'.method h') [
    | inl g' ↦ (cc, cc)
    | inr g' ↦ absurd (apart _ _ (rw (g, g') at same))
  ]
  | inr g ↦ elim (is_cacheable_method_cases req'.method h') [
    | inl g' ↦ absurd (apart _ _ (sym (rw (g, g') at same)))
    | inr g' ↦ (cc, cc)
  ]
]

module _ (hash : Bytes → Bytes) (req : Request) where
  -- The request with one header.
  abbrev pub with_header : Bytes → Bytes → Request
  with_header name val = record req { header = (name, val ∷ []) ∷ [] }

  -- The key of the full request does not keep names and values apart: a header whose value starts
  -- with some text has the key of the header whose name ends in it.
  pub full_request_key_collides :
      (name shared val : Bytes)
      → generate_key hash key_by_full_request (with_header name (shared ++ val))
        ≡ generate_key hash key_by_full_request (with_header (name ++ shared) val)
  unfolding generate_key full_request_text sort_keys insert_key write_headers
  full_request_key_collides name shared val =
      ap (λ t. hash (req.method ++ (req.url ++ (t ++ hashed_body req.content_length req.body))))
        (simp (append_assoc, append-nil))
