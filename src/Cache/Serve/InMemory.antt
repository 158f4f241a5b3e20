-- ===== src/Cache/Serve/InMemory.antt =====
-- The in-memory cache as the store behind the cache middleware.
use httpio.Base.{
  ℕ, ◌≡◌, refl, ap, ◌∙◌, inl, inr, false, List, Option, none, some, Bytes, ltb, eq_refl,
  Option-cases,
}
use httpio.Cache.{CachedResponse}
use httpio.Cache.Policy.{Platform}
use httpio.Cache.Memory
use httpio.Cache.Memory.{CacheEntry, MemoryCache, write}
use httpio.Cache.Memory.Invariant.{IsValid}
use httpio.Cache.Memory.Operations.{set-IsValid}
use httpio.Cache.Memory.Lru.{view, view-set, view-get, spec_get, spec_set, find}
use httpio.Cache.Serve.{Store}
use httpio.Cache.Serve.Hits.{IsLawful}

module _ {V : Type 0} (platform : Platform V) where
  -- The readings of the clock that `Get` makes.
  abbrev readings : Option ℕ → Option CachedResponse → V → V
  readings none found v = v
  readings (some i) none v = (platform.now v).1
  readings (some i) (some r) v = (platform.now (platform.now v).1).1

  unfoldable pub get : Bytes → MemoryCache → V → Option CachedResponse × MemoryCache × V
  get k c v =
      let first = platform.now v in
      let got = Memory.get c k first.0 (platform.now first.1).0 in
      (got.0, got.1, readings (c.data_ k) got.0 v)

  -- A change through the pointer of a cached response is a change of its entry.
  unfoldable pub write_back : Bytes → CachedResponse → MemoryCache → MemoryCache
  write_back k r c = elim (c.data_ k) [
    | none ↦ c
    | some i ↦ record c {
      entries = write i (record { key = (c.entries i).key; response = r }) c.entries;
    }
  ]

  abbrev pub memory_store : Store MemoryCache V
  memory_store = record {
    get = get;
    set = λ k r c. Memory.set c k r;
    delete = λ k c. Memory.delete c k;
    write_back = write_back;
  }

  -- What was set is at the front.
  spec_get-spec_set :
      (n later capacity : ℕ) (k : Bytes) (r : CachedResponse) (l : List CacheEntry)
      → ltb r.expires_at n ≡ false
      → (spec_get k n later (spec_set capacity k r l)).0 ≡ some (record r { last_accessed = later })
  unfolding spec_get spec_set find
  spec_get-spec_set n later capacity k r l young = elim (Option-cases (find k l)) [
    | inl miss ↦ rw (miss, spec_set, spec_get, eq_refl k, young)
    | inr (_, hit) ↦ rw (hit, spec_set, spec_get, eq_refl k, young)
  ]

  -- The in-memory cache has the laws that the cache middleware needs of its store: where its map and
  -- list agree, a `Get` of the key that was stored last, at a time not behind the expiry, gives the
  -- response, the body and the expiry that were stored, and a `Set` keeps the map and the list in
  -- agreement.
  pub memory_store-IsLawful : IsLawful memory_store platform IsValid
  unfolding get
  memory_store-IsLawful = record {
    get-set = λ k r c v valid young. (
      record r { last_accessed = (platform.now (platform.now v).1).0 },
      ap (λ p. p.0) (view-get (Memory.set c k r) (set-IsValid c k r valid) k _ _)
          ∙ ap (λ l. (spec_get k (platform.now v).0 (platform.now (platform.now v).1).0 l).0)
              (view-set c valid k r)
          ∙ spec_get-spec_set _ _ c.capacity k r (view c) young,
      record { response = refl; body = refl; expires_at = refl },
    );
    set-IsValid = λ k r c valid. set-IsValid c k r valid;
  }
