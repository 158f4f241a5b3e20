-- ===== src/Cache/Memory.antt =====
-- middleware/cache/memory_cache.go. A `*list.Element` is a number; `entries` is what each element
-- points at, also after it has left the list. Each call of `time.Now` is an argument.
pub mod Invariant
pub mod Operations
pub mod Cleanup
pub mod Lru
pub mod Race
pub mod Runs
pub mod Lifetime
mod Tests
use httpio.Base.{
  ℕ, zero, suc, ◌+◌, Bool, true, false, List, [], ◌∷◌, Option, none, some, ltb, leb, ◌==◌, ℤ,
  positive_or, if◌then◌else◌, Bytes, eq, length,
}
use httpio.Http.{Response}
use httpio.Cache.{CachedResponse}

pub record CacheEntry : Type 0 where
  pub key : Bytes
  pub response : CachedResponse

-- The front of `lru_list` is its head; `next_id` is the element that `PushFront` makes next.
pub record MemoryCache : Type 0 where
  pub data_ : Bytes → Option ℕ
  pub lru_list : List ℕ
  pub entries : ℕ → CacheEntry
  pub next_id : ℕ
  pub capacity : ℕ

-- `NewMemoryCache(capacity)`; `entries` is arbitrary where no element has been made.
unfoldable pub new_memory_cache : (ℕ → CacheEntry) → ℤ → MemoryCache
new_memory_cache unused capacity = record {
  data_ = λ k. none;
  lru_list = [];
  entries = unused;
  next_id = 0;
  capacity = positive_or capacity 100;
}

-- `data[key] = element` and `delete(data, key)`
unfoldable pub assign : Bytes → Option ℕ → (Bytes → Option ℕ) → Bytes → Option ℕ
assign key element m k = if eq key k then element else m k

-- A write through the element's pointer.
unfoldable pub write : ℕ → CacheEntry → (ℕ → CacheEntry) → ℕ → CacheEntry
write i e m j = if i == j then e else m j

unfoldable pub member : ℕ → List ℕ → Bool
member i [] = false
member i (j ∷ js) = if i == j then true else member i js

-- `list.Remove(element)`: nothing, if the element is not in the list.
unfoldable pub remove : ℕ → List ℕ → List ℕ
remove i [] = []
remove i (j ∷ js) = if i == j then js else j ∷ remove i js

-- `list.MoveToFront(element)`: likewise.
unfoldable pub move_to_front : ℕ → List ℕ → List ℕ
move_to_front i l = if member i l then i ∷ remove i l else l

-- `list.Back()`
unfoldable pub back : List ℕ → Option ℕ
back [] = none
back (i ∷ []) = some i
back (i ∷ j ∷ js) = back (j ∷ js)

-- `time.Now().After(entry.response.ExpiresAt)`
abbrev pub is_expired : CacheEntry → ℕ → Bool
is_expired entry now = ltb entry.response.expires_at now

-- `delete(c.data, key)` and `c.lruList.Remove(element)`
unfoldable pub unlink : MemoryCache → Bytes → ℕ → MemoryCache
unlink c key i = record c { data_ = assign key none c.data_; lru_list = remove i c.lru_list }

-- The element moved to the front, and its response set.
unfoldable pub bring_front : MemoryCache → ℕ → CachedResponse → MemoryCache
bring_front c i response = record c {
  lru_list = move_to_front i c.lru_list;
  entries = write i (record { key = (c.entries i).key; response = response }) c.entries;
}

-- The second half of `Get`, under the write lock, for the element that was read under the read
-- lock before.
unfoldable pub use_element : MemoryCache → Bytes → ℕ → ℕ → ℕ → Option CachedResponse × MemoryCache
use_element c key i now later =
    let entry = c.entries i in
    let used : CachedResponse = record (entry.response) { last_accessed = later } in
    if is_expired entry now
    then (none, unlink (record c { lru_list = move_to_front i c.lru_list }) key i)
    else (some used, bring_front c i used)

-- `Get(ctx, key)`
unfoldable pub get : MemoryCache → Bytes → ℕ → ℕ → Option CachedResponse × MemoryCache
get c key now later = elim (c.data_ key) [
  | none ↦ (none, c)
  | some i ↦ use_element c key i now later
]

-- The entry at the back leaves.
unfoldable pub evict_oldest : MemoryCache → MemoryCache
evict_oldest c = elim (back c.lru_list) [ none ↦ c | some i ↦ unlink c (c.entries i).key i ]

-- `PushFront` of a new entry.
unfoldable pub push_front : MemoryCache → Bytes → CachedResponse → MemoryCache
push_front c key response = record c {
  data_ = assign key (some c.next_id) c.data_;
  lru_list = c.next_id ∷ c.lru_list;
  entries = write c.next_id (record { key = key; response = response }) c.entries;
  next_id = suc c.next_id;
}

-- `Set(ctx, key, response)`
unfoldable pub set : MemoryCache → Bytes → CachedResponse → MemoryCache
set c key response = elim (c.data_ key) [
  | some i ↦ bring_front c i response
  | none ↦
      push_front (if leb c.capacity (length c.lru_list) then evict_oldest c else c) key response
]

-- `Delete(ctx, key)`
unfoldable pub delete : MemoryCache → Bytes → MemoryCache
delete c key = elim (c.data_ key) [ none ↦ c | some i ↦ unlink c key i ]

-- `Clear(ctx)`
unfoldable pub clear : MemoryCache → MemoryCache
clear c = record c { data_ = λ k. none; lru_list = [] }

-- `Size()`
unfoldable pub size : MemoryCache → ℕ
size c = length c.lru_list

-- The loop of `cleanup` over the elements that are left to visit; the next one is read before an
-- element is removed.
unfoldable pub cleanup_from : List ℕ → MemoryCache → ℕ → MemoryCache
cleanup_from [] c now = c
cleanup_from (i ∷ is) c now =
    cleanup_from is (if is_expired (c.entries i) now then unlink c (c.entries i).key i else c) now

-- `cleanup()`
unfoldable pub cleanup : MemoryCache → ℕ → MemoryCache
cleanup c now = cleanup_from c.lru_list c now
