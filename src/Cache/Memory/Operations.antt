-- ===== src/Cache/Memory/Operations.antt =====
-- Every operation of the in-memory cache keeps the invariant, if it runs as a whole.
use httpio.Base.{
  ℕ, ◌≤◌, ◌<◌, ◌≡◌, ap, subst, inl, inr, List, none, some, arith, leb, ℤ, Bytes, length, Bool-cases,
  Option-cases,
}
use httpio.Cache.{CachedResponse}
use httpio.Cache.Memory.{
  CacheEntry, MemoryCache, new_memory_cache, remove, move_to_front, back, is_expired, unlink,
  assign, use_element, get, evict_oldest, set, delete, clear,
}
use httpio.Cache.Memory.Invariant.{
  IsValid, unlink-IsValid, bring_front-IsValid, push_front-IsValid, evict_oldest-IsValid, back-In,
  back-none, length-remove,
}

pub new_memory_cache-IsValid :
    (unused : ℕ → CacheEntry) (capacity : ℤ) → IsValid (new_memory_cache unused capacity)
unfolding new_memory_cache
new_memory_cache-IsValid unused capacity = record {
  room = ground arith;
  bounded = omega arith;
  distinct = tt;
  made = λ i m. absurd m;
  listed = λ k i e. cc;
  indexed = λ i m. absurd m;
}

-- With a removal at once the move to the front before it makes no difference.
pub remove-front : (i : ℕ) (l : List ℕ) → remove i (move_to_front i l) ≡ remove i l
unfolding move_to_front remove
remove-front i l = ground arith

unlink-front :
    (c : MemoryCache) (k : Bytes) (i : ℕ)
    → unlink c k i ≡ unlink (record c { lru_list = move_to_front i c.lru_list }) k i
unfolding unlink
unlink-front c k i = rw (remove-front i c.lru_list)

pub use_element-IsValid :
    (c : MemoryCache) (k : Bytes) (i now later : ℕ)
    → IsValid c
    → c.data_ k ≡ some i
    → IsValid (use_element c k i now later).1
unfolding use_element
use_element-IsValid c k i now later v e = elim (Bool-cases (is_expired (c.entries i) now)) [
  | inl old ↦ rw (old) (subst IsValid (unlink-front c k i) (unlink-IsValid c k i v e))
  | inr young ↦ rw (young) (
      bring_front-IsValid c i (record ((c.entries i).response) { last_accessed = later }) v
        (v.listed k i e).0)
]

pub get-IsValid :
    (c : MemoryCache) (k : Bytes) (now later : ℕ) → IsValid c → IsValid (get c k now later).1
unfolding get
get-IsValid c k now later v = elim (Option-cases (c.data_ k)) [
  | inl miss ↦ rw (miss, get) v
  | inr (i, hit) ↦ rw (hit, get) (use_element-IsValid c k i now later v hit)
]

-- The entry that leaves makes room, and takes no other key with it.
evict_oldest-room :
    (c : MemoryCache)
    → IsValid c
    → c.capacity ≤ length c.lru_list
    → length (evict_oldest c).lru_list < (evict_oldest c).capacity
unfolding evict_oldest unlink
evict_oldest-room c v full = elim (Option-cases (back c.lru_list)) [
  | inl none' ↦ absurd (omega (arith, v, ap length (back-none c.lru_list none')))
  | inr (i, last) ↦
      rw (last, evict_oldest)
        (omega (arith, v, length-remove i c.lru_list (back-In c.lru_list i last)))
]

evict_oldest-absent :
    (c : MemoryCache) (k : Bytes) → c.data_ k ≡ none → (evict_oldest c).data_ k ≡ none
unfolding evict_oldest unlink assign
evict_oldest-absent c k e = ground arith

pub set-IsValid :
    (c : MemoryCache) (k : Bytes) (r : CachedResponse) → IsValid c → IsValid (set c k r)
unfolding set
set-IsValid c k r v = elim (Option-cases (c.data_ k)) [
  | inr (i, hit) ↦ rw (hit, set) (bring_front-IsValid c i r v (v.listed k i hit).0)
  | inl miss ↦ elim (Bool-cases (leb c.capacity (length c.lru_list))) [
    | inl full ↦
        rw (miss, set, full)
          (push_front-IsValid (evict_oldest c) k r (evict_oldest-IsValid c v)
            (evict_oldest-absent c k miss) (evict_oldest-room c v (ground arith)))
    | inr free ↦ rw (miss, set, free) (push_front-IsValid c k r v miss (ground arith))
  ]
]

pub delete-IsValid : (c : MemoryCache) (k : Bytes) → IsValid c → IsValid (delete c k)
unfolding delete
delete-IsValid c k v = elim (Option-cases (c.data_ k)) [
  | inl miss ↦ rw (miss, delete) v
  | inr (i, hit) ↦ rw (hit, delete) (unlink-IsValid c k i v hit)
]

pub clear-IsValid : (c : MemoryCache) → IsValid c → IsValid (clear c)
unfolding clear
clear-IsValid c v = record {
  room = v.room;
  bounded = omega arith;
  distinct = tt;
  made = λ i m. absurd m;
  listed = λ k i e. cc;
  indexed = λ i m. absurd m;
}
