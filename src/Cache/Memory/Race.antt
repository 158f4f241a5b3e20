-- ===== src/Cache/Memory/Race.antt =====
-- `Get` is not one step: it reads the element under the read lock, and uses it under the write lock
-- later. What can come in between.
use httpio.Base.{
  ℕ, ◌≡◌, ap, ◌∙◌, subst, inl, inr, true, false, none, some, arith, leb, length, Bytes, In,
}
use httpio.Cache.{CachedResponse}
use httpio.Cache.Memory.{
  MemoryCache, remove, move_to_front, is_expired, unlink, use_element, set, delete, push_front,
  assign,
}
use httpio.Cache.Memory.Invariant.{
  IsValid, assign_self, In-remove, remove-not_In, length-remove, write-ne,
}
use httpio.Cache.Memory.Operations.{delete-IsValid, remove-front, set-IsValid}

-- The key is not in the map, the element is in the list, and the invariant does not hold.
abbrev pub IsBroken : Bytes → ℕ → MemoryCache → Type 0
IsBroken k i c = (c.data_ k ≡ none) × In i c.lru_list × (¬ IsValid c)

-- An element that has left the list, used for a key that a new element has taken.
stale_element :
    (c : MemoryCache) (k : Bytes) (i j now later : ℕ)
    → IsValid c
    → c.data_ k ≡ some i
    → ¬ In j c.lru_list
    → is_expired (c.entries j) now ≡ true
    → IsBroken k i (use_element c k j now later).1
unfolding use_element unlink
stale_element c k i j now later v hit gone old =
    let (listed, key) = v.listed k i hit in
    let stays : In i (remove j (move_to_front j c.lru_list)) =
      rw (remove-front j c.lru_list)
        (In-remove j i c.lru_list listed (λ e. gone (subst (λ x. In x c.lru_list) e listed))) in
    let broken : IsBroken k i (unlink (record c { lru_list = move_to_front j c.lru_list }) k j) = (
      assign_self k none c.data_,
      stays,
      λ w'. cc (w'.indexed i stays, key, assign_self k none c.data_),
    ) in
    rw old broken

-- The cache that a delete and a store of the same key leave behind.
abbrev pub replaced : MemoryCache → Bytes → CachedResponse → MemoryCache
replaced c k r = set (delete c k) k r

set_free :
    (c : MemoryCache) (k : Bytes) (r : CachedResponse)
    → c.data_ k ≡ none
    → leb c.capacity (length c.lru_list) ≡ false
    → set c k r ≡ push_front c k r
unfolding set
set_free c k r miss free = rw (miss, set, free)

delete_hit : (c : MemoryCache) (k : Bytes) (j : ℕ) → c.data_ k ≡ some j → delete c k ≡ unlink c k j
unfolding delete
delete_hit c k j hit = rw (hit, delete)

replaced_lem :
    (c : MemoryCache) (k : Bytes) (j : ℕ) (r : CachedResponse)
    → IsValid c
    → c.data_ k ≡ some j
    → replaced c k r ≡ push_front (unlink c k j) k r
unfolding unlink
replaced_lem c k j r v hit =
    let shorter = length-remove j c.lru_list (v.listed k j hit).0 in
    ap (λ x. set x k r) (delete_hit c k j hit)
    ∙ set_free (unlink c k j) k r (assign_self k none c.data_) (ground arith)

pushed :
    (c : MemoryCache) (k : Bytes) (j : ℕ) (r : CachedResponse)
    → IsValid c
    → c.data_ k ≡ some j
    → ((push_front (unlink c k j) k r).data_ k ≡ some c.next_id)
      × (¬ In j (push_front (unlink c k j) k r).lru_list)
      × ((push_front (unlink c k j) k r).entries j ≡ c.entries j)
unfolding push_front unlink
pushed c k j r v hit =
    let old = v.made j (v.listed k j hit).0 in
    (
      assign_self k (some c.next_id) (assign k none c.data_),
      λ m. elim m [
        | inl e ↦ absurd (omega arith)
        | inr m' ↦ remove-not_In j c.lru_list v.distinct m'
      ],
      write-ne c.next_id (record { key = k; response = r }) c.entries j
          (λ e. absurd (omega (arith, old, e))),
    )

-- The invariant does not survive two overlapping calls. Whenever a valid cache has an expired entry
-- under a key, a `Get` of this key that reads the element, and goes on only after the key has been
-- deleted and stored anew, removes the key from the map and leaves its new element in the list, and
-- the invariant does not hold.
pub get_race :
    (c : MemoryCache) (k : Bytes) (j now later : ℕ) (r : CachedResponse)
    → IsValid c
    → c.data_ k ≡ some j
    → is_expired (c.entries j) now ≡ true
    → IsBroken k c.next_id (use_element (replaced c k r) k j now later).1
get_race c k j now later r v hit old =
    let (data', gone, same) = pushed c k j r v hit in
    let valid : IsValid (push_front (unlink c k j) k r) =
      subst IsValid (replaced_lem c k j r v hit)
        (set-IsValid (delete c k) k r (delete-IsValid c k v)) in
    rw (replaced_lem c k j r v hit) (
      stale_element (push_front (unlink c k j) k r) k c.next_id j now later valid data' gone
        (rw same old))
