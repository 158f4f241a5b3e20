-- ===== src/Cache/Memory/Lru.antt =====
-- The in-memory cache as a bounded list of entries, the most recently used first.
use httpio.Base.{
  ℕ, suc, ◌≡◌, refl, sym, ap, ◌∙◌, subst, inl, inr, ◌≢◌, false, List, [], ◌∷◌, map, Option, none,
  some, arith, leb, ◌==◌, if◌then◌else◌, Bytes, eq, eq_iff, length, In, Bool-cases, Option-cases,
}
use httpio.Cache.{CachedResponse}
use httpio.Cache.Memory.{
  CacheEntry, MemoryCache, write, remove, move_to_front, back, is_expired, unlink, bring_front,
  use_element, get, evict_oldest, push_front, set,
}
use httpio.Cache.Memory.Operations.{remove-front}
use httpio.Cache.Memory.Invariant.{
  IsValid, Distinct, remove-not_In, move_to_front_of_In, back-In, back-none, write-ne, write_self,
  evict_oldest-IsValid,
}

-- The specification: what the cache holds, with no map and no elements.
abbrev pub view : MemoryCache → List CacheEntry
view c = map c.entries c.lru_list

unfoldable pub find : Bytes → List CacheEntry → Option CachedResponse
find k [] = none
find k (e ∷ l) = if eq e.key k then some e.response else find k l

unfoldable pub erase : Bytes → List CacheEntry → List CacheEntry
erase k [] = []
erase k (e ∷ l) = if eq e.key k then l else e ∷ erase k l

unfoldable pub drop_last : List CacheEntry → List CacheEntry
drop_last [] = []
drop_last (e ∷ []) = []
drop_last (e ∷ f ∷ l) = e ∷ drop_last (f ∷ l)

abbrev entry : Bytes → CachedResponse → CacheEntry
entry k r = record { key = k; response = r }

unfoldable pub spec_set : ℕ → Bytes → CachedResponse → List CacheEntry → List CacheEntry
spec_set capacity k r l = elim (find k l) [
  | some _ ↦ entry k r ∷ erase k l
  | none ↦ entry k r ∷ (if leb capacity (length l) then drop_last l else l)
]

unfoldable pub spec_get : Bytes → ℕ → ℕ → List CacheEntry → Option CachedResponse × List CacheEntry
spec_get k now later l = elim (find k l) [
  | none ↦ (none, l)
  | some r ↦ if is_expired (entry k r) now then (none, erase k l) else (
    some (record r { last_accessed = later }),
    entry k (record r { last_accessed = later }) ∷ erase k l,
  )
]

module _ (m : ℕ → CacheEntry) (k : Bytes) (i : ℕ) (key : (m i).key ≡ k) where
  -- Only this element has the key.
  abbrev Only : List ℕ → Type 0
  Only l = (j : ℕ) → In j l → (m j).key ≡ k → j ≡ i

  find-map : (l : List ℕ) → Only l → In i l → find k (map m l) ≡ some (m i).response
  unfolding find
  find-map [] u h = absurd h
  find-map (j ∷ l) u h = elim (Bool-cases (eq (m j).key k)) [
    | inl same ↦
        let here : j ≡ i = u j (inl refl) ((eq_iff _ _).0 same) in
        rw (same) (ap (λ x. some (m x).response) here)
    | inr other ↦ rw (other) (
        find-map l (λ x h' e. u x (inr h') e)
          (elim h [
            | inl e ↦
                absurd (cc (other, (eq_iff (m j).key k).1 (ap (λ x. (m x).key) (sym e) ∙ key)))
            | inr h' ↦ h'
          ]))
  ]

  key_test : (j : ℕ) (l : List ℕ) → Only (j ∷ l) → eq (m j).key k ≡ (i == j)
  key_test j l u = elim (Bool-cases (i == j)) [
    | inl same ↦
        let here : i ≡ j = ground arith in
        (eq_iff _ _).1 (ap (λ x. (m x).key) (sym here) ∙ key) ∙ sym same
    | inr other ↦ elim (Bool-cases (eq (m j).key k)) [
      | inl hit ↦ let here : j ≡ i = u j (inl refl) ((eq_iff _ _).0 hit) in absurd (ground arith)
      | inr miss ↦ miss ∙ sym other
    ]
  ]

  erase-map : (l : List ℕ) → Only l → In i l → erase k (map m l) ≡ map m (remove i l)
  unfolding erase remove
  erase-map [] u h = absurd h
  erase-map (j ∷ l) u h = elim (Bool-cases (i == j)) [
    | inl same ↦ rw (key_test j l u, same)
    | inr other ↦
        rw (key_test j l u, other)
          (ap (λ t. m j ∷ t) (erase-map l (λ x h' e. u x (inr h') e) (ground arith)))
  ]

find-map-none :
    (m : ℕ → CacheEntry) (k : Bytes) (l : List ℕ)
    → ((j : ℕ) → In j l → (m j).key ≢ k)
    → find k (map m l) ≡ none
unfolding find
find-map-none m k [] h = refl
find-map-none m k (j ∷ l) h =
    ground (arith, h j (inl refl), eq_iff (m j).key k, find-map-none m k l (λ x i. h x (inr i)))

map-write :
    (m : ℕ → CacheEntry) (i : ℕ) (e : CacheEntry) (l : List ℕ)
    → ¬ In i l
    → map (write i e m) l ≡ map m l
map-write m i e [] h = refl
map-write m i e (j ∷ l) h =
    cc (write-ne i e m j (λ x. h (inl x)), map-write m i e l (λ x. h (inr x)))

drop_last-map :
    (m : ℕ → CacheEntry) (l : List ℕ) (i : ℕ)
    → Distinct l
    → back l ≡ some i
    → drop_last (map m l) ≡ map m (remove i l)
unfolding drop_last back remove
drop_last-map m [] i d e = refl
drop_last-map m (j ∷ []) i d e = ground arith
drop_last-map m (j ∷ j' ∷ l) i d e =
    let apart : j ≢ i =
      λ same. d.0 (subst (λ x. In x (j' ∷ l)) (sym same) (back-In (j' ∷ l) i e)) in
    let test : (i == j) ≡ false = ground arith in
    rw test (ap (λ t. m j ∷ t) (drop_last-map m (j' ∷ l) i d.1 e))

length-map : (m : ℕ → CacheEntry) (l : List ℕ) → length (map m l) ≡ length l
length-map m [] = refl
length-map m (j ∷ l) = ap suc (length-map m l)

view-push_front :
    (c : MemoryCache) (k : Bytes) (r : CachedResponse)
    → IsValid c
    → view (push_front c k r) ≡ entry k r ∷ view c
unfolding push_front
view-push_front c k r v = cc (
  write_self c.next_id (entry k r) c.entries,
  map-write c.entries c.next_id (entry k r) c.lru_list
      (λ m. absurd (omega (arith, v.made c.next_id m))),
)

view-evict_oldest : (c : MemoryCache) → IsValid c → view (evict_oldest c) ≡ drop_last (view c)
unfolding evict_oldest unlink drop_last
view-evict_oldest c v = elim (Option-cases (back c.lru_list)) [
  | inl none' ↦ rw (none', evict_oldest, back-none c.lru_list none')
  | inr (i, last) ↦
      rw (last, evict_oldest) (sym (drop_last-map c.entries c.lru_list i v.distinct last))
]

module _ (c : MemoryCache) (v : IsValid c) (k : Bytes) where
  only : (i : ℕ) → c.data_ k ≡ some i → (j : ℕ) → In j c.lru_list → (c.entries j).key ≡ k → j ≡ i
  only i hit j m e = cc (hit, v.indexed j m, e)

  find-view_hit : (i : ℕ) → c.data_ k ≡ some i → find k (view c) ≡ some (c.entries i).response
  find-view_hit i hit =
      let (listed, key) = v.listed k i hit in
      find-map c.entries k i key c.lru_list (only i hit) listed

  find-view_miss : c.data_ k ≡ none → find k (view c) ≡ none
  find-view_miss miss = find-map-none c.entries k c.lru_list (λ j m e. cc (miss, v.indexed j m, e))

  erase-view : (i : ℕ) → c.data_ k ≡ some i → erase k (view c) ≡ map c.entries (remove i c.lru_list)
  erase-view i hit =
      let (listed, key) = v.listed k i hit in
      erase-map c.entries k i key c.lru_list (only i hit) listed

  view-bring_front :
      (i : ℕ) (r : CachedResponse)
      → c.data_ k ≡ some i
      → view (bring_front c i r) ≡ entry k r ∷ erase k (view c)
  unfolding bring_front
  view-bring_front i r hit =
      let (listed, key) = v.listed k i hit in
      rw (move_to_front_of_In i c.lru_list listed, erase-view i hit)
        (cc (
          write_self i (record { key = (c.entries i).key; response = r }) c.entries,
          key,
          map-write c.entries i (record { key = (c.entries i).key; response = r })
              (remove i c.lru_list) (remove-not_In i c.lru_list v.distinct),
        ))

  view-unlink :
      (i : ℕ)
      → c.data_ k ≡ some i
      → view (unlink (record c { lru_list = move_to_front i c.lru_list }) k i) ≡ erase k (view c)
  unfolding unlink
  view-unlink i hit = rw (erase-view i hit, remove-front i c.lru_list)

  -- `Set` on a valid cache: a known key is moved to the front with the new response; a new key goes
  -- to the front, and if the cache is full the entry at the back, the least recently used, leaves.
  pub view-set : (r : CachedResponse) → view (set c k r) ≡ spec_set c.capacity k r (view c)
  unfolding set spec_set
  view-set r = elim (Option-cases (c.data_ k)) [
    | inr (i, hit) ↦ rw (hit, set, spec_set, find-view_hit i hit) (view-bring_front i r hit)
    | inl miss ↦ elim (Bool-cases (leb c.capacity (length c.lru_list))) [
      | inl full ↦
          rw (miss, set, spec_set, find-view_miss miss, length-map c.entries c.lru_list, full)
            (view-push_front (evict_oldest c) k r (evict_oldest-IsValid c v)
              ∙ ap (λ l. entry k r ∷ l) (view-evict_oldest c v))
      | inr free ↦
          rw (miss, set, spec_set, find-view_miss miss, length-map c.entries c.lru_list, free)
            (view-push_front c k r v)
    ]
  ]

  -- `Get` on a valid cache: an unknown key gives nothing and changes nothing; an expired entry gives
  -- nothing and leaves the list; any other gives its response with the new time of access, and moves
  -- to the front with it.
  pub view-get :
      (now later : ℕ)
      → ((get c k now later).0, view (get c k now later).1) ≡ spec_get k now later (view c)
  unfolding get spec_get use_element
  view-get now later = elim (Option-cases (c.data_ k)) [
    | inl miss ↦ rw (miss, get, spec_get, find-view_miss miss)
    | inr (i, hit) ↦ elim (Bool-cases (is_expired (c.entries i) now)) [
      | inl old ↦
          rw (hit, get, spec_get, find-view_hit i hit, use_element, old) (cc (view-unlink i hit))
      | inr young ↦
          rw (hit, get, spec_get, find-view_hit i hit, use_element, young)
            (cc
              (view-bring_front i (record ((c.entries i).response) { last_accessed = later }) hit))
    ]
  ]
