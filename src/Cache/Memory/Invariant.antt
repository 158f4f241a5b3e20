-- ===== src/Cache/Memory/Invariant.antt =====
-- The invariant of the in-memory cache: the map and the recency list agree.
use httpio.Base.{
  ℕ, ◌+◌, ◌≤◌, ◌<◌, ◌≡◌, refl, sym, ap, ◌∙◌, subst, ◌⊎◌, inl, inr, ◌≢◌, ◌↔◌, true, List, [], ◌∷◌,
  Option, none, some, arith, ◌==◌, Bytes, eq, eq_iff, eq_refl, length, In, Bool-cases, Option-cases,
}
use httpio.Cache.{CachedResponse}
use httpio.Cache.Memory.{
  CacheEntry, MemoryCache, assign, write, member, remove, move_to_front, back, unlink, bring_front,
  evict_oldest, push_front,
}

abbrev pub Distinct : List ℕ → Type 0
Distinct [] = Unit {0}
Distinct (i ∷ is) = (¬ In i is) × Distinct is

-- The elements of the list are the ones that the map names, each under the key of its entry; they
-- are distinct, and no more than the capacity.
pub record IsValid (c : MemoryCache) : Type 0 where
  pub room : 0 < c.capacity
  pub bounded : length c.lru_list ≤ c.capacity
  pub distinct : Distinct c.lru_list
  pub made : (i : ℕ) → In i c.lru_list → i < c.next_id
  pub listed : (k : Bytes) (i : ℕ) → c.data_ k ≡ some i → In i c.lru_list × ((c.entries i).key ≡ k)
  pub indexed : (i : ℕ) → In i c.lru_list → c.data_ (c.entries i).key ≡ some i

pub remove-In : (i j : ℕ) (l : List ℕ) → In j (remove i l) → In j l
unfolding remove
remove-In i j [] h = h
remove-In i j (x ∷ l) h = ground (arith, remove-In i j l)

pub In-remove : (i j : ℕ) (l : List ℕ) → In j l → j ≢ i → In j (remove i l)
unfolding remove
In-remove i j [] h n = h
In-remove i j (x ∷ l) h n = ground (arith, In-remove i j l)

pub remove-Distinct : (i : ℕ) (l : List ℕ) → Distinct l → Distinct (remove i l)
unfolding remove
remove-Distinct i [] d = d
remove-Distinct i (x ∷ l) d = ground (arith, remove-Distinct i l d.1, remove-In i x l)

pub remove-not_In : (i : ℕ) (l : List ℕ) → Distinct l → ¬ In i (remove i l)
unfolding remove
remove-not_In i [] d h = h
remove-not_In i (x ∷ l) d h = ground (arith, remove-not_In i l d.1)

pub length-remove-le : (i : ℕ) (l : List ℕ) → length (remove i l) ≤ length l
unfolding remove
length-remove-le i [] = omega arith
length-remove-le i (x ∷ l) = ground (arith, length-remove-le i l)

pub length-remove : (i : ℕ) (l : List ℕ) → In i l → length (remove i l) + 1 ≡ length l
unfolding remove
length-remove i [] h = absurd h
length-remove i (x ∷ l) h = ground (arith, length-remove i l)

pub member_iff : (i : ℕ) (l : List ℕ) → (member i l ≡ true) ↔ In i l
unfolding member
member_iff i [] = (λ h. cc, λ h. absurd h)
member_iff i (x ∷ l) = ground (arith, member_iff i l)

pub move_to_front_of_In : (i : ℕ) (l : List ℕ) → In i l → move_to_front i l ≡ i ∷ remove i l
unfolding move_to_front
move_to_front_of_In i l h = rw ((member_iff i l).1 h)

pub assign_self : (k : Bytes) (e : Option ℕ) (m : Bytes → Option ℕ) → assign k e m k ≡ e
unfolding assign
assign_self k e m = ground (arith, eq_refl k)

pub assign-ne : (k q : Bytes) (e : Option ℕ) (m : Bytes → Option ℕ) → k ≢ q → assign k e m q ≡ m q
unfolding assign
assign-ne k q e m n = ground (arith, eq_iff k q)

pub Bytes-cases : (s t : Bytes) → (s ≡ t) ⊎ (s ≢ t)
Bytes-cases s t = elim (Bool-cases (eq s t)) [
  | inl same ↦ inl ((eq_iff s t).0 same)
  | inr other ↦ inr (λ e. cc (other, (eq_iff s t).1 e))
]

-- Taking out a listed element, with its key.
pub unlink-IsValid :
    (c : MemoryCache) (k : Bytes) (i : ℕ) → IsValid c → c.data_ k ≡ some i → IsValid (unlink c k i)
unfolding unlink
unlink-IsValid c k i v e = record {
  room = v.room;
  bounded = omega (arith, length-remove-le i c.lru_list, v);
  distinct = remove-Distinct i c.lru_list v.distinct;
  made = λ j h. v.made j (remove-In i j c.lru_list h);
  listed = λ q j h. elim (Bytes-cases k q) [
    | inl same ↦ absurd (cc (h, assign_self k none c.data_, same))
    | inr other ↦
        let found : c.data_ q ≡ some j = sym (assign-ne k q none c.data_ other) ∙ h in
        let (listed, key) = v.listed q j found in
        (
          In-remove i j c.lru_list listed (λ same.
              other (sym (v.listed k i e).1 ∙ ap (λ x. (c.entries x).key) (sym same) ∙ key)),
          key,
        )
  ];
  indexed = λ j h.
      let listed = remove-In i j c.lru_list h in
      assign-ne k (c.entries j).key none c.data_ (λ same.
        let found : c.data_ k ≡ some j = rw same (v.indexed j listed) in
        let clash : i ≡ j = cc (e, found) in
        remove-not_In i c.lru_list v.distinct
          (subst (λ x. In x (remove i c.lru_list)) (sym clash) h))
      ∙ v.indexed j listed;
}

pub write-key :
    (i : ℕ) (r : CachedResponse) (m : ℕ → CacheEntry) (j : ℕ)
    → (write i (record { key = (m i).key; response = r }) m j).key ≡ (m j).key
unfolding write
write-key i r m j = ground arith

pub front-In : (i j : ℕ) (l : List ℕ) → In i l → In j (i ∷ remove i l) → In j l
front-In i j l h (inl e) = subst (λ x. In x l) (sym e) h
front-In i j l h (inr k) = remove-In i j l k

pub In-front : (i j : ℕ) (l : List ℕ) → In j l → In j (i ∷ remove i l)
In-front i j l h = elim (Bool-cases (j == i)) [
  | inl same ↦ inl (ground arith)
  | inr other ↦ inr (In-remove i j l h (ground arith))
]

-- Moving a listed element to the front and changing its response.
pub bring_front-IsValid :
    (c : MemoryCache) (i : ℕ) (r : CachedResponse)
    → IsValid c
    → In i c.lru_list
    → IsValid (bring_front c i r)
unfolding bring_front
bring_front-IsValid c i r v h = record {
  room = v.room;
  bounded =
      rw (move_to_front_of_In i c.lru_list h) (omega (arith, length-remove i c.lru_list h, v));
  distinct =
      rw (move_to_front_of_In i c.lru_list h)
        (remove-not_In i c.lru_list v.distinct, remove-Distinct i c.lru_list v.distinct);
  made = λ j m. v.made j (back_to j m);
  listed = λ k j e. (
    rw (move_to_front_of_In i c.lru_list h) (In-front i j c.lru_list (v.listed k j e).0),
    write-key i r c.entries j ∙ (v.listed k j e).1,
  );
  indexed = λ j m. ap c.data_ (write-key i r c.entries j) ∙ v.indexed j (back_to j m);
}
  where
    back_to : (j : ℕ) → In j (move_to_front i c.lru_list) → In j c.lru_list
    back_to j m = front-In i j c.lru_list h (subst (In j) (move_to_front_of_In i c.lru_list h) m)

pub write-ne : (i : ℕ) (e : CacheEntry) (m : ℕ → CacheEntry) (j : ℕ) → i ≢ j → write i e m j ≡ m j
unfolding write
write-ne i e m j n = ground arith

pub write_self : (i : ℕ) (e : CacheEntry) (m : ℕ → CacheEntry) → write i e m i ≡ e
unfolding write
write_self i e m = ground arith

-- A new element under a key that the map does not have.
pub push_front-IsValid :
    (c : MemoryCache) (k : Bytes) (r : CachedResponse)
    → IsValid c
    → c.data_ k ≡ none
    → length c.lru_list < c.capacity
    → IsValid (push_front c k r)
unfolding push_front
push_front-IsValid c k r v absent free = record {
  room = v.room;
  bounded = omega arith;
  distinct = (λ m. absurd (omega (arith, v.made c.next_id m)), v.distinct);
  made = λ j m. elim m [ inl e ↦ omega arith | inr m' ↦ omega (arith, v.made j m') ];
  listed = λ q j e. elim (Bytes-cases k q) [
    | inl same ↦
        let here : c.next_id ≡ j = cc (e, assign_self k (some c.next_id) c.data_, same) in
        (
          inl (sym here),
          ap (λ x. (write c.next_id entry c.entries x).key) (sym here)
              ∙ ap (λ (x : CacheEntry). x.key) (write_self c.next_id entry c.entries)
              ∙ same,
        )
    | inr other ↦
        let found : c.data_ q ≡ some j = sym (assign-ne k q (some c.next_id) c.data_ other) ∙ e in
        let (m, key) = v.listed q j found in (inr m, ap (λ (x : CacheEntry). x.key) (old j m) ∙ key)
  ];
  indexed = λ j m. elim m [
    | inl e ↦
        rw e (rw (write_self c.next_id entry c.entries) (assign_self k (some c.next_id) c.data_))
    | inr m' ↦ rw (old j m') (
        assign-ne k (c.entries j).key (some c.next_id) c.data_
          (λ same. cc (absent, same, v.indexed j m'))
        ∙ v.indexed j m')
  ];
}
  where
    entry : CacheEntry
    entry = record { key = k; response = r }

    old : (j : ℕ) → In j c.lru_list → write c.next_id entry c.entries j ≡ c.entries j
    old j m = write-ne c.next_id entry c.entries j (λ e. absurd (omega (arith, v.made j m, e)))

pub back-In : (l : List ℕ) (i : ℕ) → back l ≡ some i → In i l
unfolding back
back-In [] i e = cc
back-In (j ∷ []) i e = inl (cc)
back-In (j ∷ k ∷ l) i e = inr (back-In (k ∷ l) i e)

pub back-none : (l : List ℕ) → back l ≡ none → l ≡ []
unfolding back
back-none [] e = refl
back-none (j ∷ []) e = cc
back-none (j ∷ k ∷ l) e = cc (back-none (k ∷ l) e)

pub evict_oldest-IsValid : (c : MemoryCache) → IsValid c → IsValid (evict_oldest c)
unfolding evict_oldest
evict_oldest-IsValid c v = elim (Option-cases (back c.lru_list)) [
  | inl none' ↦ rw (none', evict_oldest) v
  | inr (i, last) ↦
      rw (last, evict_oldest)
        (unlink-IsValid c (c.entries i).key i v (v.indexed i (back-In c.lru_list i last)))
]
