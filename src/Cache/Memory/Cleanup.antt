-- ===== src/Cache/Memory/Cleanup.antt =====
-- The periodic cleanup: it takes out the expired entries, and no other.
use httpio.Base.{
  if◌then◌else◌, ℕ, ◌≡◌, refl, subst, ◌⊎◌, inl, inr, ◌≢◌, ◌↔◌, true, false, List, [], ◌∷◌, arith,
  In, Bool-cases,
}
use httpio.Cache.Memory.{MemoryCache, is_expired, unlink, cleanup_from, cleanup}
use httpio.Cache.Memory.Invariant.{
  IsValid, Distinct, unlink-IsValid, remove-In, In-remove, remove-not_In,
}

abbrev tidied : MemoryCache → ℕ → ℕ → MemoryCache
tidied c i now = if is_expired (c.entries i) now then unlink c (c.entries i).key i else c

tidied-IsValid :
    (c : MemoryCache) (i now : ℕ) → IsValid c → In i c.lru_list → IsValid (tidied c i now)
tidied-IsValid c i now v m = elim (Bool-cases (is_expired (c.entries i) now)) [
  | inl old ↦ rw old (unlink-IsValid c (c.entries i).key i v (v.indexed i m))
  | inr young ↦ rw young v
]

tidied-entries : (c : MemoryCache) (i now : ℕ) → (tidied c i now).entries ≡ c.entries
unfolding unlink
tidied-entries c i now = ground arith

tidied-In :
    (c : MemoryCache) (i j now : ℕ)
    → In j c.lru_list
    → (j ≢ i) ⊎ (is_expired (c.entries j) now ≡ false)
    → In j (tidied c i now).lru_list
unfolding unlink
tidied-In c i j now m h = elim (Bool-cases (is_expired (c.entries i) now)) [
  | inr young ↦ rw young m
  | inl old ↦
      rw old (In-remove i j c.lru_list m (elim h [ inl n ↦ n | inr y ↦ λ e. cc (old, y, e) ]))
]

not_In-tidied :
    (c : MemoryCache) (i now : ℕ)
    → IsValid c
    → is_expired (c.entries i) now ≡ true
    → ¬ In i (tidied c i now).lru_list
unfolding unlink
not_In-tidied c i now v old = rw old (remove-not_In i c.lru_list v.distinct)

In-tidied : (c : MemoryCache) (i j now : ℕ) → In j (tidied c i now).lru_list → In j c.lru_list
unfolding unlink
In-tidied c i j now m = ground (arith, remove-In i j c.lru_list)

cleanup_from-IsValid :
    (is : List ℕ) (c : MemoryCache) (now : ℕ)
    → IsValid c
    → Distinct is
    → ((i : ℕ) → In i is → In i c.lru_list)
    → IsValid (cleanup_from is c now)
unfolding cleanup_from
cleanup_from-IsValid [] c now v d h = v
cleanup_from-IsValid (i ∷ is) c now v d h =
    cleanup_from-IsValid is (tidied c i now) now (tidied-IsValid c i now v (h i (inl refl))) d.1
      (λ j m. tidied-In c i j now (h j (inr m)) (inl (λ e. d.0 (subst (λ x. In x is) e m))))

cleanup_from-kept :
    (is : List ℕ) (c : MemoryCache) (now j : ℕ)
    → In j c.lru_list
    → is_expired (c.entries j) now ≡ false
    → In j (cleanup_from is c now).lru_list
unfolding cleanup_from
cleanup_from-kept [] c now j m y = m
cleanup_from-kept (i ∷ is) c now j m y =
    cleanup_from-kept is (tidied c i now) now j (tidied-In c i j now m (inr y))
      (rw (tidied-entries c i now) y)

cleanup_from-In :
    (is : List ℕ) (c : MemoryCache) (now j : ℕ)
    → In j (cleanup_from is c now).lru_list
    → In j c.lru_list
unfolding cleanup_from
cleanup_from-In [] c now j m = m
cleanup_from-In (i ∷ is) c now j m =
    In-tidied c i j now (cleanup_from-In is (tidied c i now) now j m)

cleanup_from-young :
    (is : List ℕ) (c : MemoryCache) (now j : ℕ)
    → IsValid c
    → Distinct is
    → ((i : ℕ) → In i is → In i c.lru_list)
    → In j is
    → In j (cleanup_from is c now).lru_list
    → is_expired (c.entries j) now ≡ false
unfolding cleanup_from
cleanup_from-young [] c now j v d h i m = absurd i
cleanup_from-young (i ∷ is) c now j v d h (inl e) m =
    elim (Bool-cases (is_expired (c.entries i) now)) [
      | inr young ↦ rw e young
      | inl old ↦ absurd (
          not_In-tidied c i now v old (
            subst (λ x. In x (tidied c i now).lru_list) e
              (cleanup_from-In is (tidied c i now) now j m)))
    ]
cleanup_from-young (i ∷ is) c now j v d h (inr k) m = rw (← tidied-entries c i now) (
    cleanup_from-young is (tidied c i now) now j (tidied-IsValid c i now v (h i (inl refl))) d.1
      (λ j m. tidied-In c i j now (h j (inr m)) (inl (λ e. d.0 (subst (λ x. In x is) e m)))) k m)

-- `cleanup` keeps the invariant.
pub cleanup-IsValid : (c : MemoryCache) (now : ℕ) → IsValid c → IsValid (cleanup c now)
unfolding cleanup
cleanup-IsValid c now v = cleanup_from-IsValid c.lru_list c now v v.distinct (λ i m. m)

-- After `cleanup` an element is in the list exactly if it was before and its entry has not expired.
pub In-cleanup :
    (c : MemoryCache) (now j : ℕ)
    → IsValid c
    → In j (cleanup c now).lru_list ↔ (In j c.lru_list × (is_expired (c.entries j) now ≡ false))
unfolding cleanup
In-cleanup c now j v = (
  λ m.
      let listed = cleanup_from-In c.lru_list c now j m in
      (listed, cleanup_from-young c.lru_list c now j v v.distinct (λ i k. k) listed m),
  λ (m, y). cleanup_from-kept c.lru_list c now j m y,
)
