-- ===== src/Cache/Disk/Bounds.antt =====
-- middleware/cache/disk_cache.go: how much the cache counts as used.
use httpio.Base.{ℕ, pos, ◌≤ℤ◌, ◌+ℤ◌, ◌≡◌, ◌⊎◌, inl, inr, true, false, none, Bool-cases, arith}
use httpio.Cache.{CachedResponse}
use httpio.Cache.Disk.{DiskCache, System}
use httpio.Cache.Disk.Space.{is_over, is_unlimited, evict_old_entries, ensure_space, estimated_size}

module _ {F V : Type 0} (system : System F V) where
  -- The size counted leaves room for so many bytes.
  abbrev pub HasRoom : ℕ → DiskCache F → Type 0
  HasRoom needed d = d.current_size +ℤ pos needed ≤ℤ d.max_disk_size

  is_over-HasRoom :
      (needed : ℕ) (d : DiskCache F)
      → is_over system d.current_size needed d ≡ false
      → HasRoom needed d
  is_over-HasRoom needed d h = ground arith

  evict_old_entries-HasRoom :
      (needed : ℕ) (d : DiskCache F)
      → (evict_old_entries system needed d).0 ≡ none
      → HasRoom needed (evict_old_entries system needed d).1
  unfolding evict_old_entries
  evict_old_entries-HasRoom needed d h =
      is_over-HasRoom needed (evict_old_entries system needed d).1 (ground arith)

  -- Where `ensureSpace` succeeds, the cache has no limit, or what it counts as used leaves room
  -- under the limit for the estimated size of the response, whether or not entries had to go.
  pub ensure_space-HasRoom :
      (r : CachedResponse) (d : DiskCache F)
      → (ensure_space system r d).0 ≡ none
      → (is_unlimited d.max_disk_size ≡ true)
        ⊎ HasRoom (estimated_size r) (ensure_space system r d).1
  unfolding ensure_space
  ensure_space-HasRoom r d h = elim (Bool-cases (is_unlimited d.max_disk_size)) [
    | inl u ↦ inl u
    | inr n ↦ elim (Bool-cases (is_over system d.current_size (estimated_size r) d)) [
      | inl over ↦
          inr (rw (n, over) (evict_old_entries-HasRoom (estimated_size r) d (rw (n, over) at h)))
      | inr free ↦ inr (rw (n, free) (is_over-HasRoom (estimated_size r) d free))
    ]
  ]
