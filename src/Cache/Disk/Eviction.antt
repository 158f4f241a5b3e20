-- ===== src/Cache/Disk/Eviction.antt =====
-- middleware/cache/disk_cache.go: what eviction subtracts from the counted size has left the directory,
-- where no file operation fails.
use mathlib.Core.Option
use httpio.Base.{
  ℕ, ◌+◌, ◌≤◌, ◌≡◌, refl, ap, Bool-cases, Option-cases, inl, inr, List, [], ◌∷◌, Option, none, some,
  Bytes, length, arith, ltb, ℤ, pos, ◌-ℤ◌, if_either,
}
use httpio.Cache.Disk.{
  DiskCache, System, Operation, stat, find, stat_file, read_file, open_file, remove_file, forget,
}
use httpio.Cache.Disk.Space.{
  EntryInfo, insert_entry, sort_entries, entry_info, entry_infos, cons_some, evict_loop,
  evict_old_entries, ensure_space, is_unlimited, estimated_size, is_over,
}
use httpio.Http.{Error}
use httpio.Cache.{CachedResponse}
use httpio.Cache.Disk.Usage.{Usage, Shrinks-Usage, subtract-Usage}
use httpio.Cache.Disk.Files.{
  total, Shrinks, Shrinks-refl, Shrinks-trans, same_files-Shrinks, remove_file-Removes,
}

-- The file of the entry, as long as it is there, has the size of the entry.
abbrev pub IsAccurate : List (Bytes × Bytes) → EntryInfo → Type 0
IsAccurate dir e = (c : Bytes) → find e.filename dir ≡ some c → length c ≡ e.size

abbrev pub AreAccurate : List (Bytes × Bytes) → List EntryInfo → Type 0
AreAccurate dir [] = Unit {0}
AreAccurate dir (e ∷ es) = IsAccurate dir e × AreAccurate dir es

module _ {F : Type 0} (d d' : DiskCache F) (less : Shrinks d d') where
  pub Shrinks-AreAccurate : (es : List EntryInfo) → AreAccurate d.dir es → AreAccurate d'.dir es
  Shrinks-AreAccurate [] a = a
  Shrinks-AreAccurate (e ∷ es) (a, all) =
      (λ c h. a c (less.files e.filename c h), Shrinks-AreAccurate es all)

insert_entry-AreAccurate :
    (dir : List (Bytes × Bytes)) (e : EntryInfo) (es : List EntryInfo)
    → IsAccurate dir e
    → AreAccurate dir es
    → AreAccurate dir (insert_entry e es)
unfolding insert_entry
insert_entry-AreAccurate dir e [] a all = (a, all)
insert_entry-AreAccurate dir e (x ∷ xs) a (b, all) =
    if_either (AreAccurate dir) (ltb x.last_used e.last_used) _ _
      (b, insert_entry-AreAccurate dir e xs a all) (a, (b, all))

sort_entries-AreAccurate :
    (dir : List (Bytes × Bytes)) (es : List EntryInfo)
    → AreAccurate dir es
    → AreAccurate dir (sort_entries es)
unfolding sort_entries
sort_entries-AreAccurate dir [] all = all
sort_entries-AreAccurate dir (e ∷ es) (a, all) =
    insert_entry-AreAccurate dir e (sort_entries es) a (sort_entries-AreAccurate dir es all)

module _ {F V : Type 0} (system : System F V)
    (fine : (op : Operation) (name : Bytes) (f : F) → (system.fault op name f).0 ≡ none) where
  entry_info-Shrinks :
      (key filename : Bytes) (d : DiskCache F) → Shrinks d (entry_info system key filename d).1
  unfolding entry_info read_file open_file stat_file
  entry_info-Shrinks key filename d = elim (Option-cases (stat_file system filename d).0) [
    | inl n ↦ rw (entry_info, n) (same_files-Shrinks d _ refl refl refl)
    | inr (size, s) ↦ rw (entry_info, s) (same_files-Shrinks d _ refl refl refl)
  ]

  stat_file_size :
      (filename : Bytes) (d : DiskCache F)
      → (stat_file system filename d).0 ≡ Option.map length (find filename d.dir)
  unfolding stat_file
  stat_file_size filename d = rw (fine stat filename d.faults) refl

  cons_some-AreAccurate :
      (key filename : Bytes) (d d' : DiskCache F) (es : List EntryInfo)
      → Shrinks d d'
      → AreAccurate d'.dir es
      → AreAccurate d'.dir (cons_some system (entry_info system key filename d).0 es)
  unfolding entry_info read_file open_file stat_file
  cons_some-AreAccurate key filename d d' es less all = elim (Option-cases (find filename d.dir)) [
    | inl n ↦ rw (entry_info, stat_file_size filename d, n) all
    | inr (c, s) ↦
        let d1 = (stat_file system filename d).1 in
        elim (Option-cases (read_file system filename d1).0) [
          | inl n ↦ rw (entry_info, stat_file_size filename d, s, n) all
          | inr (r, read) ↦
              rw (entry_info, stat_file_size filename d, s, read)
                (
                  λ b h.
                      let there = less.files filename b h in
                      let same : b ≡ c = cc in ap length same,
                  all,
                )
        ]
  ]

  entry_infos-AreAccurate :
      (index : List (Bytes × Bytes)) (d : DiskCache F)
      → Shrinks d (entry_infos system index d).1
        × AreAccurate (entry_infos system index d).1.dir (entry_infos system index d).0
  unfolding entry_infos
  entry_infos-AreAccurate [] d = (Shrinks-refl d, tt)
  entry_infos-AreAccurate ((key, filename) ∷ index) d =
      let d1 = (entry_info system key filename d).1 in
      let rest = entry_infos-AreAccurate index d1 in
      let less =
        Shrinks-trans d d1 (entry_infos system index d1).1 (entry_info-Shrinks key filename d)
          rest.0 in
      (less, cons_some-AreAccurate key filename d _ _ less rest.1)

  removed_total :
      (e : EntryInfo) (d : DiskCache F)
      → IsAccurate d.dir e
      → (remove_file system e.filename d).0 ≡ none
      → total (remove_file system e.filename d).1.dir + e.size ≤ total d.dir
  removed_total e d a n =
      let removal = remove_file-Removes system fine e.filename d in
      elim (Option-cases (find e.filename d.dir)) [
        | inl absent ↦
            let present = removal.succeeds n in absurd (ground (arith, rw absent at present))
        | inr (c, s) ↦ omega (arith, a c s, removal.fewer c s)
      ]

  -- What the loop counts as freed is no more than what is gone.
  evict_loop-frees :
      (es : List EntryInfo) (needed freed : ℕ) (d : DiskCache F)
      → AreAccurate d.dir es
      → Shrinks d (evict_loop system es needed freed d).1
        × (total (evict_loop system es needed freed d).1.dir
              + (evict_loop system es needed freed d).0
            ≤ total d.dir + freed)
  unfolding evict_loop forget
  evict_loop-frees [] needed freed d all = (Shrinks-refl d, omega arith)
  evict_loop-frees (e ∷ es) needed freed d (a, all) =
      elim (Bool-cases (is_over system (d.current_size -ℤ pos freed) needed d)) [
        | inl over ↦
            let d1 = (remove_file system e.filename d).1 in
            let removal = remove_file-Removes system fine e.filename d in
            let same = Shrinks-AreAccurate d d1 removal.shrinks es all in
            elim (Option-cases (remove_file system e.filename d).0) [
              | inl n ↦
                  let rest = evict_loop-frees es needed (freed + e.size) (forget e.key d1) same in
                  rw (evict_loop, over, n)
                    (
                      Shrinks-trans d (forget e.key d1) _
                          (Shrinks-trans d d1 _ removal.shrinks
                            (same_files-Shrinks d1 _ refl refl refl))
                          rest.0,
                      omega (arith, rest.1, removed_total e d a n),
                    )
              | inr (err, s) ↦
                  let rest = evict_loop-frees es needed freed d1 same in
                  rw (evict_loop, over, s)
                    (
                      Shrinks-trans d d1 _ removal.shrinks rest.0,
                      omega (arith, rest.1, removal.shrinks.less),
                    )
            ]
        | inr free ↦ rw (evict_loop, free) (Shrinks-refl d, omega arith)
      ]

  pub evict_old_entries-Usage :
      (limit bound : ℤ) (needed : ℕ) (d : DiskCache F)
      → Usage limit bound d
      → Usage limit bound (evict_old_entries system needed d).1
  unfolding evict_old_entries
  evict_old_entries-Usage limit bound needed d u =
      let (listed, accurate) = entry_infos-AreAccurate d.index d in
      let (entries, d1) = entry_infos system d.index d in
      let (less, gone) =
        evict_loop-frees (sort_entries entries) needed 0 d1
          (sort_entries-AreAccurate d1.dir entries accurate) in
      subtract-Usage limit bound (evict_loop system (sort_entries entries) needed 0 d1).0 d1 _ less
        (omega (arith, gone)) (Shrinks-Usage limit bound d d1 listed u)

  pub ensure_space-Usage :
      (limit bound : ℤ) (r : CachedResponse) (d : DiskCache F)
      → Usage limit bound d
      → Usage limit bound (ensure_space system r d).1
  unfolding ensure_space
  ensure_space-Usage limit bound r d u =
      if_either (λ (x : Option Error × DiskCache F). Usage limit bound x.1)
        (is_unlimited d.max_disk_size) _ _ u
        (if_either (λ (x : Option Error × DiskCache F). Usage limit bound x.1)
          (is_over system d.current_size (estimated_size r) d) _ _
          (evict_old_entries-Usage limit bound (estimated_size r) d u) u)
