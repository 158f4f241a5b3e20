-- ===== src/Cache/Disk/Removal.antt =====
-- middleware/cache/disk_cache.go: the operations that take files away, where no file operation fails.
use httpio.Base.{
  ℕ, ◌+◌, ◌≤◌, ℤ, pos, ◌-ℤ◌, ◌≡◌, refl, negsuc, Option-cases, inl, inr, List, [], ◌∷◌, Option, none,
  some, Bytes, length, arith, ltb, if_either,
}
use httpio.Cache.{CachedResponse}
use httpio.Cache.Disk.{
  DiskCache, System, Operation, stat, open_, find, stat_file, open_file, remove_file, forget,
}
use httpio.Cache.Disk.Calls.{get, get_file, delete, drop_entry, shrunk}
use httpio.Cache.Disk.Load.{at_least_zero, cleanup, clean_entries, clean_entry}
use httpio.Cache.Disk.Files.{
  total, Shrinks, Shrinks-refl, Shrinks-trans, same_files-Shrinks, remove_file-Removes,
}
use httpio.Cache.Disk.Usage.{Usage, Shrinks-Usage, subtract-Usage, subtract_first-Usage}

module _ {F V : Type 0} (system : System F V)
    (fine : (op : Operation) (name : Bytes) (f : F) → (system.fault op name f).0 ≡ none) where
  drop_entry-Shrinks :
      (key filename : Bytes) (d : DiskCache F) → Shrinks d (drop_entry system key filename d)
  unfolding forget
  drop_entry-Shrinks key filename d =
      Shrinks-trans d (forget key d) _ (same_files-Shrinks d _ refl refl refl)
        (remove_file-Removes system fine filename (forget key d)).shrinks

  get_file-Shrinks :
      (key filename : Bytes) (d : DiskCache F) (v : V)
      → Shrinks d (get_file system key filename d v).1
  unfolding get_file open_file forget
  get_file-Shrinks key filename d v =
      let d1 = (open_file system filename d).1 in
      let opened : Shrinks d d1 = same_files-Shrinks d d1 refl refl refl in
      let dropped = Shrinks-trans d d1 _ opened (drop_entry-Shrinks key filename d1) in
      elim (Option-cases (open_file system filename d).0) [
        | inl n ↦ rw (get_file, n) (same_files-Shrinks d _ refl refl refl)
        | inr (b, s) ↦ elim (Option-cases (system.decode b)) [
          | inl n ↦ rw (get_file, s, n) dropped
          | inr (r, decoded) ↦
              rw (get_file, s, decoded)
                (if_either (λ (x : Option CachedResponse × DiskCache F × V). Shrinks d x.1)
                  (ltb r.expires_at (system.now v).0) _ _ dropped opened)
        ]
      ]

  pub get-Usage :
      (limit bound : ℤ) (key : Bytes) (d : DiskCache F) (v : V)
      → Usage limit bound d
      → Usage limit bound (get system key d v).1
  unfolding get
  get-Usage limit bound key d v u = elim (Option-cases (find key d.index)) [
    | inl n ↦ rw (get, n) u
    | inr (filename, s) ↦
        rw (get, s) (Shrinks-Usage limit bound d _ (get_file-Shrinks key filename d v) u)
  ]

  delete_file-Usage :
      (limit bound : ℤ) (filename : Bytes) (d : DiskCache F)
      → Usage limit bound d
      → Usage limit bound
          (remove_file system filename (record (stat_file system filename d).1 {
            current_size = shrunk (stat_file system filename d).0 d.current_size;
          })).1
  unfolding stat_file
  delete_file-Usage limit bound filename d u =
      let f = (system.fault stat filename d.faults).1 in
      elim (Option-cases (find filename d.dir)) [
        | inl n ↦
            let d1 : DiskCache F = record d { faults = f } in
            rw (fine stat filename d.faults, n)
              (Shrinks-Usage limit bound d _
                (Shrinks-trans d d1 _ (same_files-Shrinks d d1 refl refl refl)
                  (remove_file-Removes system fine filename d1).shrinks)
                u)
        | inr (c, s) ↦
            let d1 : DiskCache F = record d {
              current_size = d.current_size -ℤ pos (length c);
              faults = f;
            } in
            let removal = remove_file-Removes system fine filename d1 in
            rw (fine stat filename d.faults, s)
              (subtract_first-Usage limit bound (length c) d d1 _ refl refl removal.shrinks
                (removal.fewer c s) u)
      ]

  pub delete-Usage :
      (limit bound : ℤ) (key : Bytes) (d : DiskCache F)
      → Usage limit bound d
      → Usage limit bound (delete system key d).1
  unfolding delete forget stat_file
  delete-Usage limit bound key d u = elim (Option-cases (find key d.index)) [
    | inl n ↦ rw (delete, n) u
    | inr (filename, s) ↦
        rw (delete, s)
          (delete_file-Usage limit bound filename (forget key d)
            (Shrinks-Usage limit bound d _ (same_files-Shrinks d _ refl refl refl) u))
  ]

  -- The step takes no more files away than it counts.
  abbrev Frees : ℕ → DiskCache F → ℕ × DiskCache F → Type 0
  Frees removed d after = Shrinks d after.1 × (total after.1.dir + after.0 ≤ total d.dir + removed)

  -- `cleanup` removes a file.
  abbrev remove_spoilt : Bytes → Bytes → ℕ → DiskCache F → ℕ × DiskCache F
  remove_spoilt key filename removed d =
      let (info, d') = stat_file system filename d in
      (
        elim info as (λ x. ℕ) [ none ↦ removed | some size ↦ removed + size ],
        forget key (remove_file system filename d').1,
      )

  remove_spoilt-Frees :
      (key filename : Bytes) (removed : ℕ) (d : DiskCache F)
      → Frees removed d (remove_spoilt key filename removed d)
  unfolding stat_file forget
  remove_spoilt-Frees key filename removed d =
      let d1 : DiskCache F = record d { faults = (system.fault stat filename d.faults).1 } in
      let d2 = (remove_file system filename d1).1 in
      let removal = remove_file-Removes system fine filename d1 in
      let less = Shrinks-trans d d1 _ (same_files-Shrinks d d1 refl refl refl) (
        Shrinks-trans d1 d2 (forget key d2) removal.shrinks
          (same_files-Shrinks d2 _ refl refl refl)) in
      elim (Option-cases (find filename d.dir)) [
        | inl n ↦ (
          less,
          rw (remove_spoilt, fine stat filename d.faults, n) (omega (arith, removal.shrinks.less)),
        )
        | inr (c, s) ↦ (
          less,
          rw (remove_spoilt, fine stat filename d.faults, s) (omega (arith, removal.fewer c s)),
        )
      ]

  clean_entry-Frees :
      (now : ℕ) (key filename : Bytes) (removed : ℕ) (d : DiskCache F)
      → Frees removed d (clean_entry system now key filename removed d)
  unfolding clean_entry forget open_file
  clean_entry-Frees now key filename removed d =
      let d1 : DiskCache F = record d { faults = (system.fault open_ filename d.faults).1 } in
      let kept : Frees removed d (removed, d1) =
        (same_files-Shrinks d d1 refl refl refl, omega arith) in
      let (less, gone) = remove_spoilt-Frees key filename removed d1 in
      let spoilt : Frees removed d (remove_spoilt key filename removed d1) =
        (Shrinks-trans d d1 _ (kept.0) less, gone) in
      elim (Option-cases (open_file system filename d).0) [
        | inl n ↦ rw (clean_entry, n) (same_files-Shrinks d _ refl refl refl, omega arith)
        | inr (b, s) ↦ elim (Option-cases (system.decode b)) [
          | inl n ↦ rw (clean_entry, s, n) spoilt
          | inr (r, decoded) ↦
              rw (clean_entry, s, decoded)
                (if_either (Frees removed d) (ltb r.expires_at now) _ _ spoilt kept)
        ]
      ]

  clean_entries-Frees :
      (now : ℕ) (index : List (Bytes × Bytes)) (removed : ℕ) (d : DiskCache F)
      → Frees removed d (clean_entries system now index removed d)
  unfolding clean_entries
  clean_entries-Frees now [] removed d = (Shrinks-refl d, omega arith)
  clean_entries-Frees now ((key, filename) ∷ index) removed d =
      let (less, gone) = clean_entry-Frees now key filename removed d in
      let (removed', d') = clean_entry system now key filename removed d in
      let (less', gone') = clean_entries-Frees now index removed' d' in
      (Shrinks-trans d d' _ less less', omega (arith, gone, gone'))

  at_least_zero-Usage :
      (limit bound : ℤ) (x : ℤ) (d : DiskCache F)
      → Usage limit bound (record d { current_size = x })
      → Usage limit bound (record d { current_size = at_least_zero system x })
  at_least_zero-Usage limit bound (pos n) d u = u
  at_least_zero-Usage limit bound (negsuc n) d u = absurd (omega (arith, u.covered))

  pub cleanup-Usage :
      (limit bound : ℤ) (d : DiskCache F) (v : V)
      → Usage limit bound d
      → Usage limit bound (cleanup system d v).0
  unfolding cleanup
  cleanup-Usage limit bound d v u =
      let now = (system.now v).0 in
      let (removed, d') = clean_entries system now d.index 0 d in
      let (less, gone) = clean_entries-Frees now d.index 0 d in
      if_either (Usage limit bound) (ltb 0 removed) _ _
        (at_least_zero-Usage limit bound _ d'
          (subtract-Usage limit bound removed d d' less (omega (arith, gone)) u))
        (Shrinks-Usage limit bound d d' less u)
