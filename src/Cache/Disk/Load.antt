-- ===== src/Cache/Disk/Load.antt =====
-- middleware/cache/disk_cache.go: a disk cache on a directory that has files already, and the
-- removal of what has expired.
use httpio.Base.{
  int64_times, ℕ, ◌+◌, ◌-◌, ℤ, pos, negsuc, ◌+ℤ◌, ◌-ℤ◌, Bool, true, false, ◌⊎◌, inl, inr, List, [],
  ◌∷◌, Option, none, some, Bytes, bytes, ltb, drop, length, eq, if◌then◌else◌,
}
use httpio.Http.{Error, wrap}
use httpio.Cache.{CachedResponse}
use httpio.Cache.Disk.{
  DiskCache, System, mkdir_all, read_dir, check, assign, stat_file, open_file, remove_file,
  read_file, forget,
}

-- `strings.HasSuffix(name, ".cache")`
unfoldable pub is_cache_file : Bytes → Bool
is_cache_file name =
    if ltb (length name) 6 then false else eq (drop (length name - 6) name) (bytes ".cache")

module _ {F V : Type 0} (system : System F V) where
  -- The end of a round of `loadIndex`, for a file whose contents have been read.
  unfoldable pub load_entry : Bytes → ℕ → CachedResponse → DiskCache F → V → DiskCache F × V
  load_entry name size r d v =
      let (now, v1) = system.now v in
      if ltb r.expires_at now then ((remove_file system name d).1, v1) else (
        elim (system.parse_url r.request_url) [
          | none ↦ d
          | some key ↦ record d {
            index = assign key name d.index;
            current_size = d.current_size +ℤ pos size;
          }
        ],
        v1,
      )

  -- A round of `loadIndex`.
  unfoldable pub load_file : Bytes → DiskCache F → V → DiskCache F × V
  load_file name d v =
      if is_cache_file name
      then (let (info, d1) = stat_file system name d in
          elim info [
            | none ↦ (d1, v)
            | some size ↦
                let (read, d2) = read_file system name d1 in
                elim read [ none ↦ (d2, v) | some r ↦ load_entry name size r d2 v ]
          ])
      else (d, v)

  unfoldable pub load_files : List (Bytes × Bytes) → DiskCache F → V → DiskCache F × V
  load_files [] d v = (d, v)
  load_files ((name, content) ∷ files) d v =
      let (d1, v1) = load_file name d v in load_files files d1 v1

  -- `loadIndex()`
  unfoldable pub load_index : DiskCache F → V → Option Error × DiskCache F × V
  load_index d v =
      let (failed, d1) = check system read_dir [] d in
      elim failed [
        | some e ↦ (some (wrap (bytes "failed to read cache directory: ") e), d1, v)
        | none ↦
            let (d2, v2) = load_files d1.dir (record d1 { index = []; current_size = pos 0 }) v in
            (none, d2, v2)
      ]

  -- `int64(maxSizeMB) * 1024 * 1024`, in 64 bits.
  abbrev pub megabytes : ℤ → ℤ
  megabytes n = int64_times 1048576 n

  -- `NewDiskCache(basePath, maxSizeMB)`, on a directory with the files.
  unfoldable pub new_disk_cache : List (Bytes × Bytes) → ℤ → F → V → (Error ⊎ DiskCache F) × V
  new_disk_cache dir max_size_mb faults v =
      let (failed, f) = system.fault mkdir_all [] faults in
      elim failed [
        | some e ↦ (inl (wrap (bytes "failed to create cache directory: ") e), v)
        | none ↦
            let d : DiskCache F = record {
              index = [];
              max_disk_size = megabytes max_size_mb;
              current_size = pos 0;
              dir = dir;
              faults = f;
            } in
            let (failed', d', v') = load_index d v in
            (elim failed' [ some e ↦ inl e | none ↦ inr d' ], v')
      ]

  -- A round of `cleanup`: what is gone, cannot be read or has expired is taken out of the index, and
  -- the sizes of the files that are removed are added up.
  unfoldable pub clean_entry : ℕ → Bytes → Bytes → ℕ → DiskCache F → ℕ × DiskCache F
  clean_entry now key filename removed d =
      let (content, d1) = open_file system filename d in
      elim content [
        | none ↦ (removed, forget key d1)
        | some b ↦
            let spoilt = elim (system.decode b) as (λ x. Bool) [
              | none ↦ true
              | some r ↦ ltb r.expires_at now
            ] in
            if spoilt
            then (let (info, d2) = stat_file system filename d1 in
                let d3 = (remove_file system filename d2).1 in
                (
                  elim info as (λ x. ℕ) [ none ↦ removed | some size ↦ removed + size ],
                  forget key d3,
                ))
            else (removed, d1)
      ]

  unfoldable pub clean_entries : ℕ → List (Bytes × Bytes) → ℕ → DiskCache F → ℕ × DiskCache F
  clean_entries now [] removed d = (removed, d)
  clean_entries now ((key, filename) ∷ index) removed d =
      let (removed', d') = clean_entry now key filename removed d in
      clean_entries now index removed' d'

  -- `if c.currentSize < 0 { c.currentSize = 0 }`
  abbrev pub at_least_zero : ℤ → ℤ
  at_least_zero (pos n) = pos n
  at_least_zero (negsuc n) = pos 0

  -- `cleanup()`
  unfoldable pub cleanup : DiskCache F → V → DiskCache F × V
  cleanup d v =
      let (now, v') = system.now v in
      let (removed, d') = clean_entries now d.index 0 d in
      (
        if ltb 0 removed
            then record d' { current_size = at_least_zero (d'.current_size -ℤ pos removed) }
            else d',
        v',
      )
