-- ===== src/Cache/Disk/Calls.antt =====
-- middleware/cache/disk_cache.go: the operations of the disk cache.
use httpio.Base.{
  ℕ, ℤ, pos, ◌+ℤ◌, ◌-ℤ◌, ◌⊎◌, inl, inr, List, [], ◌∷◌, Option, none, some, Bytes, bytes, ltb,
  if◌then◌else◌,
}
use httpio.Http.{Error, wrap}
use httpio.Cache.{CachedResponse}
use httpio.Cache.Disk.{
  DiskCache, System, read_dir, check, create_temp, write, rename, find, assign, key_to_filename,
  stat_file, open_file, remove_file, forget,
}
use httpio.Cache.Disk.Space.{ensure_space}

-- The size of a file is counted, or no longer counted, where `os.Stat` has given it.
abbrev pub grown : Option ℕ → ℤ → ℤ
grown none n = n
grown (some size) n = n +ℤ pos size

abbrev pub shrunk : Option ℕ → ℤ → ℤ
shrunk none n = n
shrunk (some size) n = n -ℤ pos size

module _ {F V : Type 0} (system : System F V) where
  -- An entry that is not served goes, with its file.
  abbrev pub drop_entry : Bytes → Bytes → DiskCache F → DiskCache F
  drop_entry key filename d = (remove_file system filename (forget key d)).1

  -- `Get`, for a key of the index; the clock is read once or twice.
  unfoldable pub get_file :
      Bytes → Bytes → DiskCache F → V → Option CachedResponse × DiskCache F × V
  get_file key filename d v =
      let (content, d1) = open_file system filename d in
      elim content [
        | none ↦ (none, forget key d1, v)
        | some b ↦ elim (system.decode b) [
          | none ↦ (none, drop_entry key filename d1, v)
          | some r ↦
              let (now, v1) = system.now v in
              if ltb r.expires_at now
              then (none, drop_entry key filename d1, v1)
              else let (later, v2) = system.now v1 in
                (some (record r { last_accessed = later }), d1, v2)
        ]
      ]

  -- `Get(ctx, key)`
  unfoldable pub get : Bytes → DiskCache F → V → Option CachedResponse × DiskCache F × V
  get key d v = elim (find key d.index) [
    | none ↦ (none, d, v)
    | some filename ↦ get_file key filename d v
  ]

  -- `os.Rename(tempPath, filePath)` and what follows it.
  unfoldable pub publish : Bytes → Bytes → Bytes → DiskCache F → Option Error × DiskCache F
  publish key filename content d =
      let (failed, d1) = check system rename filename d in
      elim failed [
        | some e ↦ (some (wrap (bytes "failed to save cache file: ") e), d1)
        | none ↦
            let d2 : DiskCache F = record d1 {
              dir = assign filename content d1.dir;
              index = assign key filename d1.index;
            } in
            let (info, d3) = stat_file system filename d2 in
            (none, record d3 { current_size = grown info d3.current_size })
      ]

  -- The temporary file: it is made and written, and is gone when `Set` returns.
  unfoldable pub write_temp : CachedResponse → DiskCache F → (Error ⊎ Bytes) × DiskCache F
  write_temp response d =
      let (failed, d1) = check system create_temp (bytes "temp_cache_") d in
      elim failed [
        | some e ↦ (inl (wrap (bytes "failed to create temp file: ") e), d1)
        | none ↦ elim (system.encode response) [
          | inl e ↦ (inl (wrap (bytes "failed to encode response: ") e), d1)
          | inr content ↦
              let (failed', d2) = check system write (bytes "temp_cache_") d1 in
              (
                elim failed' [
                  | some e ↦ inl (wrap (bytes "failed to encode response: ") e)
                  | none ↦ inr content
                ],
                d2,
              )
        ]
      ]

  -- `Set(ctx, key, response)`
  unfoldable pub set : Bytes → CachedResponse → DiskCache F → Option Error × DiskCache F
  set key response d =
      let filename = key_to_filename system key in
      let (full, d1) = ensure_space system response d in
      elim full [
        | some e ↦ (some e, d1)
        | none ↦
            let (written, d2) = write_temp response d1 in
            elim written [ inl e ↦ (some e, d2) | inr content ↦ publish key filename content d2 ]
      ]

  -- `Delete(ctx, key)`
  unfoldable pub delete : Bytes → DiskCache F → Option Error × DiskCache F
  delete key d = elim (find key d.index) [
    | none ↦ (none, d)
    | some filename ↦
        let (info, d1) = stat_file system filename (forget key d) in
        let d2 : DiskCache F = record d1 { current_size = shrunk info d1.current_size } in
        remove_file system filename d2
  ]

  -- `Close()`
  unfoldable pub close : DiskCache F → Option Error × DiskCache F
  close d = (none, d)

  -- The files are removed one by one; an error is printed.
  unfoldable pub remove_files : List (Bytes × Bytes) → DiskCache F → DiskCache F
  remove_files [] d = d
  remove_files ((name, content) ∷ files) d = remove_files files (remove_file system name d).1

  -- `Clear(ctx)`
  unfoldable pub clear : DiskCache F → Option Error × DiskCache F
  clear d =
      let (failed, d1) = check system read_dir [] (record d { index = [] }) in
      elim failed [
        | some e ↦ (some (wrap (bytes "failed to read cache directory: ") e), d1)
        | none ↦ (none, record (remove_files d1.dir d1) { current_size = pos 0 })
      ]
