-- ===== src/Cache/Disk/Space.antt =====
-- middleware/cache/disk_cache.go: the space that the cache takes, and eviction.
use httpio.Base.{
  ℕ, ◌+◌, ℤ, pos, ◌+ℤ◌, ◌-ℤ◌, ltb_ℤ, Bool, true, false, List, [], ◌∷◌, Option, none, some, Bytes,
  bytes, ltb, length, if◌then◌else◌,
}
use httpio.Http.{Error, errorf, Header}
use httpio.Cache.{CachedResponse}
use httpio.Cache.Disk.{DiskCache, System, stat_file, read_file, remove_file, forget}

-- `type entryInfo`
pub record EntryInfo : Type 0 where
  pub key : Bytes
  pub filename : Bytes
  pub last_used : ℕ
  pub size : ℕ

abbrev lengths : List Bytes → ℕ
lengths [] = 0
lengths (v ∷ vs) = length v + lengths vs

unfoldable pub header_size : Header → ℕ
header_size [] = 0
header_size ((k, vs) ∷ h) = length k + lengths vs + header_size h

unfoldable pub estimated_size : CachedResponse → ℕ
unfolding header_size
estimated_size r = length r.body + header_size r.response.header + 1024

-- `sort.Slice` by `lastUsed.Before`; entries of one time may come in any order, here in the list's.
unfoldable pub insert_entry : EntryInfo → List EntryInfo → List EntryInfo
insert_entry e [] = e ∷ []
insert_entry e (x ∷ xs) = if ltb x.last_used e.last_used then x ∷ insert_entry e xs else e ∷ x ∷ xs

unfoldable pub sort_entries : List EntryInfo → List EntryInfo
sort_entries [] = []
sort_entries (e ∷ es) = insert_entry e (sort_entries es)

-- `c.maxDiskSize <= 0`
abbrev pub is_unlimited : ℤ → Bool
is_unlimited n = if ltb_ℤ (pos 0) n then false else true

module _ {F V : Type 0} (system : System F V) where
  -- One round of the loop over the index: files that cannot be read are left out.
  unfoldable pub entry_info : Bytes → Bytes → DiskCache F → Option EntryInfo × DiskCache F
  entry_info key filename d =
      let (info, d1) = stat_file system filename d in
      elim info [
        | none ↦ (none, d1)
        | some size ↦
            let (read, d2) = read_file system filename d1 in
            (
              elim read [
                | none ↦ none
                | some r ↦ some (record {
                  key = key;
                  filename = filename;
                  last_used = r.last_accessed;
                  size = size;
                })
              ],
              d2,
            )
      ]

  abbrev pub cons_some : Option EntryInfo → List EntryInfo → List EntryInfo
  cons_some none es = es
  cons_some (some e) es = e ∷ es

  unfoldable pub entry_infos : List (Bytes × Bytes) → DiskCache F → List EntryInfo × DiskCache F
  entry_infos [] d = ([], d)
  entry_infos ((key, filename) ∷ index) d =
      let (e, d1) = entry_info key filename d in
      let (es, d2) = entry_infos index d1 in (cons_some e es, d2)

  -- `c.currentSize + neededSpace > c.maxDiskSize`
  abbrev pub is_over : ℤ → ℕ → DiskCache F → Bool
  is_over current needed d = ltb_ℤ d.max_disk_size (current +ℤ pos needed)

  -- The loop that removes the entries, the least recently used first.
  unfoldable pub evict_loop : List EntryInfo → ℕ → ℕ → DiskCache F → ℕ × DiskCache F
  evict_loop [] needed freed d = (freed, d)
  evict_loop (e ∷ es) needed freed d = elim (is_over (d.current_size -ℤ pos freed) needed d) [
    | false ↦ (freed, d)
    | true ↦
        let (failed, d') = remove_file system e.filename d in
        elim failed [
          | none ↦ evict_loop es needed (freed + e.size) (forget e.key d')
          | some _ ↦ evict_loop es needed freed d'
        ]
  ]

  abbrev not_enough : Error
  not_enough = errorf (bytes "not enough space available in cache after eviction")

  unfoldable pub evict_old_entries : ℕ → DiskCache F → Option Error × DiskCache F
  evict_old_entries needed d =
      let (entries, d1) = entry_infos d.index d in
      let (freed, d2) = evict_loop (sort_entries entries) needed 0 d1 in
      let d3 : DiskCache F = record d2 { current_size = d2.current_size -ℤ pos freed } in
      (if is_over d3.current_size needed d3 then some not_enough else none, d3)

  unfoldable pub ensure_space : CachedResponse → DiskCache F → Option Error × DiskCache F
  ensure_space response d =
      if is_unlimited d.max_disk_size
      then (none, d)
      else if is_over d.current_size (estimated_size response) d
      then evict_old_entries (estimated_size response) d
      else (none, d)
