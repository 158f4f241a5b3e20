-- ===== src/Cache/Disk.antt =====
-- middleware/cache/disk_cache.go: the state of the disk cache, and the file operations that it uses.
-- File names are relative to `basePath`. A call is atomic: its locks are not modelled.
pub mod Calls
pub mod Space
mod Tests
pub mod Restart
pub mod ReadBack
pub mod Bounds
pub mod Load
pub mod Files
pub mod Usage
pub mod Eviction
pub mod Removal
pub mod Emptying
pub mod Runs
use httpio.Base.{
  ℕ, ◌+◌, ℤ, Bool, true, false, List, [], ◌∷◌, ◌++◌, Option, none, some, Bytes, bytes, eq, length,
  if◌then◌else◌,
}
use mathlib.Core.Option
use httpio.Base.{◌⊎◌}
use httpio.Http
use httpio.Http.{Error}
use httpio.Cache.{CachedResponse}

-- The calls of package os that may fail.
pub data Operation : Type 0 where
  mkdir_all : Operation
  read_dir : Operation
  stat : Operation
  open_ : Operation
  remove : Operation
  create_temp : Operation
  write : Operation
  rename : Operation

-- The directory's regular files by name, with their contents; the fields of `type DiskCache`. The
-- map `index` is an association list in the order in which loops meet its keys. `faults` is the
-- state that decides which operations fail.
pub record DiskCache (F : Type 0) : Type 0 where
  pub index : List (Bytes × Bytes)
  pub max_disk_size : ℤ
  pub current_size : ℤ
  pub dir : List (Bytes × Bytes)
  pub faults : F

-- Package os, encoding/gob, net/url, time and the MD5 of a key, in hexadecimal.
pub record System (F V : Type 0) : Type 0 where
  pub fault : Operation → Bytes → F → Option Error × F
  pub encode : CachedResponse → Error ⊎ Bytes
  pub decode : Bytes → Option CachedResponse
  pub parse_url : Bytes → Option Bytes
  pub now : V → ℕ × V
  pub hash_key : Bytes → Bytes

-- `m[k]`, `m[k] = v` and `delete(m, k)`
unfoldable pub find : Bytes → List (Bytes × Bytes) → Option Bytes
find k [] = none
find k ((j, v) ∷ m) = if eq j k then some v else find k m

unfoldable pub assign : Bytes → Bytes → List (Bytes × Bytes) → List (Bytes × Bytes)
assign k v [] = (k, v) ∷ []
assign k v ((j, w) ∷ m) = if eq j k then (j, v) ∷ m else (j, w) ∷ assign k v m

unfoldable pub erase : Bytes → List (Bytes × Bytes) → List (Bytes × Bytes)
erase k [] = []
erase k ((j, w) ∷ m) = if eq j k then erase k m else (j, w) ∷ erase k m

-- `delete(c.index, key)`
unfoldable pub forget : {F : Type 0} → Bytes → DiskCache F → DiskCache F
forget key d = record d { index = erase key d.index }

module _ {F V : Type 0} (system : System F V) where
  -- `keyToFilename(key)`
  unfoldable pub key_to_filename : Bytes → Bytes
  key_to_filename key = system.hash_key key ++ bytes ".cache"

  abbrev after_fault : {A : Type 0} → Option Error → A → A → A
  after_fault none ok failed = ok
  after_fault (some e) ok failed = failed

  -- `os.Stat(filePath)`: the size, where it succeeds.
  unfoldable pub stat_file : Bytes → DiskCache F → Option ℕ × DiskCache F
  stat_file name d =
      let (failed, f) = system.fault stat name d.faults in
      (after_fault failed (Option.map length (find name d.dir)) none, record d { faults = f })

  -- `os.Open(filePath)`: the contents.
  unfoldable pub open_file : Bytes → DiskCache F → Option Bytes × DiskCache F
  open_file name d =
      let (failed, f) = system.fault open_ name d.faults in
      (after_fault failed (find name d.dir) none, record d { faults = f })

  -- `os.Remove(filePath)`
  abbrev pub not_there : Error
  not_there = Http.errorf (bytes "remove: no such file or directory")

  unfoldable pub remove_file : Bytes → DiskCache F → Option Error × DiskCache F
  remove_file name d =
      let (failed, f) = system.fault remove name d.faults in
      elim failed [
        | some e ↦ (some e, record d { faults = f })
        | none ↦ elim (find name d.dir) [
          | none ↦ (some not_there, record d { faults = f })
          | some _ ↦ (none, record d { dir = erase name d.dir; faults = f })
        ]
      ]

  -- `decoder.Decode(&cachedResp)` on an open file.
  unfoldable pub read_file : Bytes → DiskCache F → Option CachedResponse × DiskCache F
  unfolding open_file
  read_file name d =
      let (content, d') = open_file name d in
      (elim content [ none ↦ none | some b ↦ system.decode b ], d')

  -- An operation whose result does not depend on the files.
  abbrev pub check : Operation → Bytes → DiskCache F → Option Error × DiskCache F
  check op name d =
      let (failed, f) = system.fault op name d.faults in (failed, record d { faults = f })
