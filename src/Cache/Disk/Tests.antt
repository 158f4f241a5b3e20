-- ===== src/Cache/Disk/Tests.antt =====
-- The disk cache at concrete files.
use mathlib.Core.Option
use httpio.Base.{
  false, signed, ℕ, ◌≡◌, List, refl, sym, ap, inr, pos, ◌+ℤ◌, ◌-ℤ◌, [], ◌∷◌, none, some, Bytes,
  bytes, eq, has_prefix, strip_prefix,
}
use httpio.Http.{Request}
use httpio.Cache.{CachedResponse}
use httpio.Cache.Keys.{method_url_key}
use httpio.Cache.Policy.{is_cacheable_method}
use httpio.Cache.Disk.{
  DiskCache, System, find, assign, erase, forget, key_to_filename, stat_file, open_file,
  remove_file, read_file,
}
use httpio.Cache.Disk.Space.{
  estimated_size, header_size, insert_entry, sort_entries, entry_info, entry_infos, evict_loop,
  evict_old_entries, ensure_space,
}
use httpio.Cache.Disk.Calls
use httpio.Cache.Disk.Calls.{get_file, publish, write_temp, delete, remove_files, clear}
use httpio.Cache.Disk.Load.{
  is_cache_file, load_entry, load_file, load_files, load_index, new_disk_cache, clean_entry,
  clean_entries, cleanup,
}
use httpio.Cache.Disk.ReadBack.{get-set}
use httpio.Cache.Disk.Usage.{Usage}
use httpio.Cache.Disk.Runs
use httpio.Cache.Disk.Runs.{sets, deletes, cleans, step, run, run-Usage}
use httpio.Cache.Disk.Restart.{restart_misses}

program : Unit {0}
unfolding signed find assign erase forget key_to_filename stat_file open_file remove_file read_file
    estimated_size header_size insert_entry sort_entries entry_info entry_infos evict_loop
    evict_old_entries ensure_space Calls.get Calls.set get_file publish write_temp delete
    remove_files clear is_cache_file load_entry load_file load_files load_index new_disk_cache
    clean_entry clean_entries cleanup eq has_prefix strip_prefix method_url_key is_cacheable_method
    ◌+ℤ◌ ◌-ℤ◌
program = tt

abbrev page : CachedResponse
page = record {
  response = record { status_code = 200; header = []; body = none };
  body = bytes "body";
  request_url = bytes "http://h";
  last_accessed = 3;
  created_at = 3;
  expires_at = 50;
}

-- No operation fails; every file is decoded to the page. The clock stands still.
abbrev system : System ℕ ℕ
system = record {
  fault = λ op name f. (none, f);
  encode = λ r. inr (bytes "gob");
  decode = λ b. some page;
  parse_url = λ u. some (bytes "http://h");
  now = λ v. (v, v);
  hash_key = λ k. k;
}

abbrev empty : DiskCache ℕ
empty = record { index = []; max_disk_size = pos 2000; current_size = pos 0; dir = []; faults = 0 }

abbrev key : Bytes
key = bytes "GET:http://h"

abbrev one_page : DiskCache ℕ
one_page = (Calls.set system key page empty).1

-- A second `Set` of the same key counts the file again.
counted :
    (one_page.current_size ≡ pos 3)
    × ((Calls.set system key page (record one_page { max_disk_size = pos 0 })).1.current_size
        ≡ pos 6)
    × ((Calls.set system key page (record one_page { max_disk_size = pos 0 })).1.dir
        ≡ (bytes "GET:http://h.cache", bytes "gob") ∷ [])
    × ((delete system key one_page).1.current_size ≡ pos 0)
unfolding program
counted = (refl, refl, refl, refl)

-- A cache that is nearly full evicts the page before it takes another one.
evicts :
    ((Calls.set system (bytes "b") page (record one_page { current_size = pos 974 })).1.index
      ≡ (bytes "b", bytes "b.cache") ∷ [])
    × ((cleanup system one_page 60).0.dir ≡ [])
    × ((clear system one_page).1.dir ≡ [])
unfolding program
evicts = (refl, refl, refl)

no_room : (ensure_space system page (record one_page { current_size = pos 974 })).0 ≡ none
unfolding program
no_room = refl

get-set_example :
    (Calls.get system key (Calls.set system key page empty).1 9).0
    ≡ some (record page { last_accessed = 9 })
unfolding program
get-set_example = get-set system key (bytes "gob") page empty 9 refl refl refl refl refl

lower_scheme :
    (u k : Bytes)
    → system.parse_url u ≡ some k
    → (has_prefix k (bytes "GET:") ≡ false) × (has_prefix k (bytes "HEAD:") ≡ false)
unfolding has_prefix
lower_scheme u k h = (
  sym (ap (λ o. has_prefix (Option.get_or o []) (bytes "GET:")) h),
  sym (ap (λ o. has_prefix (Option.get_or o []) (bytes "HEAD:")) h),
)

abbrev request : Request
request = record {
  method = bytes "GET";
  url = bytes "http://h";
  host = bytes "h";
  path = [];
  header = [];
  body = none;
  get_body = none;
  content_length = pos 0;
}

restart_misses_example :
    Calls.get system (method_url_key request) (load_index system one_page 9).1 9
    ≡ (none, (load_index system one_page 9).1, 9)
unfolding program
restart_misses_example = restart_misses system lower_scheme one_page 9 9 request refl refl

-- The key that is found instead.
reloaded :
    (load_index system one_page 9).1.index ≡ (bytes "http://h", bytes "GET:http://h.cache") ∷ []
unfolding program
reloaded = refl

abbrev fresh : DiskCache ℕ
fresh = record {
  index = [];
  max_disk_size = pos 1048576;
  current_size = pos 0;
  dir = [];
  faults = 0;
}

abbrev calls : List (Runs.Call ℕ)
calls = sets key page ∷ sets (bytes "b") page ∷ sets key page ∷ deletes (bytes "b") ∷ cleans 60 ∷ []

run-Usage_example : Usage (pos 1048576) (pos 1048576) (run system fresh calls)
unfolding program
run-Usage_example = run-Usage system (λ op name f. refl) (pos 1) 0 0 fresh calls refl refl

-- The file that was set twice counts twice until it is cleaned.
left_over :
    ((run system fresh (sets key page ∷ sets key page ∷ [])).current_size ≡ pos 6)
    × ((run system fresh calls).current_size ≡ pos 3)
    × ((run system fresh calls).dir ≡ [])
unfolding program run step
left_over = (refl, refl, refl)
