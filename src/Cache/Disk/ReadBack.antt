-- ===== src/Cache/Disk/ReadBack.antt =====
-- middleware/cache/disk_cache.go: what has been set is read back.
use httpio.Base.{
  ◌≡◌, inl, inr, false, List, [], ◌∷◌, none, some, Option-cases, Sum-cases, subst, Bytes, ltb,
  eq_refl, arith,
}
use httpio.Cache.{CachedResponse}
use httpio.Cache.Disk.{
  DiskCache, System, open_, rename, find, assign, key_to_filename, stat_file, open_file,
}
use httpio.Cache.Disk.Space.{ensure_space}
use httpio.Cache.Disk.Calls.{get, get_file, set, publish, write_temp}

pub find-assign : (k v : Bytes) (m : List (Bytes × Bytes)) → find k (assign k v m) ≡ some v
unfolding find assign
find-assign k v [] = rw (eq_refl k)
find-assign k v ((j, w) ∷ m) = ground (arith, find-assign k v m)

module _ {F V : Type 0} (system : System F V) where
  -- The index and the directory hold the contents under the key.
  pub record Holds (k content : Bytes) (d : DiskCache F) : Type 0 where
    pub indexed : find k d.index ≡ some (key_to_filename system k)
    pub filed : find (key_to_filename system k) d.dir ≡ some content

  publish-Holds :
      (k content : Bytes) (d : DiskCache F)
      → (publish system k (key_to_filename system k) content d).0 ≡ none
      → Holds k content (publish system k (key_to_filename system k) content d).1
  unfolding publish stat_file
  publish-Holds k content d h =
      let name = key_to_filename system k in
      elim (Option-cases (system.fault rename name d.faults).0) [
        | inr (e, s) ↦ absurd (ground (arith, s))
        | inl n ↦
            rw (n, publish)
              (record {
                indexed = find-assign k name d.index;
                filed = find-assign name content d.dir;
              })
      ]

  pub write_temp_content :
      (r : CachedResponse) (d : DiskCache F) (b content : Bytes)
      → system.encode r ≡ inr content
      → (write_temp system r d).0 ≡ inr b
      → b ≡ content
  unfolding write_temp
  write_temp_content r d b content e h = ground (arith)

  -- After a `Set` without error the key's file has the encoded response.
  set-Holds :
      (k content : Bytes) (r : CachedResponse) (d : DiskCache F)
      → system.encode r ≡ inr content
      → (set system k r d).0 ≡ none
      → Holds k content (set system k r d).1
  unfolding set
  set-Holds k content r d e h =
      let d1 = (ensure_space system r d).1 in
      elim (Option-cases (ensure_space system r d).0) [
        | inr (f, full) ↦ absurd (ground (arith, full))
        | inl n ↦ elim (Sum-cases (write_temp system r d1).0) [
          | inl (f, failed) ↦ absurd (ground (arith, n, failed))
          | inr (b, written) ↦
              let same = write_temp_content r d1 b content e written in
              let done : (publish system k (key_to_filename system k) b
                    (write_temp system r d1).1).0
                  ≡ none =
                rw (n, set, written) at h in
              rw (n, set, written)
                (subst
                  (λ c.
                    Holds k c
                      (publish system k (key_to_filename system k) b (write_temp system r d1).1).1)
                  same (publish-Holds k b (write_temp system r d1).1 done))
        ]
      ]

  get-Holds :
      (k content : Bytes) (r : CachedResponse) (d : DiskCache F) (v : V)
      → Holds k content d
      → system.decode content ≡ some r
      → (system.fault open_ (key_to_filename system k) d.faults).0 ≡ none
      → ltb r.expires_at (system.now v).0 ≡ false
      → (get system k d v).0 ≡ some (record r { last_accessed = (system.now (system.now v).1).0 })
  unfolding get get_file open_file
  get-Holds k content r d v held decoded opened young =
      rw (held.indexed, get, get_file, opened, held.filed, decoded, young)

  -- What has been set without an error is got back with the time of access, until it expires: if the
  -- encoding of the response is decoded to it and the file can be opened.
  pub get-set :
      (k content : Bytes) (r : CachedResponse) (d : DiskCache F) (v : V)
      → system.encode r ≡ inr content
      → system.decode content ≡ some r
      → (set system k r d).0 ≡ none
      → (system.fault open_ (key_to_filename system k) (set system k r d).1.faults).0 ≡ none
      → ltb r.expires_at (system.now v).0 ≡ false
      → (get system k (set system k r d).1 v).0
        ≡ some (record r { last_accessed = (system.now (system.now v).1).0 })
  get-set k content r d v e decoded fine opened young =
      get-Holds k content r (set system k r d).1 v (set-Holds k content r d e fine) decoded opened
        young
