-- ===== src/Cache/Disk/Restart.antt =====
-- middleware/cache/disk_cache.go: what a cache finds that was made on the files of an earlier one.
use httpio.Base.{
  ℕ, ◌≡◌, ◌≢◌, refl, ap, ◌∙◌, inl, inr, true, false, List, [], ◌∷◌, ◌++◌, none, some, Option-cases,
  Bool-cases, All, Bytes, bytes, ltb, eq_iff, has_prefix, strip_prefix, arith,
}
use httpio.Http.{Request}
use httpio.Cache.{CachedResponse}
use httpio.Cache.Policy.{is_cacheable_method}
use httpio.Cache.Keys.{method_url_key}
use httpio.Cache.Keys.Collisions.{is_cacheable_method_cases}
use httpio.Cache.Disk.{
  DiskCache, System, read_dir, remove, find, assign, stat_file, open_file, read_file, remove_file,
}
use httpio.Cache.Disk.Calls.{get}
use httpio.Cache.Disk.Load.{is_cache_file, load_entry, load_file, load_files, load_index}

wrong : (p k t : Bytes) → has_prefix k p ≡ false → k ≡ t → has_prefix t p ≡ true → ⊥
wrong p k t h e f = cc (h, ap (λ s. has_prefix s p) e, f)

module _ (P : Bytes → Type 0) where
  -- A property of the keys of a map.
  abbrev pub AllKeys : List (Bytes × Bytes) → Type 0
  AllKeys m = All (λ (p : Bytes × Bytes). P p.0) m

  AllKeys-assign :
      (k v : Bytes) (m : List (Bytes × Bytes)) → P k → AllKeys m → AllKeys (assign k v m)
  unfolding assign
  AllKeys-assign k v [] p h = (p, tt)
  AllKeys-assign k v ((j, w) ∷ m) p h = ground (arith, AllKeys-assign k v m p h.1)

find-none : (k : Bytes) (m : List (Bytes × Bytes)) → AllKeys (λ j. j ≢ k) m → find k m ≡ none
unfolding find
find-none k [] h = refl
find-none k ((j, w) ∷ m) h = ground (arith, eq_iff j k, find-none k m h.1)

module _ {F V : Type 0} (system : System F V) where
  -- A key that `loadIndex` gives: the URL of a cached response, parsed and printed.
  abbrev pub IsUrlKey : Bytes → Type 0
  IsUrlKey k = (r : CachedResponse) × (system.parse_url r.request_url ≡ some k)

  pub remove_file-index :
      (name : Bytes) (d : DiskCache F) → (remove_file system name d).1.index ≡ d.index
  unfolding remove_file
  remove_file-index name d = elim (Option-cases (system.fault remove name d.faults).0) [
    | inr (e, s) ↦ rw (s, remove_file)
    | inl n ↦ elim (Option-cases (find name d.dir)) [
      | inl m ↦ rw (n, remove_file, m)
      | inr (c, s) ↦ rw (n, remove_file, s)
    ]
  ]

  load_entry-keys :
      (name : Bytes) (size : ℕ) (r : CachedResponse) (d : DiskCache F) (v : V)
      → AllKeys IsUrlKey d.index
      → AllKeys IsUrlKey (load_entry system name size r d v).0.index
  unfolding load_entry
  load_entry-keys name size r d v h = elim (Bool-cases (ltb r.expires_at (system.now v).0)) [
    | inl old ↦ rw (old, load_entry, remove_file-index name d) h
    | inr young ↦ elim (Option-cases (system.parse_url r.request_url)) [
      | inl n ↦ rw (young, load_entry, n) h
      | inr (k, s) ↦ rw (young, load_entry, s) (AllKeys-assign IsUrlKey k name d.index (r, s) h)
    ]
  ]

  load_file-keys :
      (name : Bytes) (d : DiskCache F) (v : V)
      → AllKeys IsUrlKey d.index
      → AllKeys IsUrlKey (load_file system name d v).0.index
  unfolding load_file stat_file read_file open_file
  load_file-keys name d v h = elim (Bool-cases (is_cache_file name)) [
    | inr other ↦ rw (other) h
    | inl cache ↦ elim (Option-cases (stat_file system name d).0) [
      | inl n ↦ rw (cache, load_file, n) h
      | inr (size, s) ↦
          let d1 = (stat_file system name d).1 in
          elim (Option-cases (read_file system name d1).0) [
            | inl m ↦ rw (cache, load_file, s, m) h
            | inr (r, t) ↦
                rw (cache, load_file, s, t)
                  (load_entry-keys name size r (read_file system name d1).1 v h)
          ]
    ]
  ]

  load_files-keys :
      (files : List (Bytes × Bytes)) (d : DiskCache F) (v : V)
      → AllKeys IsUrlKey d.index
      → AllKeys IsUrlKey (load_files system files d v).0.index
  unfolding load_files
  load_files-keys [] d v h = h
  load_files-keys ((name, content) ∷ files) d v h =
      load_files-keys files (load_file system name d v).0 (load_file system name d v).1
        (load_file-keys name d v h)

  load_index-keys :
      (d : DiskCache F) (v : V)
      → (load_index system d v).0 ≡ none
      → AllKeys IsUrlKey (load_index system d v).1.index
  unfolding load_index
  load_index-keys d v h = elim (Option-cases (system.fault read_dir [] d.faults).0) [
    | inr (e, s) ↦ absurd (ground (arith, s))
    | inl n ↦ rw (n, load_index) (load_files-keys _ _ v tt)
  ]

  -- What net/url does: it prints a scheme in lower case, and where there is no scheme, a path whose
  -- first segment has a colon after "./". So no URL is printed as "GET:" or "HEAD:" and more.
  module _
      (lower_scheme : (u k : Bytes)
        → system.parse_url u ≡ some k
        → (has_prefix k (bytes "GET:") ≡ false) × (has_prefix k (bytes "HEAD:") ≡ false)) where
    default_key-ne :
        (req : Request) (k : Bytes)
        → is_cacheable_method req.method ≡ true
        → IsUrlKey k
        → k ≢ method_url_key req
    unfolding method_url_key has_prefix strip_prefix
    default_key-ne req k m (r, s) e =
        let (no_get, no_head) = lower_scheme r.request_url k s in
        elim (is_cacheable_method_cases req.method m) [
          | inl g ↦
              wrong (bytes "GET:") k (bytes "GET" ++ 58 ∷ req.url) no_get
                (e ∙ ap (λ x. x ++ 58 ∷ req.url) g) refl
          | inr g ↦
              wrong (bytes "HEAD:") k (bytes "HEAD" ++ 58 ∷ req.url) no_head
                (e ∙ ap (λ x. x ++ 58 ∷ req.url) g) refl
        ]

    misses :
        (req : Request) (m : List (Bytes × Bytes))
        → is_cacheable_method req.method ≡ true
        → AllKeys IsUrlKey m
        → find (method_url_key req) m ≡ none
    unfolding find
    misses req [] c h = refl
    misses req ((j, w) ∷ m) c h =
        ground
          (arith, eq_iff j (method_url_key req), default_key-ne req j c h.0, misses req m c h.1)

    -- After a `loadIndex` that succeeds no request that the cache middleware looks up under its default
    -- key is found, whatever files there are: the index has the URLs without the methods. It is assumed
    -- that net/url prints no URL that begins with "GET:" or "HEAD:", as it prints schemes in lower case.
    pub restart_misses :
        (d : DiskCache F) (v v' : V) (req : Request)
        → is_cacheable_method req.method ≡ true
        → (load_index system d v).0 ≡ none
        → get system (method_url_key req) (load_index system d v).1 v'
          ≡ (none, (load_index system d v).1, v')
    unfolding get
    restart_misses d v v' req m h =
        rw (misses req (load_index system d v).1.index m (load_index-keys d v h), get)
