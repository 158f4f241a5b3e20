-- ===== src/Cache/Disk/Runs.antt =====
-- middleware/cache/disk_cache.go: sequences of whole operations on a disk cache, and what its files take.
use httpio.Base.{
  ltb, ◌-◌, if◌then◌else◌, ℕ, ◌+◌, ◌+◌, ◌≤◌, ◌≤ℤ◌, ℤ, pos, ◌≡◌, refl, ap, sym, ◌∙◌, false,
  Option-cases, inl, inr, List, [], ◌∷◌, none, Bytes, length, arith, int_laws, ◌⊎◌, ◌+ℤ◌, Sum-cases,
  bytes, pos_part, neg_part, subst,
}
use httpio.Http.{Error}
use httpio.Cache.{CachedResponse}
use httpio.Cache.Disk.{
  DiskCache, System, Operation, mkdir_all, stat, rename, create_temp, read_dir, check, stat_file,
}
use httpio.Cache.Disk.Space.{is_unlimited}
use httpio.Cache.Disk.Calls.{get, delete, clear}
use httpio.Cache.Disk.Load.{cleanup}
use httpio.Cache.Disk.Files.{total-assign, Shrinks, same_files-Shrinks}
use httpio.Cache.Disk.Usage.{Usage, Shrinks-Usage}
use httpio.Cache.Disk.Space.{ensure_space, estimated_size}
use httpio.Cache.Disk.Calls.{close, set, publish, write_temp}
use httpio.Cache.Disk.Load.{megabytes, new_disk_cache, load_index, load_files}
use httpio.Cache.Disk.Bounds.{ensure_space-HasRoom}
use httpio.Cache.Disk.Eviction.{ensure_space-Usage}
use httpio.Cache.Disk.Removal.{get-Usage, delete-Usage, cleanup-Usage}
use httpio.Cache.Disk.Emptying.{clear-Usage}
use httpio.Cache.Disk.ReadBack.{find-assign, write_temp_content}

-- A call, with the state of the clock that it reads; `cleans` is a tick of `StartCleanupTask`.
pub data Call (V : Type 0) : Type 0 where
  gets : Bytes → V → Call V
  sets : Bytes → CachedResponse → Call V
  deletes : Bytes → Call V
  clears : Call V
  closes : Call V
  cleans : V → Call V

module _ {F V : Type 0} (system : System F V) where
  unfoldable pub step : DiskCache F → Call V → DiskCache F
  step d (gets key v) = (get system key d v).1
  step d (sets key r) = (set system key r d).1
  step d (deletes key) = (delete system key d).1
  step d clears = (clear system d).1
  step d closes = (close system d).1
  step d (cleans v) = (cleanup system d v).0

  unfoldable pub run : DiskCache F → List (Call V) → DiskCache F
  run d [] = d
  run d (x ∷ xs) = run (step d x) xs

  -- By how much the encoded response is longer than what is estimated for it.
  abbrev pub overshoot : CachedResponse → ℕ
  overshoot r = elim (system.encode r) [ inl e ↦ 0 | inr b ↦ length b - estimated_size r ]

  -- The most by which a response that is stored is longer than estimated.
  abbrev pub most_over : List (Call V) → ℕ
  most_over [] = 0
  most_over (sets key r ∷ xs) =
      let rest = most_over xs in if ltb rest (overshoot r) then overshoot r else rest
  most_over (x ∷ xs) = most_over xs

  overshoot_bound :
      (r : CachedResponse) (b : Bytes)
      → system.encode r ≡ inr b
      → length b ≤ estimated_size r + overshoot r
  overshoot_bound r b h =
      let same : overshoot r ≡ length b - estimated_size r = rw (overshoot, h) refl in
      omega (arith, same)

module _ {F V : Type 0} (system : System F V)
    (fine : (op : Operation) (name : Bytes) (f : F) → (system.fault op name f).0 ≡ none)
    (extra : ℕ) where
  top_positive : (limit : ℤ) → is_unlimited limit ≡ false → pos 0 ≤ℤ limit +ℤ pos extra
  top_positive limit positive =
      let above : pos 0 ≤ℤ limit = ground (arith, positive) in omega (int_laws, above)

  write_temp-Shrinks : (r : CachedResponse) (d : DiskCache F) → Shrinks d (write_temp system r d).1
  unfolding write_temp
  write_temp-Shrinks r d =
      let d1 = (check system create_temp (bytes "temp_cache_") d).1 in
      elim (Sum-cases (system.encode r)) [
        | inl (e, s) ↦
            rw (write_temp, fine create_temp (bytes "temp_cache_") d.faults, s)
              (same_files-Shrinks d _ refl refl refl)
        | inr (b, s) ↦
            rw (write_temp, fine create_temp (bytes "temp_cache_") d.faults, s)
              (same_files-Shrinks d _ refl refl refl)
      ]

  publish-Usage :
      (limit : ℤ) (key filename content : Bytes) (d : DiskCache F)
      → d.current_size +ℤ pos (length content) ≤ℤ limit +ℤ pos extra
      → Usage limit (limit +ℤ pos extra) d
      → Usage limit (limit +ℤ pos extra) (publish system key filename content d).1
  unfolding publish stat_file
  publish-Usage limit key filename content d room u =
      let d1 = (check system rename filename d).1 in
      rw
        (
          publish,
          fine rename filename d.faults,
          fine stat filename d1.faults,
          find-assign filename content d.dir,
        )
        (record {
          limited = u.limited;
          covered = omega (int_laws, u.covered, total-assign filename content d.dir);
          bounded = room;
        })

  written_small :
      (r : CachedResponse) (d : DiskCache F) (b : Bytes)
      → overshoot system r ≤ extra
      → (write_temp system r d).0 ≡ inr b
      → length b ≤ estimated_size r + extra
  unfolding write_temp
  written_small r d b few written = elim (Sum-cases (system.encode r)) [
    | inl (e, s) ↦ absurd (ground (arith, s, written))
    | inr (c, s) ↦
        let bound = overshoot_bound system r c s in
        rw (write_temp_content system r d b c s written) (omega (arith, bound, few))
  ]

  -- The limit leaves room for the file.
  room_left :
      (limit : ℤ) (r : CachedResponse) (d : DiskCache F) (b : Bytes)
      → is_unlimited limit ≡ false
      → Usage limit (limit +ℤ pos extra) d
      → overshoot system r ≤ extra
      → (ensure_space system r d).0 ≡ none
      → (write_temp system r (ensure_space system r d).1).0 ≡ inr b
      → (write_temp system r (ensure_space system r d).1).1.current_size +ℤ pos (length b)
        ≤ℤ limit +ℤ pos extra
  room_left limit r d b positive u few n written =
      let d1 = (ensure_space system r d).1 in
      let same = write_temp-Shrinks r d1 in
      let u1 = ensure_space-Usage system fine limit (limit +ℤ pos extra) r d u in
      elim (ensure_space-HasRoom system r d n) [
        | inl unlimited ↦
            absurd (ground (arith, sym unlimited ∙ ap is_unlimited u.limited ∙ positive))
        | inr room ↦
            let fits = written_small r d1 b few written in
            rw (same.same_size)
              (omega (int_laws, room, fits, ap pos_part u1.limited, ap neg_part u1.limited))
      ]

  set-Usage :
      (limit : ℤ) (key : Bytes) (r : CachedResponse) (d : DiskCache F)
      → is_unlimited limit ≡ false
      → overshoot system r ≤ extra
      → Usage limit (limit +ℤ pos extra) d
      → Usage limit (limit +ℤ pos extra) (set system key r d).1
  unfolding set
  set-Usage limit key r d positive few u =
      let d1 = (ensure_space system r d).1 in
      let u1 = ensure_space-Usage system fine limit (limit +ℤ pos extra) r d u in
      let u2 = Shrinks-Usage limit (limit +ℤ pos extra) d1 _ (write_temp-Shrinks r d1) u1 in
      elim (Option-cases (ensure_space system r d).0) [
        | inr (e, full) ↦ rw (set, full) u1
        | inl n ↦ elim (Sum-cases (write_temp system r d1).0) [
          | inl (e, failed) ↦ rw (set, n, failed) u2
          | inr (b, written) ↦
              rw (set, n, written)
                (publish-Usage limit key _ b _ (room_left limit r d b positive u few n written) u2)
        ]
      ]

  run_from-Usage :
      (limit : ℤ) (d : DiskCache F) (xs : List (Call V))
      → is_unlimited limit ≡ false
      → most_over system xs ≤ extra
      → Usage limit (limit +ℤ pos extra) d
      → Usage limit (limit +ℤ pos extra) (run system d xs)
  unfolding run step close
  run_from-Usage limit d [] positive few u = u
  run_from-Usage limit d (gets key v ∷ xs) positive few u =
      run_from-Usage limit (step system d (gets key v)) xs positive few
        (get-Usage system fine limit (limit +ℤ pos extra) key d v u)
  run_from-Usage limit d (sets key r ∷ xs) positive few u =
      run_from-Usage limit (step system d (sets key r)) xs positive (ground (arith, few))
        (set-Usage limit key r d positive (ground (arith, few)) u)
  run_from-Usage limit d (deletes key ∷ xs) positive few u =
      run_from-Usage limit (step system d (deletes key)) xs positive few
        (delete-Usage system fine limit (limit +ℤ pos extra) key d u)
  run_from-Usage limit d (clears ∷ xs) positive few u =
      run_from-Usage limit (step system d clears) xs positive few
        (clear-Usage system fine limit (limit +ℤ pos extra) d (top_positive limit positive) u)
  run_from-Usage limit d (closes ∷ xs) positive few u =
      run_from-Usage limit (step system d closes) xs positive few u
  run_from-Usage limit d (cleans v ∷ xs) positive few u =
      run_from-Usage limit (step system d (cleans v)) xs positive few
        (cleanup-Usage system fine limit (limit +ℤ pos extra) d v u)

  abbrev IsFresh : Error ⊎ DiskCache F → Type 0
  IsFresh (inl e) = Unit {0}
  IsFresh (inr d) =
      is_unlimited d.max_disk_size ≡ false → Usage d.max_disk_size (d.max_disk_size +ℤ pos extra) d

  load_index_empty :
      (limit : ℤ) (f : F) (v : V)
      → load_index system
          (record { index = []; max_disk_size = limit; current_size = pos 0; dir = []; faults = f })
          v
        ≡ (
          none,
          record {
            index = [];
            max_disk_size = limit;
            current_size = pos 0;
            dir = [];
            faults = (system.fault read_dir [] f).1;
          },
          v,
        )
  unfolding load_index load_files
  load_index_empty limit f v = rw (load_index, fine read_dir [] f) refl

  new_disk_cache-IsFresh :
      (max_size_mb : ℤ) (f : F) (v : V) → IsFresh (new_disk_cache system [] max_size_mb f v).0
  unfolding new_disk_cache
  new_disk_cache-IsFresh max_size_mb f v =
      let loaded =
        load_index_empty (megabytes system max_size_mb) (system.fault mkdir_all [] f).1 v in
      rw (new_disk_cache, fine mkdir_all [] f, loaded, loaded)
        (λ positive. record {
          limited = refl;
          covered = omega arith;
          bounded = top_positive (megabytes system max_size_mb) positive;
        })

module _ {F V : Type 0} (system : System F V)
    (fine : (op : Operation) (name : Bytes) (f : F) → (system.fault op name f).0 ≡ none) where
  -- Whatever is done with a disk cache that was made with a positive limit on an empty directory: its
  -- files never take more than it counts, and it never counts more than the limit and the most by which
  -- one of the responses that were to be stored is longer, encoded, than the size estimated for it. This
  -- is so where no file operation fails.
  pub run-Usage :
      (max_size_mb : ℤ) (f : F) (v : V) (d : DiskCache F) (xs : List (Call V))
      → (new_disk_cache system [] max_size_mb f v).0 ≡ inr d
      → is_unlimited d.max_disk_size ≡ false
      → Usage d.max_disk_size (d.max_disk_size +ℤ pos (most_over system xs)) (run system d xs)
  run-Usage max_size_mb f v d xs made positive =
      let extra = most_over system xs in
      run_from-Usage system fine extra d.max_disk_size d xs positive (omega arith) (
        subst (IsFresh system fine extra) made
          (new_disk_cache-IsFresh system fine extra max_size_mb f v) positive)
