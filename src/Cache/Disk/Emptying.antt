-- ===== src/Cache/Disk/Emptying.antt =====
-- middleware/cache/disk_cache.go: `Clear` leaves no file, where no file operation fails.
use httpio.Base.{
  ◌≤ℤ◌, ℤ, pos, ◌≡◌, refl, ap, ◌∙◌, true, Bool-cases, inl, inr, List, [], ◌∷◌, none, some, Bytes,
  arith, ◌⊎◌, eq, eq_iff,
}
use httpio.Cache.Disk.{DiskCache, System, Operation, read_dir, find, remove_file}
use httpio.Cache.Disk.Calls.{clear, remove_files}
use httpio.Cache.Disk.Files.{total, total-empty, remove_file-Removes}
use httpio.Cache.Disk.Usage.{Usage}

module _ {F V : Type 0} (system : System F V)
    (fine : (op : Operation) (name : Bytes) (f : F) → (system.fault op name f).0 ≡ none) where
  -- All the files that the directory may have are among those that are still to be removed.
  abbrev IsLeft : Bytes → List (Bytes × Bytes) → Type 0
  IsLeft j [] = ⊥
  IsLeft j ((name, content) ∷ files) = (eq name j ≡ true) ⊎ IsLeft j files

  find-IsLeft : (j c : Bytes) (m : List (Bytes × Bytes)) → find j m ≡ some c → IsLeft j m
  unfolding find
  find-IsLeft j c [] h = absurd (ground (arith, h))
  find-IsLeft j c ((name, content) ∷ m) h = elim (Bool-cases (eq name j)) [
    | inl same ↦ inl same
    | inr other ↦ inr (find-IsLeft j c m (rw other at h))
  ]

  remove_files-empties :
      (files : List (Bytes × Bytes)) (d : DiskCache F)
      → ((j c : Bytes) → find j d.dir ≡ some c → IsLeft j files)
      → total (remove_files system files d).dir ≡ 0
  unfolding remove_files
  remove_files-empties [] d h = total-empty d.dir (λ j c s. absurd (h j c s))
  remove_files-empties ((name, content) ∷ files) d h =
      let removal = remove_file-Removes system fine name d in
      let d1 = (remove_file system name d).1 in
      remove_files-empties files d1 (λ j c s. elim (h j c (removal.shrinks.files j c s)) [
        | inl same ↦
            let gone : find j d1.dir ≡ none =
              rw (ap (λ k. find k d1.dir) ((eq_iff name j).0 same)) at removal.gone in
            absurd (ground (arith, gone, s))
        | inr left ↦ left
      ])

  remove_files-max :
      (files : List (Bytes × Bytes)) (d : DiskCache F)
      → (remove_files system files d).max_disk_size ≡ d.max_disk_size
  unfolding remove_files
  remove_files-max [] d = refl
  remove_files-max ((name, content) ∷ files) d =
      remove_files-max files (remove_file system name d).1
      ∙ (remove_file-Removes system fine name d).shrinks.same_limit

  pub clear-Usage :
      (limit bound : ℤ) (d : DiskCache F)
      → pos 0 ≤ℤ bound
      → Usage limit bound d
      → Usage limit bound (clear system d).1
  unfolding clear
  clear-Usage limit bound d positive u =
      rw (clear, fine read_dir [] d.faults)
        (let d1 : DiskCache F = record d {
          index = [];
          faults = (system.fault read_dir [] d.faults).1;
        } in
          let empty = remove_files-empties d.dir d1 (λ j c s. find-IsLeft j c d.dir s) in
          record {
            limited = remove_files-max d.dir d1 ∙ u.limited;
            covered = omega (arith, empty);
            bounded = positive;
          })
