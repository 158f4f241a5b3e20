-- ===== src/Cache/Disk/Files.antt =====
-- middleware/cache/disk_cache.go: the sizes of the files in the directory, and the steps that only
-- take files away.
use httpio.Base.{
  ℕ, ◌+◌, ◌≤◌, ◌≡◌, refl, true, false, Bool-cases, Option-cases, inl, inr, List, [], ◌∷◌, none,
  some, Bytes, eq, length, arith, if◌then◌else◌, is_some, ◌≢◌, eq_iff, eq_refl, ap, sym,
}
use httpio.Cache.Disk.{
  DiskCache, System, Operation, find, assign, erase, remove, remove_file, not_there,
}

abbrev pub total : List (Bytes × Bytes) → ℕ
total [] = 0
total ((name, content) ∷ dir) = length content + total dir

total-erase_le : (k : Bytes) (m : List (Bytes × Bytes)) → total (erase k m) ≤ total m
unfolding erase
total-erase_le k [] = omega arith
total-erase_le k ((j, w) ∷ m) = ground (arith, total-erase_le k m)

pub total-erase :
    (k c : Bytes) (m : List (Bytes × Bytes))
    → find k m ≡ some c
    → total (erase k m) + length c ≤ total m
unfolding find erase
total-erase k c [] h = absurd (ground (arith, h))
total-erase k c ((j, w) ∷ m) h = elim (Bool-cases (eq j k)) [
  | inl same ↦
      let content : w ≡ c = cc in rw same (omega (arith, total-erase_le k m, ap length content))
  | inr other ↦ ground (arith, other, total-erase k c m (rw other at h))
]

pub total-assign :
    (k v : Bytes) (m : List (Bytes × Bytes)) → total (assign k v m) ≤ total m + length v
unfolding assign
total-assign k v [] = omega arith
total-assign k v ((j, w) ∷ m) = ground (arith, total-assign k v m)

pub find-erase :
    (j k : Bytes) (m : List (Bytes × Bytes))
    → find j (erase k m) ≡ (if eq k j then none else find j m)
unfolding find erase
find-erase j k [] = ground arith
find-erase j k ((i, w) ∷ m) = elim (Bool-cases (eq i k)) [
  | inl same ↦ rw (same, find-erase j k m, ap (λ x. eq x j) ((eq_iff i k).0 same)) (ground arith)
  | inr other ↦ elim (Bool-cases (eq i j)) [
    | inl found ↦
        let distinct : eq k j ≡ false =
          rw (sym ((eq_iff i j).0 found)) (ground (arith, other, eq_iff i k, eq_iff k i)) in
        rw (other, find, found, distinct) refl
    | inr apart ↦ rw (other, find, apart) (find-erase j k m)
  ]
]

pub total-empty : (m : List (Bytes × Bytes)) → ((j c : Bytes) → find j m ≢ some c) → total m ≡ 0
unfolding find
total-empty [] h = refl
total-empty ((i, w) ∷ m) h = absurd (h i w (rw (eq_refl i) refl))

-- A state with fewer files or as many, and nothing else changed but the index and the faults.
pub record Shrinks {F : Type 0} (d d' : DiskCache F) : Type 0 where
  pub same_size : d'.current_size ≡ d.current_size
  pub same_limit : d'.max_disk_size ≡ d.max_disk_size
  pub files : (j c : Bytes) → find j d'.dir ≡ some c → find j d.dir ≡ some c
  pub less : total d'.dir ≤ total d.dir

module _ {F : Type 0} where
  pub Shrinks-refl : (d : DiskCache F) → Shrinks d d
  Shrinks-refl d = record {
    same_size = refl;
    same_limit = refl;
    files = λ j c h. h;
    less = omega arith;
  }

  pub Shrinks-trans : (c d e : DiskCache F) → Shrinks c d → Shrinks d e → Shrinks c e
  Shrinks-trans c d e p q = record {
    same_size = cc;
    same_limit = cc;
    files = λ j b h. p.files j b (q.files j b h);
    less = omega (arith, p.less, q.less);
  }

  -- The same files, whatever the index and the faults.
  pub same_files-Shrinks :
      (d d' : DiskCache F)
      → d'.current_size ≡ d.current_size
      → d'.max_disk_size ≡ d.max_disk_size
      → d'.dir ≡ d.dir
      → Shrinks d d'
  same_files-Shrinks d d' size limit dir = record {
    same_size = size;
    same_limit = limit;
    files = λ j c h. rw dir at h;
    less = rw dir (omega arith);
  }

  erase-Shrinks :
      (name : Bytes) (index : List (Bytes × Bytes)) (f : F) (d : DiskCache F)
      → Shrinks d (record d { index = index; dir = erase name d.dir; faults = f })
  erase-Shrinks name index f d = record {
    same_size = refl;
    same_limit = refl;
    files = λ j c h. ground (arith, find-erase j name d.dir, h);
    less = total-erase_le name d.dir;
  }

module _ {F V : Type 0} (system : System F V)
    (fine : (op : Operation) (name : Bytes) (f : F) → (system.fault op name f).0 ≡ none) where
  -- Without faults `os.Remove` removes a file that is there, and only then succeeds.
  pub record Removes (name : Bytes) (d : DiskCache F) : Type 0 where
    pub shrinks : Shrinks d (remove_file system name d).1
    pub gone : find name (remove_file system name d).1.dir ≡ none
    pub fewer :
        (c : Bytes)
        → find name d.dir ≡ some c
        → total (remove_file system name d).1.dir + length c ≤ total d.dir
    pub succeeds : (remove_file system name d).0 ≡ none → is_some (find name d.dir) ≡ true

  removed_state : Bytes → List (Bytes × Bytes) → DiskCache F → DiskCache F
  removed_state name dir d = record d { dir = dir; faults = (system.fault remove name d.faults).1 }

  remove_file_absent :
      (name : Bytes) (d : DiskCache F)
      → find name d.dir ≡ none
      → remove_file system name d ≡ (some (not_there system), removed_state name d.dir d)
  unfolding remove_file removed_state
  remove_file_absent name d n = rw (remove_file, fine remove name d.faults, n) refl

  remove_file_present :
      (name c : Bytes) (d : DiskCache F)
      → find name d.dir ≡ some c
      → remove_file system name d ≡ (none, removed_state name (erase name d.dir) d)
  unfolding remove_file removed_state
  remove_file_present name c d s = rw (remove_file, fine remove name d.faults, s) refl

  pub remove_file-Removes : (name : Bytes) (d : DiskCache F) → Removes name d
  unfolding removed_state
  remove_file-Removes name d = elim (Option-cases (find name d.dir)) [
    | inl n ↦ record {
      shrinks = rw (remove_file_absent name d n) (same_files-Shrinks d _ refl refl refl);
      gone = rw (remove_file_absent name d n) n;
      fewer = λ c s. absurd (ground (arith, n, s));
      succeeds = rw (remove_file_absent name d n) (λ h. cc);
    }
    | inr (c, s) ↦ record {
      shrinks = rw (remove_file_present name c d s) (erase-Shrinks name d.index _ d);
      gone =
          rw (remove_file_present name c d s)
            (ground (arith, find-erase name name d.dir, eq_refl name));
      fewer = λ b h. rw (remove_file_present name c d s) (total-erase name b d.dir h);
      succeeds = rw (remove_file_present name c d s) (λ h. rw s refl);
    }
  ]
