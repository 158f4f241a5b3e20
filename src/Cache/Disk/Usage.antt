-- ===== src/Cache/Disk/Usage.antt =====
-- middleware/cache/disk_cache.go: the counted size, the files and the limit.
use httpio.Base.{ℕ, ◌+◌, ◌≤◌, ℤ, pos, pos_part, neg_part, ◌≤ℤ◌, ◌-ℤ◌, ◌≡◌, ap, int_laws}
use httpio.Cache.Disk.{DiskCache}
use httpio.Cache.Disk.Files.{total, Shrinks}

-- The files take no more than the counted size, which is within the bound.
pub record Usage {F : Type 0} (limit bound : ℤ) (d : DiskCache F) : Type 0 where
  pub limited : d.max_disk_size ≡ limit
  pub covered : pos (total d.dir) ≤ℤ d.current_size
  pub bounded : d.current_size ≤ℤ bound

module _ {F : Type 0} (limit bound : ℤ) where
  pub Shrinks-Usage :
      (d d' : DiskCache F) → Shrinks d d' → Usage limit bound d → Usage limit bound d'
  Shrinks-Usage d d' less u = record {
    limited = cc;
    covered =
        omega
          (int_laws, u.covered, less.less, ap pos_part less.same_size, ap neg_part less.same_size);
    bounded = omega (int_laws, u.bounded, ap pos_part less.same_size, ap neg_part less.same_size);
  }

  -- So many bytes are gone, and subtracted.
  pub subtract-Usage :
      (n : ℕ) (d d' : DiskCache F)
      → Shrinks d d'
      → total d'.dir + n ≤ total d.dir
      → Usage limit bound d
      → Usage limit bound (record d' { current_size = d'.current_size -ℤ pos n })
  subtract-Usage n d d' less gone u = record {
    limited = cc;
    covered =
        omega (int_laws, gone, u.covered, ap pos_part less.same_size, ap neg_part less.same_size);
    bounded = omega (int_laws, u.bounded, ap pos_part less.same_size, ap neg_part less.same_size);
  }

  -- So many bytes are subtracted, and gone then.
  pub subtract_first-Usage :
      (n : ℕ) (d d' d'' : DiskCache F)
      → d'.current_size ≡ d.current_size -ℤ pos n
      → d'.max_disk_size ≡ d.max_disk_size
      → Shrinks d' d''
      → total d''.dir + n ≤ total d.dir
      → Usage limit bound d
      → Usage limit bound d''
  subtract_first-Usage n d d' d'' size same less gone u =
      let size' : d''.current_size ≡ d.current_size -ℤ pos n = cc in
      record {
        limited = cc;
        covered = rw size' (omega (int_laws, gone, u.covered));
        bounded = rw size' (omega (int_laws, u.bounded));
      }
