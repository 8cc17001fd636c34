-- ===== src/Proc/Write.antt =====
-- What the write methods do, and what the show methods tell afterwards.
use virtual_time_kernel.Base.{ℕ, ◌≡◌, refl, arith, false, List, [], ◌∷◌, Option, some, ◌⊎◌, ==_refl}
use virtual_time_kernel.Base.Int.{ℤ, pos, negsuc, ◌<ℤ◌}
use virtual_time_kernel.Math64.{Math64}
use virtual_time_kernel.Timespec.{Timespec}
use virtual_time_kernel.Task.{Tree, Forest, node, Kernel, In_forest}
use virtual_time_kernel.Dilation.{freeze_time, read_wall}
use virtual_time_kernel.Dilation.Thaw.{at_reading, unfreeze_leader}
use virtual_time_kernel.Dilation.Subtree.{set_dilation-root, set_dilation-negative}
use virtual_time_kernel.Proc.{
  frozen, running, number, freeze_show, dilation_show, freeze_write, dilation_write, copied,
  freeze_max, tdf_max,
}

module _ (m : Math64) (wall : ℕ → Timespec) where
  -- After a write to freeze whose first byte is '1' the file says that the process is frozen, also
  -- if it was frozen before, with a wall clock after 1970.
  freeze_show-freeze_write_1 :
      (p : ℕ) (kids : Forest) (copy : ℕ → Option (List ℕ)) (count : ℕ) (rest : List ℕ) (k : Kernel)
      → copy (copied count freeze_max) ≡ some (b'1' ∷ rest)
      → pos 0 <ℤ at_reading wall k.reads
      → freeze_show (some p) (freeze_write m wall (some (node p kids)) copy count k).0
        ≡ (pos 0, frozen ∷ [])
  unfolding freeze_show freeze_write freeze_time read_wall
  freeze_show-freeze_write_1 p kids copy count rest k bytes after =
      rw (bytes, freeze_write) (ground (arith, ==_refl p))

  -- After a write whose first byte is '0' it says that the process runs, whatever it was before.
  freeze_show-freeze_write_0 :
      (p : ℕ) (kids : Forest) (copy : ℕ → Option (List ℕ)) (count : ℕ) (rest : List ℕ) (k : Kernel)
      → copy (copied count freeze_max) ≡ some (b'0' ∷ rest)
      → In_forest p kids ≡ false
      → freeze_show (some p) (freeze_write m wall (some (node p kids)) copy count k).0
        ≡ (pos 0, running ∷ [])
  unfolding freeze_show freeze_write
  freeze_show-freeze_write_0 p kids copy count rest k bytes out =
      rw (bytes, freeze_write) (rw (unfreeze_leader m wall p kids k out))

  -- After a write to dilation, which reports its full count, the file shows the number that kstrtoint
  -- reads in the bytes copied, the first seven of the write at most, if that number is 0 or more and the
  -- process is not its own descendant.
  pub dilation_show-dilation_write :
      (kstrtoint : List ℕ → Option ℤ) (p : ℕ) (kids : Forest) (copy : ℕ → Option (List ℕ))
      (count : ℕ) (buffer : List ℕ) (tdf : ℕ) (k : Kernel)
      → copy (copied count tdf_max) ≡ some buffer
      → kstrtoint buffer ≡ some (pos tdf)
      → In_forest p kids ≡ false
      → let r = dilation_write m wall kstrtoint (some (node p kids)) copy count k in
        (r.1 ≡ pos count) × (dilation_show (some p) r.0 ≡ (pos 0, number (pos tdf) ∷ []))
  unfolding dilation_show dilation_write
  dilation_show-dilation_write kstrtoint p kids copy count buffer tdf k bytes read out =
      rw (bytes, dilation_write)
        (rw (read, dilation_write)
          (refl, rw (set_dilation-root m wall (pos tdf) p kids k refl out)))

  -- A write to dilation of a negative number reports success, and has changed nothing.
  pub dilation_write-negative :
      (kstrtoint : List ℕ → Option ℤ) (t : Tree) (copy : ℕ → Option (List ℕ)) (count : ℕ)
      (buffer : List ℕ) (n : ℕ) (k : Kernel)
      → copy (copied count tdf_max) ≡ some buffer
      → kstrtoint buffer ≡ some (negsuc n)
      → dilation_write m wall kstrtoint (some t) copy count k ≡ (k, pos count)
  unfolding dilation_write
  dilation_write-negative kstrtoint t copy count buffer n k bytes read =
      rw (bytes, dilation_write)
        (rw (read, dilation_write) (rw (set_dilation-negative m wall (negsuc n) t k (omega arith))))

  -- A write to freeze or dilation that reports an error has changed nothing.
  pub write-error :
      (kstrtoint : List ℕ → Option ℤ) (task : Option Tree) (copy : ℕ → Option (List ℕ)) (count : ℕ)
      (k : Kernel)
      → let f = freeze_write m wall task copy count k in
        let d = dilation_write m wall kstrtoint task copy count k in
        ((f.1 ≡ pos count) ⊎ (f.0 ≡ k)) × ((d.1 ≡ pos count) ⊎ (d.0 ≡ k))
  unfolding freeze_write dilation_write
  write-error kstrtoint task copy count k = ground arith
