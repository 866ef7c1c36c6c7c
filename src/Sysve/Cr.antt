-- ===== src/Sysve/Cr.antt =====
-- Communication registers, src/libvecr.c, and the descriptors of user DMA, src/libuserdma.c.
use libsysve.Prelude.{ℕ, List, [], ◌∷◌}
use libsysve.Prelude.Int.{ℤ}
use libsysve.Sysve.{
  Arg, u64, Numbers, as_int, as_int64, sysve, sysve_cr_ctl, sysve_map_dmades, sysve_unmap_dmades,
  cr_alloc, cr_attach_local, cr_attach_remote, cr_release_local, cr_release_remote,
}
use libsysve.Sysve.Words.{word_of}

module _ {S : Type 0} (n : Numbers) (syscall : ℕ → List Arg → S → ℕ × S) where
  unfoldable pub ve_cr_alloc_crset : (mode_flag : ℕ) → S → ℤ × S
  ve_cr_alloc_crset mode_flag s =
      as_int64 (sysve n syscall sysve_cr_ctl (u64 (n.cr cr_alloc) ∷ u64 mode_flag ∷ []) s)

  unfoldable pub ve_cr_attach_dir : (pid : ℤ) → (crd_number : ℕ) → S → ℤ × S
  ve_cr_attach_dir pid crd_number s = as_int64 (
      sysve n syscall sysve_cr_ctl
        (u64 (n.cr cr_attach_local) ∷ u64 (word_of pid) ∷ u64 crd_number ∷ []) s)

  unfoldable pub ve_cr_attach_dma : (pid : ℤ) → (crd_number : ℕ) → S → ℤ × S
  ve_cr_attach_dma pid crd_number s = as_int64 (
      sysve n syscall sysve_cr_ctl
        (u64 (n.cr cr_attach_remote) ∷ u64 (word_of pid) ∷ u64 crd_number ∷ []) s)

  unfoldable pub ve_cr_release_dir : (crd_number : ℕ) → S → ℤ × S
  ve_cr_release_dir crd_number s =
      as_int (sysve n syscall sysve_cr_ctl (u64 (n.cr cr_release_local) ∷ u64 crd_number ∷ []) s)

  unfoldable pub ve_cr_release_dma : (vehva : ℕ) → S → ℤ × S
  ve_cr_release_dma vehva s =
      as_int (sysve n syscall sysve_cr_ctl (u64 (n.cr cr_release_remote) ∷ u64 vehva ∷ []) s)

  unfoldable pub ve_map_dmades : (vehva_dmades vehva_dmactl : ℕ) → S → ℤ × S
  ve_map_dmades vehva_dmades vehva_dmactl s =
      as_int (sysve n syscall sysve_map_dmades (u64 vehva_dmades ∷ u64 vehva_dmactl ∷ []) s)

  unfoldable pub ve_unmap_dmades : (vehva_dmades : ℕ) → S → ℤ × S
  ve_unmap_dmades vehva_dmades s =
      as_int (sysve n syscall sysve_unmap_dmades (u64 vehva_dmades ∷ []) s)
