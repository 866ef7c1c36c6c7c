-- ===== src/Sysve.antt =====
-- The library functions that are one system call each: src/libsysve.c here, and in the children
-- src/libveshm.c, src/libvedma.c, src/libvhshm.c, src/libvecr.c, src/libuserdma.c and the plain calls of src/libvhcall.c.
-- A result is the 64 bits of the C library's `long`, converted as the return type says.
pub mod Words
pub mod Shared
pub mod Cr
pub mod Vh
pub mod Served
pub mod Perform
pub mod Requests
use libsysve.Prelude.{ℕ, List, [], ◌∷◌}
use libsysve.Prelude.Int.{ℤ}
use libsysve.Sysve.Words.{int_of, long_of}

-- An argument of `syscall`: a word of 64 bits, an `int` that the call leaves as it is, or the address of
-- a local array.
pub data Arg : Type 0 where
  u64 : ℕ → Arg
  int32 : ℤ → Arg
  array : List ℕ → Arg

-- VE_SYSVE_*
pub data Command : Type 0 where
  sysve_get_pcisync : Command
  sysve_get_fixed_vehva : Command
  sysve_set_user_reg : Command
  sysve_get_ve_info : Command
  sysve_set_next_thread_worker : Command
  sysve_stop_user_threads : Command
  sysve_start_user_threads : Command
  sysve_get_user_threads_state : Command
  sysve_get_veos_pid : Command
  sysve_get_mns : Command
  sysve_vemva_region : Command
  sysve_get_ve_product_name : Command
  sysve_is_acc_io_enabled : Command
  sysve_get_proginf_data : Command
  sysve_getorgaddr : Command
  sysve_veshm_ctl : Command
  sysve_vhshm_ctl : Command
  sysve_cr_ctl : Command
  sysve_map_dmades : Command
  sysve_unmap_dmades : Command
  sysve_vhcall_install : Command
  sysve_vhcall_find : Command
  sysve_vhcall_invoke : Command
  sysve_vhcall_uninstall : Command

-- VESHM_*
pub data VeshmCommand : Type 0 where
  veshm_open : VeshmCommand
  veshm_attach : VeshmCommand
  veshm_detach : VeshmCommand
  veshm_close : VeshmCommand
  veshm_pgsize : VeshmCommand

-- VHSHM_*
pub data VhshmCommand : Type 0 where
  vhshm_get : VhshmCommand
  vhshm_at : VhshmCommand
  vhshm_dt : VhshmCommand

-- CR_*
pub data CrCommand : Type 0 where
  cr_alloc : CrCommand
  cr_attach_local : CrCommand
  cr_attach_remote : CrCommand
  cr_release_local : CrCommand
  cr_release_remote : CrCommand

-- The constants of veos_defs.h and its companions.
pub record Numbers : Type 0 where
  pub sys_sysve : ℕ
  pub nr_getcpu : ℕ
  pub ve_sysve : Command → ℕ
  pub veshm : VeshmCommand → ℕ
  pub vhshm : VhshmCommand → ℕ
  pub cr : CrCommand → ℕ
  pub ve_mem_local : ℤ

-- `int ret = syscall(..); return ret;`
abbrev pub as_int : {S : Type 0} → ℕ × S → ℤ × S
as_int (r, s) = (int_of r, s)

abbrev pub as_int64 : {S : Type 0} → ℕ × S → ℤ × S
as_int64 (r, s) = (long_of r, s)

module _ {S : Type 0} (n : Numbers) (syscall : ℕ → List Arg → S → ℕ × S) where
  -- `syscall(SYS_sysve, VE_SYSVE_.., ..)`
  abbrev pub sysve : Command → List Arg → S → ℕ × S
  sysve c args s = syscall n.sys_sysve (u64 (n.ve_sysve c) ∷ args) s

  unfoldable pub ve_get_pci_sync : (syncnum pcisyar pcisymr : ℕ) → S → ℤ × S
  ve_get_pci_sync syncnum pcisyar pcisymr s =
      as_int (sysve sysve_get_pcisync (u64 syncnum ∷ u64 pcisyar ∷ u64 pcisymr ∷ []) s)

  unfoldable pub ve_get_fixed_vehva : (region vehva : ℕ) → S → ℤ × S
  ve_get_fixed_vehva region vehva s =
      as_int (sysve sysve_get_fixed_vehva (u64 region ∷ u64 vehva ∷ []) s)

  unfoldable pub ve_set_user_reg : (reg value : ℕ) → S → ℤ × S
  ve_set_user_reg reg value s = as_int (sysve sysve_set_user_reg (u64 reg ∷ u64 value ∷ []) s)

  -- The result goes through an `int`, although the function returns `ssize_t`.
  unfoldable pub ve_get_ve_info : (name buffer size : ℕ) → S → ℤ × S
  ve_get_ve_info name buffer size s =
      as_int (sysve sysve_get_ve_info (u64 name ∷ u64 buffer ∷ u64 size ∷ []) s)

  unfoldable pub ve_set_next_thread_worker : S → ℤ × S
  ve_set_next_thread_worker s = as_int (sysve sysve_set_next_thread_worker [] s)

  unfoldable pub ve_stop_user_threads : S → ℤ × S
  ve_stop_user_threads s = as_int (sysve sysve_stop_user_threads [] s)

  unfoldable pub ve_start_user_threads : S → ℤ × S
  ve_start_user_threads s = as_int (sysve sysve_start_user_threads [] s)

  unfoldable pub ve_get_user_threads_state : S → ℤ × S
  ve_get_user_threads_state s = as_int (sysve sysve_get_user_threads_state [] s)

  unfoldable pub ve_get_numa_node : (node : ℕ) → S → ℤ × S
  ve_get_numa_node node s = as_int (syscall n.nr_getcpu (u64 0 ∷ u64 node ∷ u64 0 ∷ []) s)

  unfoldable pub ve_get_veos_pid : S → ℤ × S
  ve_get_veos_pid s = as_int (sysve sysve_get_veos_pid [] s)

  unfoldable pub ve_get_nonswappable : (size : ℕ) → S → ℤ × S
  ve_get_nonswappable size s = as_int (sysve sysve_get_mns (u64 size ∷ []) s)

  unfoldable pub ve_get_vemva_region : (addr size offset : ℕ) → S → ℤ × S
  ve_get_vemva_region addr size offset s =
      as_int (sysve sysve_vemva_region (u64 addr ∷ u64 size ∷ u64 offset ∷ []) s)

  unfoldable pub ve_get_ve_product_name : (name size : ℕ) → S → ℤ × S
  ve_get_ve_product_name name size s =
      as_int (sysve sysve_get_ve_product_name (u64 name ∷ u64 size ∷ []) s)

  unfoldable pub ve_is_acc_io_enabled : S → ℤ × S
  ve_is_acc_io_enabled s = as_int (sysve sysve_is_acc_io_enabled [] s)

  unfoldable pub get_proginf_data : (version : ℤ) → (buffer : ℕ) → S → ℤ × S
  get_proginf_data version buffer s =
      as_int (sysve sysve_get_proginf_data (int32 version ∷ u64 buffer ∷ []) s)

  unfoldable pub ve_get_original_addr : (mod_vemva : ℕ) → S → ℤ × S
  ve_get_original_addr mod_vemva s = as_int64 (sysve sysve_getorgaddr (u64 mod_vemva ∷ []) s)
