-- ===== src/Sysve/Perform.antt =====
-- The functions of the library by their calls, and the C types that they return.
use libsysve.Prelude.{ℕ, List}
use libsysve.Prelude.Int.{ℤ, pos}
use libsysve.Sysve.{
  Arg, Numbers, ve_get_pci_sync, ve_get_fixed_vehva, ve_set_user_reg, ve_get_ve_info,
  ve_set_next_thread_worker, ve_stop_user_threads, ve_start_user_threads, ve_get_user_threads_state,
  ve_get_numa_node, ve_get_veos_pid, ve_get_nonswappable, ve_get_vemva_region,
  ve_get_ve_product_name, ve_is_acc_io_enabled, get_proginf_data, ve_get_original_addr,
}
use libsysve.Sysve.Shared.{
  ve_shared_mem_open, ve_shared_mem_attach, ve_shared_mem_detach, ve_shared_mem_close,
  ve_get_pgmode, vh_shmget, vh_shmat, vh_shmdt,
}
use libsysve.Sysve.Cr.{
  ve_cr_alloc_crset, ve_cr_attach_dir, ve_cr_attach_dma, ve_cr_release_dir, ve_cr_release_dma,
  ve_map_dmades, ve_unmap_dmades,
}
use libsysve.Sysve.Vh.{vhcall_install, vhcall_find, vhcall_invoke, vhcall_uninstall}
use libsysve.Sysve.Words.{int_of, long_of}
use libsysve.Sysve.Served.{
  LibCall, pci_sync, fixed_vehva, user_reg, ve_info, next_thread_worker, stop_threads,
  start_threads, threads_state, numa_node, veos_pid, nonswappable, vemva_region, product_name,
  acc_io_enabled, proginf_data, original_addr, shared_mem_open, shared_mem_attach,
  shared_mem_detach, shared_mem_close, pgmode, shmget, shmat, shmdt, alloc_crset, attach_dir,
  attach_dma, release_dir, release_dma, map, unmap, install, find_symbol, invoke_function,
  uninstall,
}

-- A pointer or an address as it is.
abbrev pub as_address : {S : Type 0} → ℕ × S → ℤ × S
as_address (r, s) = (pos r, s)

module _ {S : Type 0} (n : Numbers) (syscall : ℕ → List Arg → S → ℕ × S) where
  -- The functions by their calls.
  unfoldable pub perform : LibCall → S → ℤ × S
  perform (pci_sync a b c) s = ve_get_pci_sync n syscall a b c s
  perform (fixed_vehva a b) s = ve_get_fixed_vehva n syscall a b s
  perform (user_reg a b) s = ve_set_user_reg n syscall a b s
  perform (ve_info a b c) s = ve_get_ve_info n syscall a b c s
  perform next_thread_worker s = ve_set_next_thread_worker n syscall s
  perform stop_threads s = ve_stop_user_threads n syscall s
  perform start_threads s = ve_start_user_threads n syscall s
  perform threads_state s = ve_get_user_threads_state n syscall s
  perform (numa_node a) s = ve_get_numa_node n syscall a s
  perform veos_pid s = ve_get_veos_pid n syscall s
  perform (nonswappable a) s = ve_get_nonswappable n syscall a s
  perform (vemva_region a b c) s = ve_get_vemva_region n syscall a b c s
  perform (product_name a b) s = ve_get_ve_product_name n syscall a b s
  perform acc_io_enabled s = ve_is_acc_io_enabled n syscall s
  perform (proginf_data a b) s = get_proginf_data n syscall a b s
  perform (original_addr a) s = ve_get_original_addr n syscall a s
  perform (shared_mem_open a b c d) s = ve_shared_mem_open n syscall a b c d s
  perform (shared_mem_attach a b c d e) s = as_address (ve_shared_mem_attach n syscall a b c d e s)
  perform (shared_mem_detach a b) s = ve_shared_mem_detach n syscall a b s
  perform (shared_mem_close a b c d) s = ve_shared_mem_close n syscall a b c d s
  perform (pgmode a b c) s = ve_get_pgmode n syscall a b c s
  perform (shmget a b c) s = vh_shmget n syscall a b c s
  perform (shmat a b c d) s = as_address (vh_shmat n syscall a b c d s)
  perform (shmdt a) s = vh_shmdt n syscall a s
  perform (alloc_crset a) s = ve_cr_alloc_crset n syscall a s
  perform (attach_dir a b) s = ve_cr_attach_dir n syscall a b s
  perform (attach_dma a b) s = ve_cr_attach_dma n syscall a b s
  perform (release_dir a) s = ve_cr_release_dir n syscall a s
  perform (release_dma a) s = ve_cr_release_dma n syscall a s
  perform (map a b) s = ve_map_dmades n syscall a b s
  perform (unmap a) s = ve_unmap_dmades n syscall a s
  perform (install a) s = as_address (vhcall_install n syscall a s)
  perform (find_symbol a b) s = vhcall_find n syscall a b s
  perform (invoke_function a b c d e) s = vhcall_invoke n syscall a b c d e s
  perform (uninstall a) s = vhcall_uninstall n syscall a s

-- The C type that a function returns.
pub data Return : Type 0 where
  return_int : Return
  return_int64 : Return
  return_address : Return

abbrev pub returns : LibCall → Return
returns (original_addr a) = return_int64
returns (shared_mem_attach a b c d e) = return_address
returns (shmat a b c d) = return_address
returns (alloc_crset a) = return_int64
returns (attach_dir a b) = return_int64
returns (attach_dma a b) = return_int64
returns (install a) = return_address
returns (find_symbol a b) = return_int64
returns (invoke_function a b c d e) = return_int64
returns _ = return_int

abbrev pub converted : Return → ℕ → ℤ
converted return_int w = int_of w
converted return_int64 w = long_of w
converted return_address w = pos w
