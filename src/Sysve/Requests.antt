-- ===== src/Sysve/Requests.antt =====
-- Each function of the library makes the operating system carry out exactly the call it stands for.
use libsysve.Prelude.{ℕ, ◌≡◌, refl, ap, ◌∙◌, List, ◌∷◌, arith}
use libsysve.Prelude.Int.{ℤ, pos}
use libsysve.Sysve.{
  u64, Command, as_int, as_int64, Arg, Numbers, sysve_get_pcisync, sysve_get_fixed_vehva,
  sysve_set_user_reg, sysve_get_ve_info, sysve_set_next_thread_worker, sysve_stop_user_threads,
  sysve_start_user_threads, sysve_get_user_threads_state, sysve_get_veos_pid, sysve_get_mns,
  sysve_vemva_region, sysve_get_ve_product_name, sysve_is_acc_io_enabled, sysve_get_proginf_data,
  sysve_getorgaddr, sysve_veshm_ctl, sysve_vhshm_ctl, sysve_cr_ctl, sysve_map_dmades,
  sysve_unmap_dmades, sysve_vhcall_install, sysve_vhcall_find, sysve_vhcall_invoke,
  sysve_vhcall_uninstall, veshm_open, veshm_attach, veshm_detach, veshm_close, veshm_pgsize,
  vhshm_get, vhshm_at, vhshm_dt, cr_alloc, cr_attach_local, cr_attach_remote, cr_release_local,
  cr_release_remote, ve_get_pci_sync, ve_get_fixed_vehva, ve_set_user_reg, ve_get_ve_info,
  ve_set_next_thread_worker, ve_stop_user_threads, ve_start_user_threads, ve_get_user_threads_state,
  ve_get_numa_node, ve_get_veos_pid, ve_get_nonswappable, ve_get_vemva_region,
  ve_get_ve_product_name, ve_is_acc_io_enabled, get_proginf_data, ve_get_original_addr,
}
use libsysve.Sysve.Shared.{
  ve_shared_mem_open, ve_shared_mem_attach, ve_shared_mem_detach, ve_shared_mem_close,
  ve_get_pgmode, vh_shmget, vh_shmat, vh_shmdt, ve_register_mem_to_dmaatb,
  ve_unregister_mem_from_dmaatb,
}
use libsysve.Sysve.Cr.{
  ve_cr_alloc_crset, ve_cr_attach_dir, ve_cr_attach_dma, ve_cr_release_dir, ve_cr_release_dma,
  ve_map_dmades, ve_unmap_dmades,
}
use libsysve.Sysve.Vh.{vhcall_install, vhcall_find, vhcall_invoke, vhcall_uninstall}
use libsysve.Sysve.Words.{FitsInt, FitsInt-FitsLong, int_of-word_of, long_of-word_of}
use libsysve.Sysve.Perform.{as_address, perform, returns, converted}
use libsysve.Sysve.Served.{
  sysve_call, LibCall, Ranged, Tells, pci_sync, fixed_vehva, user_reg, ve_info, next_thread_worker,
  stop_threads, start_threads, threads_state, numa_node, veos_pid, nonswappable, vemva_region,
  product_name, acc_io_enabled, proginf_data, original_addr, shared_mem_open, shared_mem_attach,
  shared_mem_detach, shared_mem_close, pgmode, shmget, shmat, shmdt, alloc_crset, attach_dir,
  attach_dma, release_dir, release_dma, map, unmap, install, find_symbol, invoke_function,
  uninstall, decode, decode-sysve, decode-getcpu,
}

module _ {S : Type 0} (n : Numbers) (t : Tells n) (h : LibCall → S → ℕ × S) where
  -- An operating system that carries out calls by `h`.
  abbrev pub serve : ℕ → List Arg → S → ℕ × S
  serve number a s = h (decode n t number a) s

  asked :
      (c : Command) (a : List Arg) (call : LibCall) (s : S)
      → sysve_call n t c (u64 (n.ve_sysve c) ∷ a) ≡ call
      → serve n.sys_sysve (u64 (n.ve_sysve c) ∷ a) s ≡ h call s
  asked c a call s reads = ap (λ d. h d s) (decode-sysve n t c a ∙ reads)

  -- Each function of libsysve.c, libveshm.c, libvhshm.c, libvecr.c and libuserdma.c, and
  -- vhcall_install, vhcall_find, vhcall_invoke and vhcall_uninstall, makes the operating system
  -- carry out exactly the call it stands for, once and with the caller's arguments, and returns
  -- its result as the return type converts it. The system reads the arguments from their words;
  -- the constants differ from each other, and signed arguments are values of their C types.
  pub perform-serve :
      (c : LibCall)
      → Ranged c
      → (s : S) → perform n serve c s ≡ (converted (returns c) (h c s).0, (h c s).1)
  unfolding perform ve_get_pci_sync ve_get_fixed_vehva ve_set_user_reg ve_get_ve_info
      ve_set_next_thread_worker ve_stop_user_threads ve_start_user_threads ve_get_user_threads_state
      ve_get_numa_node ve_get_veos_pid ve_get_nonswappable ve_get_vemva_region
      ve_get_ve_product_name ve_is_acc_io_enabled get_proginf_data ve_get_original_addr
      ve_shared_mem_open ve_shared_mem_attach ve_shared_mem_detach ve_shared_mem_close ve_get_pgmode
      vh_shmget vh_shmat vh_shmdt ve_cr_alloc_crset ve_cr_attach_dir ve_cr_attach_dma
      ve_cr_release_dir ve_cr_release_dma ve_map_dmades ve_unmap_dmades vhcall_install vhcall_find
      vhcall_invoke vhcall_uninstall
  perform-serve (numa_node a) r s = ap as_int (ap (λ d. h d s) (decode-getcpu n t a))
  perform-serve (pci_sync a b c) r s = ap as_int (asked sysve_get_pcisync _ _ s refl)
  perform-serve (fixed_vehva a b) r s = ap as_int (asked sysve_get_fixed_vehva _ _ s refl)
  perform-serve (user_reg a b) r s = ap as_int (asked sysve_set_user_reg _ _ s refl)
  perform-serve (ve_info a b c) r s = ap as_int (asked sysve_get_ve_info _ _ s refl)
  perform-serve next_thread_worker r s = ap as_int (asked sysve_set_next_thread_worker _ _ s refl)
  perform-serve stop_threads r s = ap as_int (asked sysve_stop_user_threads _ _ s refl)
  perform-serve start_threads r s = ap as_int (asked sysve_start_user_threads _ _ s refl)
  perform-serve threads_state r s = ap as_int (asked sysve_get_user_threads_state _ _ s refl)
  perform-serve veos_pid r s = ap as_int (asked sysve_get_veos_pid _ _ s refl)
  perform-serve (nonswappable a) r s = ap as_int (asked sysve_get_mns _ _ s refl)
  perform-serve (vemva_region a b c) r s = ap as_int (asked sysve_vemva_region _ _ s refl)
  perform-serve (product_name a b) r s = ap as_int (asked sysve_get_ve_product_name _ _ s refl)
  perform-serve acc_io_enabled r s = ap as_int (asked sysve_is_acc_io_enabled _ _ s refl)
  perform-serve (proginf_data a b) r s =
      ap as_int (asked sysve_get_proginf_data _ _ s (rw (int_of-word_of a r) refl))
  perform-serve (original_addr a) r s = ap as_int64 (asked sysve_getorgaddr _ _ s refl)
  perform-serve (shared_mem_open a b c d) (rc, rd) s = ap as_int (
      asked sysve_veshm_ctl _ _ s
        (rw (t.veshm veshm_open, int_of-word_of c rc, long_of-word_of d rd) refl))
  perform-serve (shared_mem_attach a b c d e) (ra, rd, re) s = ap as_address (
      asked sysve_veshm_ctl _ _ s (
        rw (t.veshm veshm_attach, int_of-word_of a ra, int_of-word_of d rd, long_of-word_of e re)
          refl))
  perform-serve (shared_mem_detach a b) r s =
      ap as_int (asked sysve_veshm_ctl _ _ s (rw (t.veshm veshm_detach, long_of-word_of b r) refl))
  perform-serve (shared_mem_close a b c d) (rc, rd) s = ap as_int (
      asked sysve_veshm_ctl _ _ s
        (rw (t.veshm veshm_close, int_of-word_of c rc, long_of-word_of d rd) refl))
  perform-serve (pgmode a b c) (ra, rb) s = ap as_int (
      asked sysve_veshm_ctl _ _ s
        (rw (t.veshm veshm_pgsize, long_of-word_of a ra, int_of-word_of b rb) refl))
  perform-serve (shmget a b c) (ra, rc) s = ap as_int (
      asked sysve_vhshm_ctl _ _ s
        (rw (t.vhshm vhshm_get, int_of-word_of a ra, int_of-word_of c rc) refl))
  perform-serve (shmat a b c d) (ra, rc) s = ap as_address (
      asked sysve_vhshm_ctl _ _ s
        (rw (t.vhshm vhshm_at, int_of-word_of a ra, int_of-word_of c rc) refl))
  perform-serve (shmdt a) r s = ap as_int (asked sysve_vhshm_ctl _ _ s (rw (t.vhshm vhshm_dt) refl))
  perform-serve (alloc_crset a) r s =
      ap as_int64 (asked sysve_cr_ctl _ _ s (rw (t.cr cr_alloc) refl))
  perform-serve (attach_dir a b) r s =
      ap as_int64 (asked sysve_cr_ctl _ _ s (rw (t.cr cr_attach_local, int_of-word_of a r) refl))
  perform-serve (attach_dma a b) r s =
      ap as_int64 (asked sysve_cr_ctl _ _ s (rw (t.cr cr_attach_remote, int_of-word_of a r) refl))
  perform-serve (release_dir a) r s =
      ap as_int (asked sysve_cr_ctl _ _ s (rw (t.cr cr_release_local) refl))
  perform-serve (release_dma a) r s =
      ap as_int (asked sysve_cr_ctl _ _ s (rw (t.cr cr_release_remote) refl))
  perform-serve (map a b) r s = ap as_int (asked sysve_map_dmades _ _ s refl)
  perform-serve (unmap a) r s = ap as_int (asked sysve_unmap_dmades _ _ s refl)
  perform-serve (install a) r s = ap as_address (asked sysve_vhcall_install _ _ s refl)
  perform-serve (find_symbol a b) r s = ap as_int64 (asked sysve_vhcall_find _ _ s refl)
  perform-serve (invoke_function a b c d e) r s =
      ap as_int64 (asked sysve_vhcall_invoke _ _ s (rw (long_of-word_of a r) refl))
  perform-serve (uninstall a) r s = ap as_int (asked sysve_vhcall_uninstall _ _ s refl)

  -- ve_register_mem_to_dmaatb asks for an attachment of the memory by the caller's own process in
  -- the local mode and returns its address; ve_unregister_mem_from_dmaatb asks for a detachment of
  -- the address in the same mode. The process id and the mode are values of int, and the constants
  -- differ from each other.
  pub register-serve :
      (getpid : S → ℤ × S) (vemva size vehva : ℕ) (s : S)
      → FitsInt (getpid s).0
      → FitsInt n.ve_mem_local
      → (ve_register_mem_to_dmaatb n serve getpid vemva size s
          ≡ h (shared_mem_attach (getpid s).0 vemva size (pos 0) n.ve_mem_local) (getpid s).1)
        × (ve_unregister_mem_from_dmaatb n serve vehva s
            ≡ as_int (h (shared_mem_detach vehva n.ve_mem_local) s))
  unfolding ve_register_mem_to_dmaatb ve_unregister_mem_from_dmaatb ve_shared_mem_attach
      ve_shared_mem_detach
  register-serve getpid vemva size vehva s pid_fits mode_fits = (
    asked sysve_veshm_ctl _ _ (getpid s).1 (
        rw
          (
            t.veshm veshm_attach,
            int_of-word_of (getpid s).0 pid_fits,
            int_of-word_of (pos 0) (omega arith, omega arith),
            long_of-word_of n.ve_mem_local (FitsInt-FitsLong n.ve_mem_local mode_fits),
          )
          refl),
    ap as_int (
        asked sysve_veshm_ctl _ _ s (
          rw
            (
              t.veshm veshm_detach,
              long_of-word_of n.ve_mem_local (FitsInt-FitsLong n.ve_mem_local mode_fits),
            )
            refl)),
  )
