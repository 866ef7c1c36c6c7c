-- ===== src/Sysve/Served.antt =====
-- What a function of the library asks of the operating system: the calls as data, and how a kernel that
-- knows the constants reads the arguments of a system call.
use libsysve.Prelude.{
  ℕ, zero, suc, ◌≡◌, ◌≢◌, refl, List, [], ◌∷◌, ◌==◌, if◌then◌else◌, true, false, arith,
}
use libsysve.Prelude.Int.{ℤ}
use libsysve.Sysve.{
  Arg, u64, int32, array, Command, VeshmCommand, VhshmCommand, CrCommand, Numbers,
  sysve_get_pcisync, sysve_get_fixed_vehva, sysve_set_user_reg, sysve_get_ve_info,
  sysve_set_next_thread_worker, sysve_stop_user_threads, sysve_start_user_threads,
  sysve_get_user_threads_state, sysve_get_veos_pid, sysve_get_mns, sysve_vemva_region,
  sysve_get_ve_product_name, sysve_is_acc_io_enabled, sysve_get_proginf_data, sysve_getorgaddr,
  sysve_veshm_ctl, sysve_vhshm_ctl, sysve_cr_ctl, sysve_map_dmades, sysve_unmap_dmades,
  sysve_vhcall_install, sysve_vhcall_find, sysve_vhcall_invoke, sysve_vhcall_uninstall, veshm_open,
  veshm_attach, veshm_detach, veshm_close, veshm_pgsize, vhshm_get, vhshm_at, vhshm_dt, cr_alloc,
  cr_attach_local, cr_attach_remote, cr_release_local, cr_release_remote,
}
use libsysve.Sysve.Words.{word_of, int_of, long_of, FitsInt, FitsLong}

-- A call of a library function, with its arguments.
pub data LibCall : Type 0 where
  pci_sync : (syncnum pcisyar pcisymr : ℕ) → LibCall
  fixed_vehva : (region vehva : ℕ) → LibCall
  user_reg : (reg value : ℕ) → LibCall
  ve_info : (name buffer size : ℕ) → LibCall
  next_thread_worker : LibCall
  stop_threads : LibCall
  start_threads : LibCall
  threads_state : LibCall
  numa_node : (node : ℕ) → LibCall
  veos_pid : LibCall
  nonswappable : (size : ℕ) → LibCall
  vemva_region : (addr size offset : ℕ) → LibCall
  product_name : (name size : ℕ) → LibCall
  acc_io_enabled : LibCall
  proginf_data : (version : ℤ) → (buffer : ℕ) → LibCall
  original_addr : (mod_vemva : ℕ) → LibCall
  shared_mem_open : (vemva size : ℕ) → (syncnum mode_flag : ℤ) → LibCall
  shared_mem_attach : (pid : ℤ) → (vemva size : ℕ) → (syncnum mode_flag : ℤ) → LibCall
  shared_mem_detach : (addr : ℕ) → (mode_flag : ℤ) → LibCall
  shared_mem_close : (vemva size : ℕ) → (syncnum mode_flag : ℤ) → LibCall
  pgmode : (mode_flag pid : ℤ) → (address : ℕ) → LibCall
  shmget : (key : ℤ) → (size : ℕ) → (shmflag : ℤ) → LibCall
  shmat : (shmid : ℤ) → (shmaddr : ℕ) → (shmflag : ℤ) → (vehva : ℕ) → LibCall
  shmdt : (shmaddr : ℕ) → LibCall
  alloc_crset : (mode_flag : ℕ) → LibCall
  attach_dir : (pid : ℤ) → (crd_number : ℕ) → LibCall
  attach_dma : (pid : ℤ) → (crd_number : ℕ) → LibCall
  release_dir : (crd_number : ℕ) → LibCall
  release_dma : (vehva : ℕ) → LibCall
  map : (vehva_dmades vehva_dmactl : ℕ) → LibCall
  unmap : (vehva_dmades : ℕ) → LibCall
  install : (filename : ℕ) → LibCall
  find_symbol : (hdl symname : ℕ) → LibCall
  invoke_function : (symid : ℤ) → (inptr insize outptr outsize : ℕ) → LibCall
  uninstall : (hdl : ℕ) → LibCall

-- The signed arguments are values of their C types.
abbrev pub Ranged : LibCall → Type 0
Ranged (proginf_data version buffer) = FitsInt version
Ranged (shared_mem_open vemva size syncnum mode_flag) = FitsInt syncnum × FitsLong mode_flag
Ranged (shared_mem_attach pid vemva size syncnum mode_flag) =
    FitsInt pid × FitsInt syncnum × FitsLong mode_flag
Ranged (shared_mem_detach addr mode_flag) = FitsLong mode_flag
Ranged (shared_mem_close vemva size syncnum mode_flag) = FitsInt syncnum × FitsLong mode_flag
Ranged (pgmode mode_flag pid address) = FitsLong mode_flag × FitsInt pid
Ranged (shmget key size shmflag) = FitsInt key × FitsInt shmflag
Ranged (shmat shmid shmaddr shmflag vehva) = FitsInt shmid × FitsInt shmflag
Ranged (attach_dir pid crd_number) = FitsInt pid
Ranged (attach_dma pid crd_number) = FitsInt pid
Ranged (invoke_function symid inptr insize outptr outsize) = FitsLong symid
Ranged _ = Unit {0}

-- The constants can be told apart.
pub record Tells (n : Numbers) : Type 0 where
  pub command_of : ℕ → Command
  pub veshm_of : ℕ → VeshmCommand
  pub vhshm_of : ℕ → VhshmCommand
  pub cr_of : ℕ → CrCommand
  pub ve_sysve : (c : Command) → command_of (n.ve_sysve c) ≡ c
  pub veshm : (c : VeshmCommand) → veshm_of (n.veshm c) ≡ c
  pub vhshm : (c : VhshmCommand) → vhshm_of (n.vhshm c) ≡ c
  pub cr : (c : CrCommand) → cr_of (n.cr c) ≡ c
  pub getcpu : n.nr_getcpu ≢ n.sys_sysve

abbrev pub word : ℕ → List Arg → ℕ
word i [] = 0
word zero (u64 w ∷ args) = w
word zero (int32 z ∷ args) = word_of z
word zero (array ws ∷ args) = 0
word (suc i) (_ ∷ args) = word i args

abbrev pub nth : ℕ → List ℕ → ℕ
nth i [] = 0
nth zero (w ∷ ws) = w
nth (suc i) (w ∷ ws) = nth i ws

-- A word of the array whose address is the third argument.
abbrev pub element : ℕ → List Arg → ℕ
element i (_ ∷ _ ∷ array ws ∷ args) = nth i ws
element i _ = 0

module _ (n : Numbers) (t : Tells n) where
  abbrev pub veshm_call : VeshmCommand → List Arg → LibCall
  veshm_call veshm_open a =
      shared_mem_open (word 2 a) (word 3 a) (int_of (word 4 a)) (long_of (word 5 a))
  veshm_call veshm_attach a =
      shared_mem_attach (int_of (element 0 a)) (element 1 a) (element 2 a) (int_of (element 3 a))
        (long_of (element 4 a))
  veshm_call veshm_detach a = shared_mem_detach (word 2 a) (long_of (word 3 a))
  veshm_call veshm_close a =
      shared_mem_close (word 2 a) (word 3 a) (int_of (word 4 a)) (long_of (word 5 a))
  veshm_call veshm_pgsize a = pgmode (long_of (word 2 a)) (int_of (word 3 a)) (word 4 a)

  abbrev pub vhshm_call : VhshmCommand → List Arg → LibCall
  vhshm_call vhshm_get a = shmget (int_of (word 2 a)) (word 3 a) (int_of (word 4 a))
  vhshm_call vhshm_at a = shmat (int_of (word 2 a)) (word 3 a) (int_of (word 4 a)) (word 5 a)
  vhshm_call vhshm_dt a = shmdt (word 2 a)

  abbrev pub cr_call : CrCommand → List Arg → LibCall
  cr_call cr_alloc a = alloc_crset (word 2 a)
  cr_call cr_attach_local a = attach_dir (int_of (word 2 a)) (word 3 a)
  cr_call cr_attach_remote a = attach_dma (int_of (word 2 a)) (word 3 a)
  cr_call cr_release_local a = release_dir (word 2 a)
  cr_call cr_release_remote a = release_dma (word 2 a)

  abbrev pub sysve_call : Command → List Arg → LibCall
  sysve_call sysve_get_pcisync a = pci_sync (word 1 a) (word 2 a) (word 3 a)
  sysve_call sysve_get_fixed_vehva a = fixed_vehva (word 1 a) (word 2 a)
  sysve_call sysve_set_user_reg a = user_reg (word 1 a) (word 2 a)
  sysve_call sysve_get_ve_info a = ve_info (word 1 a) (word 2 a) (word 3 a)
  sysve_call sysve_set_next_thread_worker a = next_thread_worker
  sysve_call sysve_stop_user_threads a = stop_threads
  sysve_call sysve_start_user_threads a = start_threads
  sysve_call sysve_get_user_threads_state a = threads_state
  sysve_call sysve_get_veos_pid a = veos_pid
  sysve_call sysve_get_mns a = nonswappable (word 1 a)
  sysve_call sysve_vemva_region a = vemva_region (word 1 a) (word 2 a) (word 3 a)
  sysve_call sysve_get_ve_product_name a = product_name (word 1 a) (word 2 a)
  sysve_call sysve_is_acc_io_enabled a = acc_io_enabled
  sysve_call sysve_get_proginf_data a = proginf_data (int_of (word 1 a)) (word 2 a)
  sysve_call sysve_getorgaddr a = original_addr (word 1 a)
  sysve_call sysve_veshm_ctl a = veshm_call (t.veshm_of (word 1 a)) a
  sysve_call sysve_vhshm_ctl a = vhshm_call (t.vhshm_of (word 1 a)) a
  sysve_call sysve_cr_ctl a = cr_call (t.cr_of (word 1 a)) a
  sysve_call sysve_map_dmades a = map (word 1 a) (word 2 a)
  sysve_call sysve_unmap_dmades a = unmap (word 1 a)
  sysve_call sysve_vhcall_install a = install (word 1 a)
  sysve_call sysve_vhcall_find a = find_symbol (word 1 a) (word 2 a)
  sysve_call sysve_vhcall_invoke a =
      invoke_function (long_of (word 1 a)) (word 2 a) (word 3 a) (word 4 a) (word 5 a)
  sysve_call sysve_vhcall_uninstall a = uninstall (word 1 a)

  -- The call that a system call stands for.
  unfoldable pub decode : ℕ → List Arg → LibCall
  decode number a =
      if number == n.sys_sysve then sysve_call (t.command_of (word 0 a)) a else numa_node (word 1 a)

  pub decode-sysve :
      (c : Command) (a : List Arg)
      → decode n.sys_sysve (u64 (n.ve_sysve c) ∷ a) ≡ sysve_call c (u64 (n.ve_sysve c) ∷ a)
  unfolding decode
  decode-sysve c a =
      let known : (n.sys_sysve == n.sys_sysve) ≡ true = ground arith in
      rw known (rw (t.ve_sysve c) refl)

  pub decode-getcpu :
      (node : ℕ) → decode n.nr_getcpu (u64 0 ∷ u64 node ∷ u64 0 ∷ []) ≡ numa_node node
  unfolding decode
  decode-getcpu node =
      let other : (n.nr_getcpu == n.sys_sysve) ≡ false = ground (arith, t.getcpu) in rw other refl
