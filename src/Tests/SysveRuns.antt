-- ===== src/Tests/SysveRuns.antt =====
-- Calls of the library with an operating system that keeps a log of what it is asked.
use libsysve.Prelude.{ℕ, ◌^◌, ◌≡◌, refl, List, [], ◌∷◌, ◌==◌, if◌then◌else◌, arith}
use libsysve.Prelude.Int.{pos, negsuc}
use libsysve.Sysve.{
  Numbers, as_int, Command, VeshmCommand, VhshmCommand, CrCommand, sysve_get_pcisync,
  sysve_get_fixed_vehva, sysve_set_user_reg, sysve_get_ve_info, sysve_set_next_thread_worker,
  sysve_stop_user_threads, sysve_start_user_threads, sysve_get_user_threads_state,
  sysve_get_veos_pid, sysve_get_mns, sysve_vemva_region, sysve_get_ve_product_name,
  sysve_is_acc_io_enabled, sysve_get_proginf_data, sysve_getorgaddr, sysve_veshm_ctl,
  sysve_vhshm_ctl, sysve_cr_ctl, sysve_map_dmades, sysve_unmap_dmades, sysve_vhcall_install,
  sysve_vhcall_find, sysve_vhcall_invoke, sysve_vhcall_uninstall, veshm_open, veshm_attach,
  veshm_detach, veshm_close, veshm_pgsize, vhshm_get, vhshm_at, vhshm_dt, cr_alloc, cr_attach_local,
  cr_attach_remote, cr_release_local, cr_release_remote,
}
use libsysve.Sysve.Shared.{ve_register_mem_to_dmaatb, ve_unregister_mem_from_dmaatb}
use libsysve.Sysve.Served.{LibCall, Tells, shared_mem_attach, shared_mem_detach}
use libsysve.Sysve.Perform.{perform}
use libsysve.Sysve.Requests.{serve, perform-serve, register-serve}

abbrev pub command_number : Command → ℕ
command_number sysve_get_pcisync = 0
command_number sysve_get_fixed_vehva = 1
command_number sysve_set_user_reg = 2
command_number sysve_get_ve_info = 3
command_number sysve_set_next_thread_worker = 4
command_number sysve_stop_user_threads = 5
command_number sysve_start_user_threads = 6
command_number sysve_get_user_threads_state = 7
command_number sysve_get_veos_pid = 8
command_number sysve_get_mns = 9
command_number sysve_vemva_region = 10
command_number sysve_get_ve_product_name = 11
command_number sysve_is_acc_io_enabled = 12
command_number sysve_get_proginf_data = 13
command_number sysve_getorgaddr = 14
command_number sysve_veshm_ctl = 15
command_number sysve_vhshm_ctl = 16
command_number sysve_cr_ctl = 17
command_number sysve_map_dmades = 18
command_number sysve_unmap_dmades = 19
command_number sysve_vhcall_install = 20
command_number sysve_vhcall_find = 21
command_number sysve_vhcall_invoke = 22
command_number sysve_vhcall_uninstall = 23

abbrev pub command_of : ℕ → Command
command_of w =
    if w == 0
    then sysve_get_pcisync
    else (if w == 1
        then sysve_get_fixed_vehva
        else (if w == 2
            then sysve_set_user_reg
            else (if w == 3
                then sysve_get_ve_info
                else (if w == 4
                    then sysve_set_next_thread_worker
                    else (if w == 5
                        then sysve_stop_user_threads
                        else (if w == 6
                            then sysve_start_user_threads
                            else (if w == 7
                                then sysve_get_user_threads_state
                                else (if w == 8
                                    then sysve_get_veos_pid
                                    else (if w == 9
                                        then sysve_get_mns
                                        else (if w == 10
                                            then sysve_vemva_region
                                            else (if w == 11
                                                then sysve_get_ve_product_name
                                                else (if w == 12
                                                    then sysve_is_acc_io_enabled
                                                    else (if w == 13
                                                        then sysve_get_proginf_data
                                                        else (if w == 14
                                                            then sysve_getorgaddr
                                                            else (if w == 15
                                                            then sysve_veshm_ctl
                                                            else (if w == 16
                                                            then sysve_vhshm_ctl
                                                            else (if w == 17
                                                            then sysve_cr_ctl
                                                            else (if w == 18
                                                            then sysve_map_dmades
                                                            else (if w == 19
                                                            then sysve_unmap_dmades
                                                            else (if w == 20
                                                            then sysve_vhcall_install
                                                            else (if w == 21
                                                            then sysve_vhcall_find
                                                            else (if w == 22
                                                            then sysve_vhcall_invoke
                                                            else (sysve_vhcall_uninstall)))))))))))))))))))))))

pub command_of-command_number : (c : Command) → command_of (command_number c) ≡ c
command_of-command_number sysve_get_pcisync = refl
command_of-command_number sysve_get_fixed_vehva = refl
command_of-command_number sysve_set_user_reg = refl
command_of-command_number sysve_get_ve_info = refl
command_of-command_number sysve_set_next_thread_worker = refl
command_of-command_number sysve_stop_user_threads = refl
command_of-command_number sysve_start_user_threads = refl
command_of-command_number sysve_get_user_threads_state = refl
command_of-command_number sysve_get_veos_pid = refl
command_of-command_number sysve_get_mns = refl
command_of-command_number sysve_vemva_region = refl
command_of-command_number sysve_get_ve_product_name = refl
command_of-command_number sysve_is_acc_io_enabled = refl
command_of-command_number sysve_get_proginf_data = refl
command_of-command_number sysve_getorgaddr = refl
command_of-command_number sysve_veshm_ctl = refl
command_of-command_number sysve_vhshm_ctl = refl
command_of-command_number sysve_cr_ctl = refl
command_of-command_number sysve_map_dmades = refl
command_of-command_number sysve_unmap_dmades = refl
command_of-command_number sysve_vhcall_install = refl
command_of-command_number sysve_vhcall_find = refl
command_of-command_number sysve_vhcall_invoke = refl
command_of-command_number sysve_vhcall_uninstall = refl

abbrev pub veshm_number : VeshmCommand → ℕ
veshm_number veshm_open = 0
veshm_number veshm_attach = 1
veshm_number veshm_detach = 2
veshm_number veshm_close = 3
veshm_number veshm_pgsize = 4

abbrev pub veshm_of : ℕ → VeshmCommand
veshm_of w =
    if w == 0
    then veshm_open
    else (if w == 1
        then veshm_attach
        else (if w == 2 then veshm_detach else (if w == 3 then veshm_close else (veshm_pgsize))))

pub veshm_of-veshm_number : (c : VeshmCommand) → veshm_of (veshm_number c) ≡ c
veshm_of-veshm_number veshm_open = refl
veshm_of-veshm_number veshm_attach = refl
veshm_of-veshm_number veshm_detach = refl
veshm_of-veshm_number veshm_close = refl
veshm_of-veshm_number veshm_pgsize = refl

abbrev pub vhshm_number : VhshmCommand → ℕ
vhshm_number vhshm_get = 0
vhshm_number vhshm_at = 1
vhshm_number vhshm_dt = 2

abbrev pub vhshm_of : ℕ → VhshmCommand
vhshm_of w = if w == 0 then vhshm_get else (if w == 1 then vhshm_at else (vhshm_dt))

pub vhshm_of-vhshm_number : (c : VhshmCommand) → vhshm_of (vhshm_number c) ≡ c
vhshm_of-vhshm_number vhshm_get = refl
vhshm_of-vhshm_number vhshm_at = refl
vhshm_of-vhshm_number vhshm_dt = refl

abbrev pub cr_number : CrCommand → ℕ
cr_number cr_alloc = 0
cr_number cr_attach_local = 1
cr_number cr_attach_remote = 2
cr_number cr_release_local = 3
cr_number cr_release_remote = 4

abbrev pub cr_of : ℕ → CrCommand
cr_of w =
    if w == 0
    then cr_alloc
    else (if w == 1
        then cr_attach_local
        else (if w == 2
            then cr_attach_remote
            else (if w == 3 then cr_release_local else (cr_release_remote))))

pub cr_of-cr_number : (c : CrCommand) → cr_of (cr_number c) ≡ c
cr_of-cr_number cr_alloc = refl
cr_of-cr_number cr_attach_local = refl
cr_of-cr_number cr_attach_remote = refl
cr_of-cr_number cr_release_local = refl
cr_of-cr_number cr_release_remote = refl

abbrev pub numbers : Numbers
numbers = record {
  sys_sysve = 316;
  nr_getcpu = 309;
  ve_sysve = command_number;
  veshm = veshm_number;
  vhshm = vhshm_number;
  cr = cr_number;
  ve_mem_local = pos 4;
}

abbrev pub tells : Tells numbers
tells = record {
  command_of = command_of;
  veshm_of = veshm_of;
  vhshm_of = vhshm_of;
  cr_of = cr_of;
  ve_sysve = command_of-command_number;
  veshm = veshm_of-veshm_number;
  vhshm = vhshm_of-vhshm_number;
  cr = cr_of-cr_number;
  getcpu = omega arith;
}

abbrev log : LibCall → List LibCall → ℕ × List LibCall
log c s = (2 ^ 31, c ∷ s)

perform-serve_example :
    perform numbers
      (serve numbers tells log)
      (shared_mem_attach (negsuc 2) 4096 64 (pos 0) (pos 4))
      []
    ≡ (pos (2 ^ 31), shared_mem_attach (negsuc 2) 4096 64 (pos 0) (pos 4) ∷ [])
perform-serve_example =
    perform-serve numbers tells log (shared_mem_attach (negsuc 2) 4096 64 (pos 0) (pos 4))
      ((omega arith, omega arith), (omega arith, omega arith), (omega arith, omega arith)) []

register-serve_example :
    (ve_register_mem_to_dmaatb numbers (serve numbers tells log) (λ s. (pos 77, s)) 4096 64 []
      ≡ (2 ^ 31, shared_mem_attach (pos 77) 4096 64 (pos 0) (pos 4) ∷ []))
    × (ve_unregister_mem_from_dmaatb numbers (serve numbers tells log) 8192 []
        ≡ as_int (2 ^ 31, shared_mem_detach 8192 (pos 4) ∷ []))
register-serve_example =
    register-serve numbers tells log (λ s. (pos 77, s)) 4096 64 8192 [] (omega arith, omega arith)
      (omega arith, omega arith)
