-- ===== src/Sysve/Shared.antt =====
-- Shared memory of VE processes, src/libveshm.c and src/libvedma.c, and of the VH, src/libvhshm.c.
use libsysve.Prelude.{ℕ, List, [], ◌∷◌}
use libsysve.Prelude.Int.{ℤ, pos}
use libsysve.Sysve.{
  Arg, u64, int32, array, Numbers, as_int, sysve, sysve_veshm_ctl, sysve_vhshm_ctl, veshm_open,
  veshm_attach, veshm_detach, veshm_close, veshm_pgsize, vhshm_get, vhshm_at, vhshm_dt,
}
use libsysve.Sysve.Words.{word_of}

module _ {S : Type 0} (n : Numbers) (syscall : ℕ → List Arg → S → ℕ × S) where
  unfoldable pub ve_shared_mem_open : (vemva size : ℕ) → (syncnum mode_flag : ℤ) → S → ℤ × S
  ve_shared_mem_open vemva size syncnum mode_flag s = as_int (
      sysve n syscall sysve_veshm_ctl
        (u64 (n.veshm veshm_open)
          ∷ u64 vemva
          ∷ u64 size
          ∷ u64 (word_of syncnum)
          ∷ u64 (word_of mode_flag)
          ∷ [])
        s)

  -- The arguments go in an array of VESHM_MAX_ARGS words.
  unfoldable pub ve_shared_mem_attach :
      (pid : ℤ) → (veshm_vemva size : ℕ) → (syncnum mode_flag : ℤ) → S → ℕ × S
  ve_shared_mem_attach pid veshm_vemva size syncnum mode_flag s =
      sysve n syscall sysve_veshm_ctl
        (u64 (n.veshm veshm_attach)
          ∷ array (word_of pid ∷ veshm_vemva ∷ size ∷ word_of syncnum ∷ word_of mode_flag ∷ [])
          ∷ [])
        s

  unfoldable pub ve_shared_mem_detach : (veshm_addr : ℕ) → (mode_flag : ℤ) → S → ℤ × S
  ve_shared_mem_detach veshm_addr mode_flag s = as_int (
      sysve n syscall sysve_veshm_ctl
        (u64 (n.veshm veshm_detach) ∷ u64 veshm_addr ∷ u64 (word_of mode_flag) ∷ []) s)

  unfoldable pub ve_shared_mem_close : (vemva size : ℕ) → (syncnum mode_flag : ℤ) → S → ℤ × S
  ve_shared_mem_close vemva size syncnum mode_flag s = as_int (
      sysve n syscall sysve_veshm_ctl
        (u64 (n.veshm veshm_close)
          ∷ u64 vemva
          ∷ u64 size
          ∷ u64 (word_of syncnum)
          ∷ u64 (word_of mode_flag)
          ∷ [])
        s)

  unfoldable pub ve_get_pgmode : (mode_flag pid : ℤ) → (address : ℕ) → S → ℤ × S
  ve_get_pgmode mode_flag pid address s = as_int (
      sysve n syscall sysve_veshm_ctl
        (u64 (n.veshm veshm_pgsize) ∷ u64 (word_of mode_flag) ∷ int32 pid ∷ u64 address ∷ []) s)

  -- `getpid` is the C library's.
  unfoldable pub ve_register_mem_to_dmaatb : (S → ℤ × S) → (vemva size : ℕ) → S → ℕ × S
  ve_register_mem_to_dmaatb getpid vemva size s =
      let (pid, s') = getpid s in ve_shared_mem_attach pid vemva size (pos 0) n.ve_mem_local s'

  unfoldable pub ve_unregister_mem_from_dmaatb : (vehva : ℕ) → S → ℤ × S
  ve_unregister_mem_from_dmaatb vehva s = ve_shared_mem_detach vehva n.ve_mem_local s

  unfoldable pub vh_shmget : (key : ℤ) → (size : ℕ) → (shmflag : ℤ) → S → ℤ × S
  vh_shmget key size shmflag s = as_int (
      sysve n syscall sysve_vhshm_ctl
        (u64 (n.vhshm vhshm_get) ∷ u64 (word_of key) ∷ u64 size ∷ u64 (word_of shmflag) ∷ []) s)

  unfoldable pub vh_shmat : (shmid : ℤ) → (shmaddr : ℕ) → (shmflag : ℤ) → (vehva : ℕ) → S → ℕ × S
  vh_shmat shmid shmaddr shmflag vehva s =
      sysve n syscall sysve_vhshm_ctl
        (u64 (n.vhshm vhshm_at)
          ∷ u64 (word_of shmid)
          ∷ u64 shmaddr
          ∷ u64 (word_of shmflag)
          ∷ u64 vehva
          ∷ [])
        s

  unfoldable pub vh_shmdt : (shmaddr : ℕ) → S → ℤ × S
  vh_shmdt shmaddr s =
      as_int (sysve n syscall sysve_vhshm_ctl (u64 (n.vhshm vhshm_dt) ∷ u64 shmaddr ∷ []) s)
