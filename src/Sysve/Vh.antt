-- ===== src/Sysve/Vh.antt =====
-- The functions of src/libvhcall.c that are one system call. A handle is a word of 64 bits.
use libsysve.Prelude.{ℕ, List, [], ◌∷◌}
use libsysve.Prelude.Int.{ℤ}
use libsysve.Sysve.{
  Arg, u64, Numbers, as_int, as_int64, sysve, sysve_vhcall_install, sysve_vhcall_find,
  sysve_vhcall_invoke, sysve_vhcall_uninstall,
}
use libsysve.Sysve.Words.{word_of}

module _ {S : Type 0} (n : Numbers) (syscall : ℕ → List Arg → S → ℕ × S) where
  unfoldable pub vhcall_install : (filename : ℕ) → S → ℕ × S
  vhcall_install filename s = sysve n syscall sysve_vhcall_install (u64 filename ∷ []) s

  unfoldable pub vhcall_find : (hdl symname : ℕ) → S → ℤ × S
  vhcall_find hdl symname s =
      as_int64 (sysve n syscall sysve_vhcall_find (u64 hdl ∷ u64 symname ∷ []) s)

  unfoldable pub vhcall_invoke : (symid : ℤ) → (inptr insize outptr outsize : ℕ) → S → ℤ × S
  vhcall_invoke symid inptr insize outptr outsize s = as_int64 (
      sysve n syscall sysve_vhcall_invoke
        (u64 (word_of symid) ∷ u64 inptr ∷ u64 insize ∷ u64 outptr ∷ u64 outsize ∷ []) s)

  unfoldable pub vhcall_uninstall : (hdl : ℕ) → S → ℤ × S
  vhcall_uninstall hdl s = as_int (sysve n syscall sysve_vhcall_uninstall (u64 hdl ∷ []) s)
