-- ===== src/Acc/Process.antt =====
-- The state that src/accelerated_io.c keeps for a process and the calling thread, and the functions it
-- calls. Addresses are numbers, and 0 is NULL.
use libsysve.Prelude.{ℕ, Bool, Option}
use libsysve.Prelude.Int.{ℤ}

-- `acc_io_resources`. `ve_io_buff` is the address of the array.
pub record AccIoResources : Type 0 where
  pub local_vehva : ℕ
  pub vehva : ℕ
  pub vh_buff : ℕ
  pub ve_io_buff : ℕ
  pub next : ℕ
  pub prev : ℕ

-- `constructor_result`
pub data Constructed : Type 0 where
  accelerated_io : Constructed
  pdma_io : Constructed

-- What a `*_hook` of the C library points to.
pub data Hook : Type 0 where
  none_set : Hook
  library : Hook
  other : ℕ → Hook

pub record Hooks : Type 0 where
  pub read_hook : Hook
  pub pread_hook : Hook
  pub readv_hook : Hook
  pub preadv_hook : Hook
  pub write_hook : Hook
  pub pwrite_hook : Hook
  pub writev_hook : Hook
  pub pwritev_hook : Hook

-- `sys` is all that lies outside: the kernel, the environment, the allocator. `key` is the thread's
-- value of `acc_io_resources_key`.
pub record Process (K : Type 0) : Type 0 where
  pub sys : K
  pub errno : ℕ
  pub constructor_result : Constructed
  pub ve_buff_using_flag : Bool
  pub key : ℕ
  pub heap : ℕ → AccIoResources
  pub hooks : Hooks
  pub sigmask : ℕ
  pub acc_io_sigset_old : ℕ
  pub list_locked : Bool

-- `getenv` with `strtol(.., &ptr, 2)`: the number as an `int`, and what `strlen(ptr)` is.
pub record Setting : Type 0 where
  pub number : ℤ
  pub rest_length : ℕ

-- What VE_SYSVE_ACCELERATED_IO_INIT2 fills in.
pub record Init2 : Type 0 where
  pub vhva : ℕ
  pub vehva : ℕ
  pub local_vehva : ℕ

-- A call that gives a value, and may set errno.
abbrev pub Call : Type 0 → Type 0 → Type 0
Call K A = K → ℕ → A × (K × ℕ)

pub record World (K : Type 0) : Type 0 where
  pub acc_io_sigset : ℕ
  pub list_head : ℕ
  pub accelerated_io_flag : ℕ
  pub setting_pdma : K → Option Setting
  pub setting_atomic : K → Option Setting
  pub ve_dma_init : Call K ℤ
  pub malloc : Call K ℕ
  pub ve_io_buff_of : ℕ → ℕ
  pub init2 : ℕ → Call K (Option Init2)
  pub setspecific : ℕ → Call K Bool
  pub free_vh_buf : ℕ → Call K ℤ
  pub unregister_dmaatb : ℕ → ℕ → Call K ℤ
  pub free : ℕ → K → K

-- Run a call in the process.
abbrev pub run : {K A : Type 0} → Call K A → Process K → A × Process K
run f p = let (a, s) = f p.sys p.errno in (a, record p { sys = s.0; errno = s.1 })
