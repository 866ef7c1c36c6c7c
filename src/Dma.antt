-- ===== src/Dma.antt =====
-- The C part of the VE DMA library, src/vedma_init.c: the one-time setup and the wait for a transfer.
pub mod Setup
pub mod Mapping
pub mod Ring
use libsysve.Prelude.{ℕ, zero, suc, ◌+◌, Bool, true, false, ◌==◌, if◌then◌else◌, Option, none, some}
use libsysve.Prelude.Int.{ℤ, pos, negsuc, ◌==ℤ◌, minus_one}

-- `vedma_vars`, `vedma_ctrl`, `ve_dma_initialized`, and whether `init_lock` is held.
pub record DmaState (K : Type 0) : Type 0 where
  pub kernel : K
  pub init_lock : Bool
  pub ve_dma_initialized : Bool
  pub vedma_desc : ℕ
  pub vedma_ctrl : ℕ
  pub vedma_index : ℕ
  pub vedma_lock : ℕ
  pub vedma_status : ℕ → ℕ

-- `ve_map_dmades`: a return value, and the two addresses.
pub record Mapped : Type 0 where
  pub ret : ℤ
  pub vehva_dmades : ℕ
  pub vehva_dmactl : ℕ

-- A call comes back, or waits for ever for a lock that nobody holds to release.
pub data Call (S : Type 0) : Type 0 where
  returned : ℤ → S → Call S
  blocked : Call S

module _ {K : Type 0} (map_dmades : K → Mapped × K) where
  -- With the lock held: what follows `ve_map_dmades`.
  unfoldable pub mapped : Mapped × K → DmaState K → Call (DmaState K)
  mapped (a, k) s =
      let s' = record s { kernel = k; vedma_desc = a.vehva_dmades; vedma_ctrl = a.vehva_dmactl } in
      if a.ret ==ℤ pos 0
      then returned (pos 0) (record s' {
        vedma_index = 0;
        vedma_lock = 0;
        vedma_status = λ _. 0;
        ve_dma_initialized = true;
        init_lock = false;
      })
      else returned a.ret s'

  unfoldable pub locked : DmaState K → Call (DmaState K)
  locked s =
      let first = mapped (map_dmades s.kernel) s in
      if s.ve_dma_initialized then returned (pos 0) (record s { init_lock = false }) else first

  unfoldable pub ve_dma_init : DmaState K → Call (DmaState K)
  ve_dma_init s = if s.init_lock then blocked else locked (record s { init_lock = true })

  -- The handler that the child of a fork runs.
  unfoldable pub clear_skip_flag : DmaState K → DmaState K
  clear_skip_flag s = record s { ve_dma_initialized = false }

-- -EAGAIN, and whether a value is at least 1.
abbrev pub minus_eagain : ℤ
minus_eagain = negsuc 10

abbrev pub is_positive : ℤ → Bool
is_positive (pos zero) = false
is_positive (pos (suc n)) = true
is_positive (negsuc n) = false

-- The loop of `ve_dma_wait`, `none` when the fuel ends first.
unfoldable pub ve_dma_wait : {D : Type 0} → (poll : D → ℤ × D) → (fuel : ℕ) → D → Option (ℤ × D)
ve_dma_wait poll zero d = none
ve_dma_wait poll (suc fuel) d =
    let (ret, d') = poll d in
    let rest = ve_dma_wait poll fuel d' in
    if is_positive ret
    then some (ret, d')
    else (if ret ==ℤ minus_eagain then rest else some (ret, d'))
