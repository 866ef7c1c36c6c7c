-- ===== src/Dma/Ring.antt =====
-- The ring of DMA descriptors, src/vedma_main.S: posting a transfer, asking for its result, and a
-- transfer that is waited for. A call holds `vedma_lock` from its first access to its last, so it is one
-- step; `ve_dma_post_wait` gives the lock back while it waits, so it is two.
pub mod Life
pub mod Agree
pub mod Bounds
pub mod Saves
pub mod Starts
pub mod Ends
pub mod Completes
pub mod Results
use libsysve.Prelude.{
  ℕ, suc, ◌+◌, ◌*◌, ◌/◌, ◌%◌, ◌^◌, Bool, ◌==◌, if◌then◌else◌, ◌||◌, Option, none, some, update,
}
use libsysve.Prelude.Int.{ℤ, pos, ◌==ℤ◌, minus_one}
use libsysve.Dma.{minus_eagain}

-- `ve_dma_handle_t`
pub record Handle : Type 0 where
  pub status : ℤ
  pub index : ℕ

-- `vedma_vars` without its lock, the descriptors at `vedma_desc` as four words, and the handles by address.
-- An entry of `vedma_status` is NULL (0), 1 for a transfer that is waited for, or a handle's address.
pub record Ring : Type 0 where
  pub vedma_index : ℕ
  pub vedma_status : ℕ → ℕ
  pub word : ℕ → ℕ
  pub size : ℕ → ℕ
  pub src : ℕ → ℕ
  pub dst : ℕ → ℕ
  pub handle : ℕ → Handle

-- A descriptor's first word: bit 1 says that the transfer is over, the upper 16 bits hold its exception.
abbrev pub is_done : ℕ → Bool
is_done w = w / 2 % 2 == 1

abbrev pub exception_of : ℕ → ℕ
exception_of w = w / 2 ^ 48

-- "save DMA status" and "clear vedma_status[index]" for the transfer that is over in descriptor `i`.
unfoldable pub save_status : (i : ℕ) → Ring → Ring
save_status i s =
    let h = s.vedma_status i in
    record s {
      handle = update s.handle h (record (s.handle h) { status = pos (exception_of (s.word i)) });
      vedma_status = update s.vedma_status i 0;
    }

-- "set SYNC flag" and "start DMA" in the next descriptor, whose entry becomes `entry`; the index goes on.
unfoldable pub start_dma : (dst src size entry : ℕ) → Ring → Ring
start_dma dst src size entry s =
    let i = s.vedma_index in
    record s {
      dst = update s.dst i dst;
      src = update s.src i src;
      size = update s.size i (size % 2 ^ 32 + 8 * 2 ^ 32);
      word = update s.word i 1;
      vedma_status = update s.vedma_status i entry;
      vedma_index = (i + 1) % 128;
    }

-- "initialize handle"
unfoldable pub init_handle : (h i : ℕ) → Ring → Ring
init_handle h i s = record s {
  handle = update s.handle h (record { status = minus_one; index = i });
}

-- From "set SYNC flag" to "set 0 to return value".
unfoldable pub post_next : (dst src size h : ℕ) → Ring → ℤ × Ring
post_next dst src size h s = (pos 0, init_handle h s.vedma_index (start_dma dst src size h s))

unfoldable pub ve_dma_post : (dst src size h : ℕ) → Ring → ℤ × Ring
ve_dma_post dst src size h s =
    let i = s.vedma_index in
    if s.vedma_status i == 1
    then (minus_eagain, s)
    else (if s.vedma_status i == 0
        then post_next dst src size h s
        else (if is_done (s.word i)
            then post_next dst src size h (save_status i s)
            else (minus_eagain, s)))

unfoldable pub ve_dma_poll : (h : ℕ) → Ring → ℤ × Ring
ve_dma_poll h s =
    let i = (s.handle h).index in
    if (s.handle h).status ==ℤ minus_one
    then (if is_done (s.word i)
        then (pos (exception_of (s.word i)), record s { vedma_status = update s.vedma_status i 0 })
        else (minus_eagain, s))
    else ((s.handle h).status, s)

-- `ve_dma_post_wait` until it unlocks; `none` while it waits for the descriptor to be free.
unfoldable pub post_wait_enter : (dst src size : ℕ) → Ring → Option Ring
post_wait_enter dst src size s =
    let i = s.vedma_index in
    if s.vedma_status i == 1
    then none
    else (if s.vedma_status i == 0
        then some (start_dma dst src size 1 s)
        else (if is_done (s.word i)
            then some (start_dma dst src size 1 (save_status i s))
            else none))

-- Its end, with the transfer in descriptor `i`; `none` while it waits for the transfer.
unfoldable pub post_wait_leave : (i : ℕ) → Ring → Option (ℕ × Ring)
post_wait_leave i s =
    if is_done (s.word i)
    then some (exception_of (s.word i), record s { vedma_status = update s.vedma_status i 0 })
    else none

-- Two control registers go to `regs[0]` and `regs[1]`; `ctrl` is the device's, by its address.
unfoldable pub ve_dma_read_ctrl_reg : (ctrl : ℕ → ℕ) → (vedma_ctrl regs : ℕ) → (ℕ → ℕ) → ℕ → ℕ
ve_dma_read_ctrl_reg ctrl vedma_ctrl regs mem =
    update (update mem regs (ctrl vedma_ctrl)) (regs + 8) (ctrl (vedma_ctrl + 8))
