-- ===== src/Memcpy.antt =====
-- `__libsysve_vec_memcpy` of src/libsysve_vec_memcpy.S, instruction by instruction: bytes up to an aligned
-- address, then vectors of words of 8 or 4 bytes, then the bytes that are left.
pub mod Blocks
pub mod Copies
use libsysve.Prelude.{
  ℕ, zero, suc, ◌+◌, ◌-◌, ◌*◌, ◌/◌, ◌%◌, Bool, not, ◌==◌, ltb, leb, if◌then◌else◌, Option, none,
  some, Bytes, copy,
}

-- The memory, and the registers s63 (`p`, in the destination), s62 (`q`, in the source) and s61 (`n`,
-- the bytes to go).
pub record Regs : Type 0 where
  pub mem : Bytes
  pub p : ℕ
  pub q : ℕ
  pub n : ℕ

-- Load `b` bytes at q and store them at p, then go on: `ld1b` and `st1b` with 1, `ld` and `st` with 8,
-- `vld` and `vst` (`vldl` and `vstl`) with 8 (4) for each element.
unfoldable pub move : (b : ℕ) → Regs → Regs
move b r = record {
  mem = copy r.mem r.p (λ k. r.mem (r.q + k)) b;
  p = r.p + b;
  q = r.q + b;
  n = r.n - b;
}

-- A loop that moves `b` bytes and branches back on `test`; `none` when the fuel ends first.
unfoldable pub do_while : (b : ℕ) → (test : Regs → Bool) → (fuel : ℕ) → Regs → Option Regs
do_while b test zero r = none
do_while b test (suc fuel) r =
    let s = move b r in let rest = do_while b test fuel s in if test s then rest else some s

infixl 5 ◌>>=◌
abbrev pub ◌>>=◌ : Option Regs → (Regs → Option Regs) → Option Regs
none >>= f = none
some r >>= f = f r

-- .L_pre8 and .L_pre4, with words of `w` bytes.
unfoldable pub pre_bytes : (w : ℕ) → Regs → Option Regs
pre_bytes w r = do_while 1 (λ s. not (s.p % w == 0)) w r

-- .L_post8 and .L_post4
unfoldable pub post_bytes : Regs → Option Regs
post_bytes r = do_while 1 (λ s. ltb 0 s.n) r.n r

-- .L_rem8_2 and .L_rem4_2
unfoldable pub rem_bytes : (w : ℕ) → Regs → Option Regs
rem_bytes w r = if r.n % w == 0 then some r else post_bytes r

-- .L_rem8_1 and .L_rem4_1: one vector of the words that are left.
unfoldable pub rem_words : (w : ℕ) → Regs → Option Regs
rem_words w r = rem_bytes w (if r.n / w == 0 then r else move (r.n / w * w) r)

-- .L_8vector and .L_4vector, with vectors of `mvl` words.
unfoldable pub vectors : (mvl w : ℕ) → Regs → Option Regs
vectors mvl w r =
    if ltb r.n (mvl * w)
    then rem_words w r
    else (do_while (mvl * w) (λ s. leb (mvl * w) s.n) r.n r >>= rem_words w)

-- .L_scalar
unfoldable pub scalar : Regs → Option Regs
scalar r =
    if r.n / 8 * 8 == 0
    then rem_bytes 8 r
    else (do_while 8 (λ s. not (s.n / 8 * 8 == 0)) r.n r >>= rem_bytes 8)

-- From the aligned address on, with p and q at the same place in their words.
unfoldable pub by_words : (mvl w : ℕ) → Regs → Option Regs
by_words mvl w r = if r.p % w == 0 then vectors mvl w r else (pre_bytes w r >>= vectors mvl w)

-- .L_4byte
unfoldable pub four_bytes : (mvl : ℕ) → Regs → Option Regs
four_bytes mvl r = if r.p % 4 == r.q % 4 then by_words mvl 4 r else scalar r

unfoldable pub eight_bytes : (mvl : ℕ) → Regs → Option Regs
eight_bytes mvl r = if r.p % 8 == r.q % 8 then by_words mvl 8 r else four_bytes mvl r

-- The returned address, and the memory.
unfoldable pub returned : (dest : ℕ) → Option Regs → Option (ℕ × Bytes)
returned dest none = none
returned dest (some r) = some (dest, r.mem)

-- `mvl` is the machine's vector length.
unfoldable pub vec_memcpy : (mvl : ℕ) → Bytes → (dest src n : ℕ) → Option (ℕ × Bytes)
vec_memcpy mvl mem dest src n =
    let r : Regs = record { mem = mem; p = dest; q = src; n = n } in
    returned dest (if ltb n 40 then scalar r else eight_bytes mvl r)
