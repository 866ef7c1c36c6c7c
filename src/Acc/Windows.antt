-- ===== src/Acc/Windows.antt =====
-- What a DMA transfer does to the buffers of src/accelerated_io.c: as src/include/vedma.h documents it, it
-- copies a number of bytes from one VE host virtual address to another, at which the four buffers (two on each side) are windows of PARAS_SIZE bytes.
use libsysve.Prelude.{
  ℕ, zero, suc, ◌+◌, ◌-◌, ◌≤◌, ◌<◌, ◌≡◌, ◌≢◌, ◌⊎◌, refl, Bool, ◌&&◌, ltb, leb, if◌then◌else◌, Bytes,
  copy, update, arith, fun_ext,
}
use native.Mathlib.Decide.{ℕ_discrete}
use libsysve.Acc.Vh.{Transfer, AccIoInfo, paras_size}

-- Whether the address `a` is in the window at `base`.
abbrev pub inside : (base a : ℕ) → Bool
inside base a = leb base a && ltb a (base + paras_size)

-- The byte at an address; 0 where no buffer is.
unfoldable pub byte_at : AccIoInfo → (vh ve : ℕ → Bytes) → ℕ → ℕ
byte_at io vh ve a =
    if inside (io.vh_vehva 0) a
    then vh 0 (a - io.vh_vehva 0)
    else (if inside (io.vh_vehva 1) a
        then vh 1 (a - io.vh_vehva 1)
        else (if inside (io.ve_vehva 0) a
            then ve 0 (a - io.ve_vehva 0)
            else (if inside (io.ve_vehva 1) a then ve 1 (a - io.ve_vehva 1) else 0)))

-- The buffers of one side, at the addresses `base`, after a transfer.
unfoldable pub written_by :
    AccIoInfo → Transfer → (base : ℕ → ℕ) → (vh ve : ℕ → Bytes) → (side : ℕ → Bytes) → ℕ → Bytes
written_by io t base vh ve side j k =
    if ltb j 2
      && (ltb k paras_size && (leb t.dst (base j + k) && ltb (base j + k) (t.dst + t.size)))
    then byte_at io vh ve (t.src + (base j + k - t.dst))
    else side j k

abbrev pub vh_after : AccIoInfo → Transfer → (vh ve : ℕ → Bytes) → ℕ → Bytes
vh_after io t vh ve = written_by io t io.vh_vehva vh ve vh

abbrev pub ve_after : AccIoInfo → Transfer → (vh ve : ℕ → Bytes) → ℕ → Bytes
ve_after io t vh ve = written_by io t io.ve_vehva vh ve ve

abbrev pub Separate : ℕ → ℕ → Type 0
Separate a b = (a + paras_size ≤ b) ⊎ (b + paras_size ≤ a)

-- No two windows share an address.
pub record Apart (io : AccIoInfo) : Type 0 where
  pub vh : Separate (io.vh_vehva 0) (io.vh_vehva 1)
  pub ve : Separate (io.ve_vehva 0) (io.ve_vehva 1)
  pub across : (i j : ℕ) → i < 2 → j < 2 → Separate (io.vh_vehva i) (io.ve_vehva j)

-- From slot `j` of the VH to that of the VE, and back.
abbrev pub fetch : AccIoInfo → (j size : ℕ) → Transfer
fetch io j size = record { dst = io.ve_vehva j; src = io.vh_vehva j; size = size }

abbrev pub send : AccIoInfo → (j size : ℕ) → Transfer
send io j size = record { dst = io.vh_vehva j; src = io.ve_vehva j; size = size }

straight : (a b c k : ℕ) → b ≡ c → a + (b + k - c) ≡ a + k
straight a b c k e = omega arith

module _ (io : AccIoInfo) (apart : Apart io) (vh ve : ℕ → Bytes) where
  byte_at-vh : (j x : ℕ) → j < 2 → x < paras_size → byte_at io vh ve (io.vh_vehva j + x) ≡ vh j x
  unfolding byte_at
  byte_at-vh zero x lt small = ground arith
  byte_at-vh (suc zero) x lt small = ground (arith, apart.vh)
  byte_at-vh (suc (suc j)) x lt small = absurd (omega arith)

  byte_at-ve : (j x : ℕ) → j < 2 → x < paras_size → byte_at io vh ve (io.ve_vehva j + x) ≡ ve j x
  unfolding byte_at
  byte_at-ve zero x lt small =
      ground (arith, apart.across 0 0 (omega arith) lt, apart.across 1 0 (omega arith) lt)
  byte_at-ve (suc zero) x lt small =
      ground (arith, apart.ve, apart.across 0 1 (omega arith) lt, apart.across 1 1 (omega arith) lt)
  byte_at-ve (suc (suc j)) x lt small = absurd (omega arith)

  vh_apart : (i j : ℕ) → i < 2 → j < 2 → i ≢ j → Separate (io.vh_vehva i) (io.vh_vehva j)
  vh_apart zero zero li lj ne = absurd (ne refl)
  vh_apart zero (suc zero) li lj ne = apart.vh
  vh_apart (suc zero) zero li lj ne = ground (arith, apart.vh)
  vh_apart (suc zero) (suc zero) li lj ne = absurd (ne refl)
  vh_apart (suc (suc i)) j li lj ne = absurd (omega arith)
  vh_apart i (suc (suc j)) li lj ne = absurd (omega arith)

  ve_apart : (i j : ℕ) → i < 2 → j < 2 → i ≢ j → Separate (io.ve_vehva i) (io.ve_vehva j)
  ve_apart zero zero li lj ne = absurd (ne refl)
  ve_apart zero (suc zero) li lj ne = apart.ve
  ve_apart (suc zero) zero li lj ne = ground (arith, apart.ve)
  ve_apart (suc zero) (suc zero) li lj ne = absurd (ne refl)
  ve_apart (suc (suc i)) j li lj ne = absurd (omega arith)
  ve_apart i (suc (suc j)) li lj ne = absurd (omega arith)

  module _ (j size : ℕ) (lt : j < 2) (small : size ≤ paras_size) where
    fetch_at :
        (i k : ℕ)
        → ve_after io (fetch io j size) vh ve i k ≡ update ve j (copy (ve j) 0 (vh j) size) i k
    unfolding written_by
    fetch_at i k = elim (ℕ_discrete i j) [
      | yes same ↦ ground (
        arith,
        same,
        byte_at-vh j k lt,
        lt,
        small,
        straight (io.vh_vehva j) (io.ve_vehva i) (io.ve_vehva j) k,
      )
      | no other ↦ ground (arith, other, ve_apart i j, lt, small)
    ]

    fetch_keeps_at : (i k : ℕ) → vh_after io (fetch io j size) vh ve i k ≡ vh i k
    unfolding written_by
    fetch_keeps_at i k = ground (arith, apart.across i j, lt, small)

    send_at :
        (i k : ℕ)
        → vh_after io (send io j size) vh ve i k ≡ update vh j (copy (vh j) 0 (ve j) size) i k
    unfolding written_by
    send_at i k = elim (ℕ_discrete i j) [
      | yes same ↦ ground (
        arith,
        same,
        byte_at-ve j k lt,
        lt,
        small,
        straight (io.ve_vehva j) (io.vh_vehva i) (io.vh_vehva j) k,
      )
      | no other ↦ ground (arith, other, vh_apart i j, lt, small)
    ]

    send_keeps_at : (i k : ℕ) → ve_after io (send io j size) vh ve i k ≡ ve i k
    unfolding written_by
    send_keeps_at i k = ground (arith, apart.across j i, lt, small)

    pub fetch_lem :
        (ve_after io (fetch io j size) vh ve ≡ update ve j (copy (ve j) 0 (vh j) size))
        × (vh_after io (fetch io j size) vh ve ≡ vh)
    fetch_lem =
        ((fun_ext λ i. fun_ext λ k. fetch_at i k), (fun_ext λ i. fun_ext λ k. fetch_keeps_at i k))

    pub send_lem :
        (vh_after io (send io j size) vh ve ≡ update vh j (copy (vh j) 0 (ve j) size))
        × (ve_after io (send io j size) vh ve ≡ ve)
    send_lem =
        ((fun_ext λ i. fun_ext λ k. send_at i k), (fun_ext λ i. fun_ext λ k. send_keeps_at i k))
