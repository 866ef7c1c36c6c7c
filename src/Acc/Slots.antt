-- ===== src/Acc/Slots.antt =====
-- The two slots in use at some point of a transfer loop of src/accelerated_io.c, and the order in
-- which `__ve_find_min_posted` gives them back.
use libsysve.Prelude.{
  ℕ, zero, suc, ◌+◌, ◌-◌, ◌%◌, ◌^◌, ◌≤◌, ◌<◌, ◌≡◌, ◌≢◌, ◌⊎◌, inl, inr, Option, none, some, Bytes,
  copy, arith,
}
use libsysve.Acc.Vh.{ve_find_min_posted, get_dma_size}

-- The chunks under way at some point of the loop, by the number of their round.
pub data Pending : Type 0 where
  idle : Pending
  one : ℕ → Pending
  two : ℕ → Pending

-- The entries of `posted` that say so.
abbrev pub Slots : Pending → (ℕ → Option ℕ) → Type 0
Slots idle p = (p 0 ≡ none) × (p 1 ≡ none)
Slots (one m) p = (p (m % 2) ≡ some m) × (p (suc m % 2) ≡ none)
Slots (two m) p = (p (m % 2) ≡ some m) × (p (suc m % 2) ≡ some (suc m))

-- At the start of round `i`, and once the slot of round `i` is free.
abbrev pub before : ℕ → Pending
before zero = idle
before (suc zero) = one 0
before (suc (suc m)) = two m

abbrev pub beside : ℕ → Pending
beside zero = idle
beside (suc m) = one m

abbrev pub max_posted : ℕ
max_posted = 2 ^ 64 - 1

-- The two slots that consecutive rounds use.
pub slot_cases : (m : ℕ) → ((m % 2 ≡ 0) × (suc m % 2 ≡ 1)) ⊎ ((m % 2 ≡ 1) × (suc m % 2 ≡ 0))
slot_cases m = ground arith

-- The oldest posted chunk is found.
pub find_min_one :
    (m : ℕ) (p : ℕ → Option ℕ) → m < max_posted → Slots (one m) p → ve_find_min_posted p ≡ m % 2
unfolding ve_find_min_posted
find_min_one m p small s = elim (slot_cases m) [ inl e ↦ ground arith | inr e ↦ ground arith ]

pub find_min_two :
    (m : ℕ) (p : ℕ → Option ℕ) → m < max_posted → Slots (two m) p → ve_find_min_posted p ≡ m % 2
unfolding ve_find_min_posted
find_min_two m p small s = elim (slot_cases m) [ inl e ↦ ground arith | inr e ↦ ground arith ]

pub same_slot : (m : ℕ) → (m % 2 + 0) % 2 ≡ m % 2
same_slot m = omega arith

pub next_slot : (m : ℕ) → (m % 2 + 1) % 2 ≡ suc m % 2
next_slot m = omega arith

pub slots_differ : (m : ℕ) → suc m % 2 ≢ m % 2
slots_differ m = omega arith

pub find_min_idle : (p : ℕ → Option ℕ) → Slots idle p → ve_find_min_posted p ≡ 0 % 2
unfolding ve_find_min_posted
find_min_idle p s = ground arith

-- What `posted` says of the other slot when the slot of round `i` is free.
abbrev pub Other : ℕ → (ℕ → Option ℕ) → Type 0
Other zero p = p 1 ≡ none
Other (suc m) p = p (m % 2) ≡ some m

pub get_dma_size-le : (n : ℕ) → n ≤ get_dma_size n
unfolding get_dma_size
get_dma_size-le n = omega arith

-- The bytes that a system call left in the VH buffer are those that reach the VE buffer.
pub moved_bytes :
    (ve vh bytes : Bytes) (n k : ℕ)
    → k < n
    → copy ve 0 (copy vh 0 bytes n) (get_dma_size n) k ≡ bytes k
moved_bytes ve vh bytes n k h = ground (arith, get_dma_size-le n)
