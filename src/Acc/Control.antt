-- ===== src/Acc/Control.antt =====
-- The control flow that the transfer loops of src/accelerated_io.c share: a loop's body that may
-- `break`, and the number of rounds.
use libsysve.Prelude.{
  ℕ, suc, ◌+◌, ◌-◌, ◌*◌, ◌/◌, ◌%◌, ◌^◌, ◌≤◌, ◌<◌, ◌≡◌, ◌==◌, if◌then◌else◌, arith,
}
use libsysve.Acc.Vh.{paras_size}

-- The end of a part of the loop's body: go on, or `break`.
pub data Outcome (S : Type 0) : Type 0 where
  go : S → Outcome S
  stop : S → Outcome S

infixl 5 ◌>>=◌
abbrev pub ◌>>=◌ : {S : Type 0} → Outcome S → (S → Outcome S) → Outcome S
go s >>= f = f s
stop s >>= f = stop s

-- The loop's next round, unless the body left the loop.
abbrev pub proceed : {S : Type 0} → Outcome S → (S → S) → S
proceed (go s) next = next s
proceed (stop s) next = s

-- `(count + transfer_size - 1) / transfer_size`
unfoldable pub rounds : ℕ → ℕ
rounds count = (count + paras_size - 1) % 2 ^ 64 / paras_size

-- The part of a transfer that round `i` moves.
abbrev pub size_in : ℕ → ℕ → ℕ
size_in count i = if i == rounds count - 1 then count - paras_size * i else paras_size

pub size_in_bounds :
    (count i : ℕ)
    → count < 2 ^ 63
    → i < rounds count
    → (0 < size_in count i)
      × (paras_size * i + size_in count i ≤ count)
      × (suc i < rounds count → paras_size * i + size_in count i ≡ paras_size * suc i)
      × (suc i ≡ rounds count → paras_size * i + size_in count i ≡ count)
unfolding rounds
size_in_bounds count i small lt = ground arith

-- No round moves more than a chunk.
pub size_in-le : (count i : ℕ) → count < 2 ^ 63 → i < rounds count → size_in count i ≤ paras_size
unfolding rounds
size_in-le count i small lt = ground arith

pub rounds-zero : (count : ℕ) → count < 2 ^ 63 → rounds count ≡ 0 → count ≡ 0
unfolding rounds
rounds-zero count small none = omega (arith, none)
