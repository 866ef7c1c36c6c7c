-- ===== src/Prelude/Array.antt =====
-- C arrays as functions of the index, and copies of byte ranges.
use Prim.Native.Nat.{ℕ, ◌+◌, ◌-◌, ◌<◌}
use mathlib.Core.Path.{◌≡◌, fun_ext}
use mathlib.Core.Bool.{◌&&◌}
use native.Mathlib.Omega.{arith}
use libsysve.Prelude.Tests.{ltb, leb, ◌==◌, if◌then◌else◌}

-- `a[j] = v`
abbrev pub update {ℓ} : {A : Type ℓ} → (ℕ → A) → ℕ → A → ℕ → A
update f j v k = if k == j then v else f k

-- Bytes at addresses.
abbrev pub Bytes : Type 0
Bytes = ℕ → ℕ

-- `memcpy(dst + a, src, n)` where `src` is read from its start.
abbrev pub copy : Bytes → ℕ → Bytes → ℕ → Bytes
copy dst a src n k = if leb a k && ltb k (a + n) then src (k - a) else dst k

-- A copy depends on the copied bytes alone.
pub copy-congr :
    (dst : Bytes) (a n : ℕ) (f g : Bytes)
    → ((k : ℕ) → k < n → f k ≡ g k)
    → copy dst a f n ≡ copy dst a g n
copy-congr dst a n f g same = fun_ext λ k. ground (arith, same (k - a))
