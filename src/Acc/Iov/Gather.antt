-- ===== src/Acc/Iov/Gather.antt =====
-- What writev fills its buffers with: the bytes of the `iovec`s, one after another.
use libsysve.Prelude.{
  ℕ, suc, ◌+◌, ◌-◌, ◌≤◌, ◌<◌, ◌≡◌, refl, ◌∙◌, List, [], ◌∷◌, leb, arith, ap, Bytes, copy, true,
  false,
}
use Prim.Native.Nat.{min}
use native.Mathlib.Decide.{dec_lt}
use libsysve.Acc.Write.Types.{Chunk}
use libsysve.Acc.Iov.{Iovec, drop_iov, total_size, Place, gather_from, gather, stop_place}
use libsysve.Acc.Iov.Address.{address, IsAt, IsAt-next, IsAt-stop, address_head}

-- The buffer got `size` bytes from byte `q` on, and the place moved on by as much.
abbrev pub Gathered : Bytes → List Iovec → (q target size : ℕ) → Bytes → Chunk Place → Type 0
Gathered mem iov q target size before c =
    (c.less ≡ 0)
    × IsAt iov (q + size) c.rest.next_iov_num c.rest.iov_len_done (drop_iov c.rest.next_iov_num iov)
    × ((x : ℕ) → x < target → c.bytes x ≡ before x)
    × ((x : ℕ) → x < size → c.bytes (target + x) ≡ mem (address iov (q + x)))

module _ (mem : Bytes) (iov : List Iovec) (p : Place) where
  -- What is copied from the element at the place.
  copied-address :
      (q n done target size : ℕ) (v : Iovec) (vs : List Iovec) (bytes : Bytes)
      → IsAt iov q n done (v ∷ vs)
      → size ≤ v.iov_len - done
      → (x : ℕ) → x < size
      → copy bytes target (λ k. mem (v.iov_base + done + k)) size (target + x)
        ≡ mem (address iov (q + x))
  copied-address q n done target size v vs bytes at le x lt =
      let place : v.iov_base + done + (target + x - target) ≡ v.iov_base + (done + x) =
        omega arith in
      ground (arith, at.same x, address_head v vs (done + x) (omega arith), ap mem place)

  gather_from-stop :
      (q n done target size : ℕ) (v : Iovec) (vs : List Iovec) (bytes : Bytes)
      → IsAt iov q n done (v ∷ vs)
      → size ≤ v.iov_len - done
      → Gathered mem iov q target size bytes (record {
        bytes = copy bytes target (λ k. mem (v.iov_base + done + k)) size;
        less = 0;
        rest = stop_place n done (v.iov_len - done) size;
      })
  gather_from-stop q n done target size v vs bytes at le = (
    refl,
    IsAt-stop iov q n done size v vs at le,
    λ x lt. ground arith,
    λ x lt. copied-address q n done target size v vs bytes at le x lt,
  )

  gather_from-last :
      (n done target size : ℕ) (v : Iovec) (vs : List Iovec) (bytes : Bytes)
      → size ≤ v.iov_len - done
      → gather_from mem (v ∷ vs) n done target size bytes p ≡ record {
        bytes = copy bytes target (λ k. mem (v.iov_base + done + k)) size;
        less = 0;
        rest = stop_place n done (v.iov_len - done) size;
      }
  unfolding gather_from
  gather_from-last n done target size v vs bytes le =
      let all : min (v.iov_len - done) size ≡ size = omega arith in
      let none_left : size - size ≡ 0 = omega arith in
      let here : leb size size ≡ true = ground arith in rw (all, here, none_left) refl

  gather_from-more :
      (n done target size : ℕ) (v : Iovec) (vs : List Iovec) (bytes : Bytes)
      → v.iov_len - done < size
      → gather_from mem (v ∷ vs) n done target size bytes p
        ≡ gather_from mem vs
            (suc n)
            0
            (target + (v.iov_len - done))
            (size - (v.iov_len - done))
            (copy bytes target (λ k. mem (v.iov_base + done + k)) (v.iov_len - done))
            p
  unfolding gather_from
  gather_from-more n done target size v vs bytes lt =
      let part : min (v.iov_len - done) size ≡ v.iov_len - done = omega arith in
      let on : leb size (v.iov_len - done) ≡ false = ground arith in rw (part, on) refl

  joined :
      (q n done target size : ℕ) (v : Iovec) (vs : List Iovec) (bytes : Bytes)
      → IsAt iov q n done (v ∷ vs)
      → v.iov_len - done < size
      → (c : Chunk Place)
      → Gathered mem iov
          (q + (v.iov_len - done))
          (target + (v.iov_len - done))
          (size - (v.iov_len - done))
          (copy bytes target (λ k. mem (v.iov_base + done + k)) (v.iov_len - done))
          c
      → Gathered mem iov q target size bytes c
  joined q n done target size v vs bytes at more c (less, at', before, after) = (
    less,
    rw end at',
    (λ x lt. before x (omega arith) ∙ ground arith),
    λ x lt. elim (dec_lt x l) [
      | yes here ↦
          before (target + x) (omega arith)
          ∙ copied-address q n done target l v vs bytes at le_refl x here
      | no behind ↦
          ap c.bytes (omega (arith, behind))
          ∙ after (x - l) (omega (arith, behind))
          ∙ ap (λ y. mem (address iov y)) (omega (arith, behind))
    ],
  )
    where
      l : ℕ
      l = v.iov_len - done

      end : q + size ≡ q + (v.iov_len - done) + (size - (v.iov_len - done))
      end = omega arith

      le_refl : v.iov_len - done ≤ v.iov_len - done
      le_refl = omega arith

  gather_from-Gathered :
      (rest : List Iovec) (q n done target size : ℕ) (bytes : Bytes)
      → IsAt iov q n done rest
      → q + size ≤ total_size iov
      → 0 < size
      → Gathered mem iov q target size bytes (gather_from mem rest n done target size bytes p)
  unfolding total_size
  gather_from-Gathered [] q n done target size bytes at room some =
      absurd (omega (arith, at.total, at.inside))
  gather_from-Gathered (v ∷ vs) q n done target size bytes at room some =
      elim (dec_lt (v.iov_len - done) size) [
        | no last ↦
            rw (gather_from-last n done target size v vs bytes (omega (arith, last)))
              (gather_from-stop q n done target size v vs bytes at (omega (arith, last)))
        | yes more ↦ rw (gather_from-more n done target size v vs bytes more) (
            joined q n done target size v vs bytes at more _ (
              gather_from-Gathered vs (q + (v.iov_len - done)) (suc n) 0
                (target + (v.iov_len - done)) (size - (v.iov_len - done))
                (copy bytes target (λ k. mem (v.iov_base + done + k)) (v.iov_len - done))
                (IsAt-next iov q n done v vs at) (omega arith) (omega arith)))
      ]

-- The place of the loop, `q` bytes behind the start.
abbrev pub AtPlace : List Iovec → ℕ → Place → Type 0
AtPlace iov q p = IsAt iov q p.next_iov_num p.iov_len_done (drop_iov p.next_iov_num iov)

pub gather-Gathered :
    (mem : Bytes) (iov : List Iovec) (p : Place) (q size : ℕ)
    → AtPlace iov q p
    → q + size ≤ total_size iov
    → 0 < size
    → let c = gather mem iov p size in
      (c.less ≡ 0)
      × AtPlace iov (q + size) c.rest
      × ((x : ℕ) → x < size → c.bytes x ≡ mem (address iov (q + x)))
unfolding gather
gather-Gathered mem iov p q size at room some =
    let (less, at', before, bytes) =
      gather_from-Gathered mem iov p (drop_iov p.next_iov_num iov) q p.next_iov_num p.iov_len_done 0
        size (λ _. 0) at room some in
    (less, at', λ x lt. ap (gather mem iov p size).bytes (omega arith) ∙ bytes x lt)
