-- ===== src/Acc/Iov.antt =====
-- The loops of src/accelerated_io.c that spread a VE buffer over the caller's `iovec`s (readv) and
-- fill one from them (writev), from the place `next_iov_num`, `iov_len_done` where the last one ended.
pub mod Address
pub mod Gather
pub mod Stream
pub mod Spread
use libsysve.Prelude.{
  ℕ, zero, suc, ◌+◌, ◌-◌, ◌<◌, ◌≡◌, refl, List, [], ◌∷◌, ltb, leb, if◌then◌else◌, Bytes, copy,
  arith, copy-congr, ap,
}
use Prim.Native.Nat.{min}
use libsysve.Acc.Write.Types.{Chunk}

-- `struct iovec`
pub record Iovec : Type 0 where
  pub iov_base : ℕ
  pub iov_len : ℕ

unfoldable pub drop_iov : ℕ → List Iovec → List Iovec
drop_iov zero vs = vs
drop_iov (suc n) [] = []
drop_iov (suc n) (v ∷ vs) = drop_iov n vs

-- The loop `total_size = total_size + iov[i].iov_len`.
unfoldable pub total_size : List Iovec → ℕ
total_size [] = 0
total_size (v ∷ vs) = v.iov_len + total_size vs

-- The place in the `iovec`s where the next buffer goes on.
pub record Place : Type 0 where
  pub next_iov_num : ℕ
  pub iov_len_done : ℕ

-- Where the loop stops in element `n`, when the buffer is used up there.
unfoldable pub stop_place : ℕ → (iov_len_done iov_len_less ve_buff_size_less : ℕ) → Place
stop_place n done less size =
    if ltb size less
    then record { next_iov_num = n; iov_len_done = done + size }
    else record { next_iov_num = suc n; iov_len_done = 0 }

-- What readv has delivered: the caller's memory, and the place.
pub record Scatter : Type 0 where
  pub mem : Bytes
  pub place : Place

-- The loop over `iov[n], iov[n + 1], ...`: `source` is the offset in the VE buffer, `size` is
-- `ve_buff_size_less`. A loop that runs out of elements leaves `next_iov_num`.
unfoldable pub scatter_from : List Iovec → (n done source size : ℕ) → Bytes → Scatter → Scatter
scatter_from [] n done source size bytes s = record s {
  place = record { next_iov_num = s.place.next_iov_num; iov_len_done = done };
}
scatter_from (v ∷ vs) n done source size bytes s =
    let less = v.iov_len - done in
    let copied = min less size in
    let mem = copy s.mem (v.iov_base + done) (λ k. bytes (source + k)) copied in
    let rest =
      scatter_from vs (suc n) 0 (source + copied) (size - copied) bytes (record s { mem = mem }) in
    if leb size copied then record { mem = mem; place = stop_place n done less size } else rest

unfoldable pub scatter : List Iovec → Scatter → Bytes → ℕ → Scatter
scatter iov s bytes size =
    scatter_from (drop_iov s.place.next_iov_num iov) s.place.next_iov_num s.place.iov_len_done 0
      size bytes s

-- The loop that fills the VE buffer: `target` is the offset there.
unfoldable pub gather_from :
    Bytes → List Iovec → (n done target size : ℕ) → Bytes → Place → Chunk Place
gather_from mem [] n done target size bytes p = record {
  bytes = bytes;
  less = size;
  rest = record { next_iov_num = p.next_iov_num; iov_len_done = done };
}
gather_from mem (v ∷ vs) n done target size bytes p =
    let less = v.iov_len - done in
    let copied = min less size in
    let filled = copy bytes target (λ k. mem (v.iov_base + done + k)) copied in
    let rest = gather_from mem vs (suc n) 0 (target + copied) (size - copied) filled p in
    if leb size copied
    then record { bytes = filled; less = size - copied; rest = stop_place n done less size }
    else rest

unfoldable pub gather : Bytes → List Iovec → Place → ℕ → Chunk Place
gather mem iov p size =
    gather_from mem (drop_iov p.next_iov_num iov) p.next_iov_num p.iov_len_done 0 size (λ _. 0) p

-- What is spread depends on the buffer's `size` bytes alone.
scatter_from-congr :
    (vs : List Iovec) (n done source size : ℕ) (f g : Bytes) (s : Scatter)
    → ((k : ℕ) → k < source + size → f k ≡ g k)
    → scatter_from vs n done source size f s ≡ scatter_from vs n done source size g s
unfolding scatter_from
scatter_from-congr [] n done source size f g s same = refl
scatter_from-congr (v ∷ vs) n done source size f g s same =
    let copied : ℕ = min (v.iov_len - done) size in
    let mem_same : copy s.mem (v.iov_base + done) (λ k. f (source + k)) copied
        ≡ copy s.mem (v.iov_base + done) (λ k. g (source + k)) copied =
      copy-congr s.mem (v.iov_base + done) copied _ _ (λ k lt. same (source + k) (omega arith)) in
    rw mem_same (
      ap
        (λ (t : Scatter).
          if leb size copied
          then record {
            mem = copy s.mem (v.iov_base + done) (λ k. g (source + k)) copied;
            place = stop_place n done (v.iov_len - done) size;
          }
          else t)
        (scatter_from-congr vs (suc n) 0 (source + copied) (size - copied) f g _
          (λ k lt. same k (omega arith))))

pub scatter-congr :
    (iov : List Iovec) (s : Scatter) (size : ℕ) (f g : Bytes)
    → ((k : ℕ) → k < size → f k ≡ g k)
    → scatter iov s f size ≡ scatter iov s g size
unfolding scatter
scatter-congr iov s size f g same =
    scatter_from-congr (drop_iov s.place.next_iov_num iov) _ _ 0 size f g s
      (λ k lt. same k (omega arith))
