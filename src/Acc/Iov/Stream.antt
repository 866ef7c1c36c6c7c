-- ===== src/Acc/Iov/Stream.antt =====
-- The chunks of a writev, one after another, are the bytes of its `iovec`s.
use libsysve.Prelude.{
  ℕ, zero, suc, ◌+◌, ◌-◌, ◌*◌, ◌^◌, ◌≤◌, ◌<◌, ◌≡◌, List, Bytes, arith, sym, ap, ◌∙◌,
}
use libsysve.Acc.Vh.{AccIoInfo, Request, paras_size}
use libsysve.Acc.Control.{rounds, size_in, size_in_bounds}
use libsysve.Acc.Read.Types.{Job}
use libsysve.Acc.Write.Types.{Chunk}
use libsysve.Acc.Write.{Env}
use libsysve.Acc.Write.Step.{source_at, size_of}
use libsysve.Acc.Write.Source.{Alike}
use libsysve.Acc.Iov.{Iovec, drop_iov, total_size, Place, gather}
use libsysve.Acc.Iov.Address.{address, IsAt-start}
use libsysve.Acc.Iov.Gather.{AtPlace, gather-Gathered}

-- The data from byte `q` of the concatenation on.
unfoldable pub fill_stream : Bytes → List Iovec → ℕ → ℕ → Chunk ℕ
fill_stream mem iov q n = record { bytes = λ x. mem (address iov (q + x)); less = 0; rest = q + n }

-- The places of the two ways to keep the data, as long as rounds are to come.
abbrev pub SamePlace : List Iovec → ℕ → Place → ℕ → Type 0
SamePlace iov i p q = i < rounds (total_size iov) → AtPlace iov q p × (q ≡ paras_size * i)

abbrev pub start_place : Place
start_place = record { next_iov_num = 0; iov_len_done = 0 }

module _ {K D : Type 0} (e : Env K D) (mem : Bytes) (iov : List Iovec) (io : AccIoInfo) (job : Job)
    (all : job.count ≡ total_size iov) (small : total_size iov < 2 ^ 63) where
  bounds :
      (i : ℕ)
      → i < rounds job.count
      → (0 < size_in job.count i)
        × (paras_size * i + size_in job.count i ≤ job.count)
        × (suc i < rounds job.count → paras_size * i + size_in job.count i ≡ paras_size * suc i)
        × (suc i ≡ rounds job.count → paras_size * i + size_in job.count i ≡ job.count)
  bounds i lt = size_in_bounds job.count i (omega (arith, all, small)) lt

  -- Each round starts where the one before ended.
  source_at-AtPlace :
      (i : ℕ)
      → i < rounds job.count
      → AtPlace iov (paras_size * i) (source_at e (gather mem iov) io job start_place i)
  unfolding source_at drop_iov
  source_at-AtPlace zero lt = IsAt-start iov
  source_at-AtPlace (suc i) lt =
      let (some, room, onward, _) = bounds i (omega arith) in
      let end : paras_size * suc i ≡ paras_size * i + size_in job.count i = sym (onward lt) in
      rw end
        (gather-Gathered mem iov (source_at e (gather mem iov) io job start_place i)
          (paras_size * i) (size_in job.count i) (source_at-AtPlace i (omega arith))
          (omega (arith, room, all)) some).1

  -- Every chunk is filled entirely.
  pub gather-whole :
      (i : ℕ)
      → i < rounds job.count
      → (gather mem iov
          (source_at e (gather mem iov) io job start_place i)
          (size_of e (gather mem iov) io job i)).less
        ≡ 0
  gather-whole i lt =
      let (some, room, onward, _) = bounds i lt in
      (gather-Gathered mem iov (source_at e (gather mem iov) io job start_place i) (paras_size * i)
        (size_in job.count i) (source_at-AtPlace i lt) (omega (arith, room, all)) some).0

  pub gather-Alike :
      (write_congr : (k : K) (r : Request) (f g : Bytes)
        → ((x : ℕ) → x < r.size → f x ≡ g x)
        → e.write k r f ≡ e.write k r g)
      (i : ℕ)
      → i < rounds job.count
      → Alike e.write write_congr
          (gather mem iov)
          (fill_stream mem iov)
          e.second_flag
          io.vh_buff_and_flag
          job
          (rounds job.count - 1)
          (SamePlace iov)
          i
  unfolding fill_stream
  gather-Alike write_congr i lt t q same =
      let (some, room, onward, _) = bounds i lt in
      let (at, start) = same (rw (sym all) lt) in
      let (less, at', bytes) =
        gather-Gathered mem iov t q (size_in job.count i) at (omega (arith, room, all, start))
          some in
      (bytes, λ next. (at', ap (λ z. z + size_in job.count i) start ∙ onward (rw all next)))
