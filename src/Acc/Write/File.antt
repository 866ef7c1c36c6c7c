-- ===== src/Acc/Write/File.antt =====
-- The plain write of a regular file: the calls on its chunks come to one call for all of it.
use libsysve.Prelude.{
  ℕ, zero, suc, ◌+◌, ◌-◌, ◌*◌, ◌^◌, ◌≤◌, ◌<◌, ◌≡◌, refl, Bool, ◌==◌, ltb, Bytes, arith, Bool-cases,
  inl, inr, ap, ◌∙◌, sym,
}
use Prim.Native.Nat.{min}
use libsysve.Prelude.Int.{pos}
use libsysve.Acc.Vh.{Request, paras_size}
use libsysve.Acc.Control.{rounds, size_in, size_in_bounds, size_in-le, rounds-zero}
use libsysve.Acc.Read.Types.{Job}
use libsysve.Acc.Write.Types.{WriteReply, wrote, Chunk}
use libsysve.Acc.Write.Plain.{Progress, Outcome, request, ended, sent, after, plain_write}

-- The answers to the system call `number` on the file `fd`, for at most a chunk: a file that takes `room` bytes. `kernel_at t` is the VH when the first `t` bytes of `contents` are
-- written at the start of the write.
pub record WritesFile {K : Type 0} (write : K → Request → Bytes → WriteReply × K)
    (number fd ofs : ℕ) (contents : Bytes) (room : ℕ) (kernel_at : ℕ → K) : Type 0 where
  pub writes :
      (t : ℕ) (r : Request) (f : Bytes)
      → r.number ≡ number
      → r.fd ≡ fd
      → r.size ≤ paras_size
      → r.ofs ≡ ofs + t
      → ((x : ℕ) → x < r.size → f x ≡ contents (t + x))
      → write (kernel_at t) r f
        ≡ (wrote (min r.size (room - t)), kernel_at (t + min r.size (room - t)))

module _ {K T : Type 0} (write : K → Request → Bytes → WriteReply × K) (fill : T → ℕ → Chunk T)
    (second_flag : ℕ) (buffer : ℕ → ℕ) (job : Job) (contents : Bytes) (room : ℕ) (kernel_at : ℕ → K)
    (file : WritesFile write job.number job.fd job.ofs contents room kernel_at)
    (Gives : ℕ → T → Type 0)
    (gives : (t n : ℕ) (s : T)
      → Gives t s
      → ((x : ℕ) → x < n → (fill s n).bytes x ≡ contents (t + x)) × Gives (t + n) (fill s n).rest)
    (small : job.count < 2 ^ 63) where
  -- All that there is room for of the request.
  abbrev pub Whole : ℕ → Outcome K → Type 0
  Whole errno r =
      (r.ret ≡ pos (min job.count room))
      × (r.errno ≡ errno)
      × (r.kernel ≡ kernel_at (min job.count room))

  -- `t` bytes have been written when round `i` starts.
  abbrev pub At : ℕ → Progress K T → Type 0
  At i p =
      (p.kernel ≡ kernel_at p.total)
      × (p.ofs ≡ job.ofs + p.total)
      × Gives p.total p.source
      × (p.total ≤ room)
      × (p.total ≤ job.count)
      × (i < rounds job.count → p.total ≡ paras_size * i)
      × (i ≡ rounds job.count → p.total ≡ job.count)

  ended-Whole :
      (p : Progress K T)
      → p.kernel ≡ kernel_at p.total
      → p.total ≡ min job.count room
      → Whole p.errno (ended write fill second_flag buffer job (rounds job.count - 1) p)
  ended-Whole p k all = rw (sym all) (refl, refl, k)

  after-Whole :
      (i n : ℕ) (rest : T) (p : Progress K T) (next : Progress K T → Outcome K)
      → i < rounds job.count
      → At i p
      → n ≡ min (size_in job.count i) (room - p.total)
      → (size_in job.count i ≤ n → Gives (p.total + n) rest)
      → ((q : Progress K T) → At (suc i) q → q.errno ≡ p.errno → Whole p.errno (next q))
      → Whole p.errno (
          after write fill second_flag buffer job
            (rounds job.count - 1)
            i
            rest
            p
            (wrote n, kernel_at (p.total + n))
            next)
  after-Whole i n rest p next lt (k, o, h, av, le, early, late) amount source onwards =
      let (some, fits, onward, end) = size_in_bounds job.count i small lt in
      let start : p.total ≡ paras_size * i = early lt in
      let done : Progress K T =
        sent write fill second_flag buffer job (rounds job.count - 1) n rest
          (kernel_at (p.total + n)) p in
      elim (Bool-cases (n == 0)) [
        | inl none_taken ↦ rw none_taken (
            ended-Whole (record p { kernel = kernel_at (p.total + n) })
              (ap kernel_at (ground (arith, none_taken)))
              (ground (arith, none_taken, amount, some)))
        | inr more ↦ rw more (elim (Bool-cases (ltb n (size_in job.count i))) [
          | inl short ↦
              rw short (ended-Whole done refl (ground (arith, short, amount, fits, start)))
          | inr full ↦ rw full (
              onwards done
                (
                  refl,
                  omega (arith, o),
                  source (ground (arith, full)),
                  omega (arith, amount),
                  omega (arith, amount, fits, start),
                  (λ later. ground (arith, full, amount, start, onward later)),
                  (λ last. ground (arith, full, amount, start, end last)),
                )
                refl)
        ])
      ]

  plain_write-Whole :
      (marked : Bool) (left i : ℕ) (p : Progress K T)
      → i + left ≡ rounds job.count
      → At i p
      → Whole p.errno
          (plain_write write fill second_flag buffer job (rounds job.count - 1) marked left i p)
  unfolding plain_write
  plain_write-Whole marked zero i p sum (k, o, h, av, le, early, late) =
      ended-Whole p k (omega (arith, late (omega arith)))
  plain_write-Whole marked (suc left) i p sum at =
      let (k, o, h, av, le, early, late) = at in
      let asked : Request =
        request write fill second_flag buffer job (rounds job.count - 1) marked i p in
      let (bytes, rest) = gives p.total asked.size p.source h in
      let answer : write p.kernel asked (fill p.source asked.size).bytes ≡ (
        wrote (min asked.size (room - p.total)),
        kernel_at (p.total + min asked.size (room - p.total)),
      ) =
        ap (λ z. write z asked (fill p.source asked.size).bytes) k
        ∙ file.writes p.total asked (fill p.source asked.size).bytes refl refl
            (size_in-le job.count i small (omega arith)) o bytes in
      rw answer (
        after-Whole i _ (fill p.source asked.size).rest p
          (plain_write write fill second_flag buffer job (rounds job.count - 1) marked left (suc i))
          (omega arith) at refl (λ full. rw (whole_chunk asked.size (room - p.total) full) rest)
          (λ q at' same. rw (sym same) (plain_write-Whole marked left (suc i) q (omega arith) at')))
    where
      whole_chunk : (size space : ℕ) → size ≤ min size space → min size space ≡ size
      whole_chunk size space le = omega arith

  -- From the start of the write.
  pub plain_write-file :
      (marked : Bool) (p : Progress K T)
      → p.kernel ≡ kernel_at 0
      → p.ofs ≡ job.ofs
      → p.total ≡ 0
      → Gives 0 p.source
      → Whole p.errno (
          plain_write write fill second_flag buffer job
            (rounds job.count - 1)
            marked
            (rounds job.count)
            0
            p)
  plain_write-file marked p k o t h =
      plain_write-Whole marked (rounds job.count) 0 p (omega arith) (
        k ∙ ap kernel_at (sym t),
        omega (arith, o, t),
        rw t h,
        omega (arith, t),
        omega (arith, t),
        (λ _. omega (arith, t)),
        (λ none. omega (arith, t, rounds-zero job.count small (sym none))),
      )
